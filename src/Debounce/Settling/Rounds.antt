-- ===== src/Debounce/Settling/Rounds.antt =====
-- Rounds of turns bring a debouncer to rest, so that every function that was handed to it has run.
use hocuspocu_rs.Base.{
  ℕ, zero, suc, ◌*◌, ◌≤◌, ◌<◌, ◌≡◌, ◌≢◌, ◌∙◌, inl, inr, refl, sym, List, [], ◌∷◌, map, Str, ltb,
  ◌==◌, ==_iff, length, All, arith, Bool-cases, false≢true,
}
use hocuspocu_rs.Debounce.{
  Debouncer, Task, sleeping, entering, waiting, clearing, executing, leaving, ended, move, step,
  run, new, debounce, Event,
}
use hocuspocu_rs.Debounce.Holding.{IsHeld, debounce-IsHeld, run-IsHeld, run_from-IsHeld}
use hocuspocu_rs.Debounce.Lasting.{Contains, Carries, IsKept, Spares}
use hocuspocu_rs.Debounce.Lasting.Runs.{step-IsKept, debounce-lasts}
use hocuspocu_rs.Debounce.Matching.{
  Matches, step-Matches, run-Matches, run_from-Matches, debounce-Matches,
}
use hocuspocu_rs.Debounce.Settling.{stage, total, work, IsDue}
use hocuspocu_rs.Debounce.Settling.Progress.{
  some_goes_on, some_work, Turns-spawned, turns-Keeps, round_gains,
}

-- Every task gets a turn.
abbrev pub Covers : ℕ → List ℕ → Type 0
Covers n ks = (k : ℕ) → k < n → Contains k ks

pub run_rounds : List (List ℕ) → Debouncer → Debouncer
run_rounds [] s = s
run_rounds (ks ∷ rounds) s = run_rounds rounds (run (map move ks) s)

round_less :
    (ks : List ℕ) (s : Debouncer)
    → IsHeld s
    → IsDue s
    → Covers s.next_task ks
    → 0 < work s
    → work (run (map move ks) s) < work s
unfolding work
round_less ks s h due covers pos =
    let (k, busy) = some_work s.next_task s pos in
    let (j, t) = some_goes_on k s h due busy in
    round_gains ks j s h due (covers j (Turns-spawned j s h t)) t

rounds_settle :
    (rounds : List (List ℕ)) (s : Debouncer)
    → IsHeld s
    → IsDue s
    → All (Covers s.next_task) rounds
    → work s ≤ length rounds
    → (work (run_rounds rounds s) ≡ 0) × ((run_rounds rounds s).next_task ≡ s.next_task)
unfolding run_rounds
rounds_settle [] s h due covers enough = (omega arith, refl)
rounds_settle (ks ∷ rounds) s h due covers enough =
    let kept = turns-Keeps ks s h due in
    let rest =
      rounds_settle rounds (run (map move ks) s) kept.held kept.due (rw (kept.next) covers.1)
        (elim (Bool-cases (ltb 0 (work s))) [
          | inl busy ↦ omega (arith, round_less ks s h due (covers.0) (ground arith))
          | inr none_left ↦ let rest : work s ≡ 0 = ground arith in omega (arith, kept.less)
        ]) in
    (rest.0, rest.1 ∙ kept.next)

-- A task with no turns before it has nothing to run.
at_rest : (n : ℕ) (s : Debouncer) (k : ℕ) → total n s ≡ 0 → k < n → stage (s.tasks k) ≡ 0
unfolding total
at_rest zero s k none_left lt = absurd (omega arith)
at_rest (suc n) s k none_left lt = elim (Bool-cases (k == n)) [
  | inl same ↦ let key : k ≡ n = (==_iff k n).0 same in rw key (omega arith)
  | inr other ↦
      let apart : k ≢ n = λ e. false≢true (sym other ∙ (==_iff k n).1 e) in
      at_rest n s k (omega arith) (omega (arith, apart))
]

ended_Carries : (task : Task) (id : Str) (func : ℕ) → stage task ≡ 0 → Carries task id func → ⊥
ended_Carries (sleeping _ _ _) id func e c = omega arith
ended_Carries (entering _ _ _) id func e c = omega arith
ended_Carries (waiting _ _ _ _) id func e c = omega arith
ended_Carries (clearing _ _ _) id func e c = omega arith
ended_Carries (executing _ _ _) id func e c = omega arith
ended_Carries (leaving _ _) id func e c = c
ended_Carries ended id func e c = c

moves_IsKept :
    (ks : List ℕ) (id : Str) (func : ℕ) (s : Debouncer)
    → Matches s
    → IsKept id func s
    → Matches (run (map move ks) s) × IsKept id func (run (map move ks) s)
unfolding run
moves_IsKept [] id func s m kept = (m, kept)
moves_IsKept (k ∷ ks) id func s m kept =
    moves_IsKept ks id func (step (move k) s) (step-Matches (move k) s m)
      (step-IsKept (move k) id func s m tt kept)

rounds_IsKept :
    (rounds : List (List ℕ)) (id : Str) (func : ℕ) (s : Debouncer)
    → Matches s
    → IsKept id func s
    → IsKept id func (run_rounds rounds s)
unfolding run_rounds
rounds_IsKept [] id func s m kept = kept
rounds_IsKept (ks ∷ rounds) id func s m kept =
    let (m', kept') = moves_IsKept ks id func s m kept in
    rounds_IsKept rounds id func (run (map move ks) s) m' kept'

total_bound : (n : ℕ) (s : Debouncer) → total n s ≤ 6 * n
unfolding total
total_bound zero s = omega arith
total_bound (suc n) s = omega (arith, total_bound n s, stage_bound (s.tasks n))
  where
    stage_bound : (task : Task) → stage task ≤ 6
    stage_bound task = ground arith

pub kept_runs :
    (rounds : List (List ℕ)) (id : Str) (func : ℕ) (s : Debouncer)
    → Matches s
    → IsHeld s
    → IsDue s
    → All (Covers s.next_task) rounds
    → 6 * s.next_task ≤ length rounds
    → IsKept id func s
    → Contains func (run_rounds rounds s).executed
unfolding work
kept_runs rounds id func s m h due covers enough kept =
    let (rest, next) =
      rounds_settle rounds s h due covers (omega (arith, total_bound s.next_task s)) in
    elim (rounds_IsKept rounds id func s m kept) [
      | inl ran ↦ ran
      | inr (k, lt, carries) ↦
          let done = at_rest (run_rounds rounds s).next_task (run_rounds rounds s) k rest lt in
          absurd (ended_Carries ((run_rounds rounds s).tasks k) id func done carries)
    ]

-- The function of a call of `debounce` runs in the end, whatever came before the call, and whatever
-- comes behind it but another call for its id: when the time of every timer has come and nobody calls
-- any more, it has run after as many rounds as there can be turns left, six for each task, where a
-- round gives every task a turn, in any order and as often as it likes.
pub debounce-runs :
    (before after : List Event) (id : Str) (func delay max now : ℕ) (rounds : List (List ℕ))
    → All (Spares id) after
    → let s = run after (debounce id func delay max (run before (new now))) in
      IsDue s
      → All (Covers s.next_task) rounds
      → 6 * s.next_task ≤ length rounds
      → Contains func (run_rounds rounds s).executed
debounce-runs before after id func delay max now rounds spares due covers enough =
    let s = run before (new now) in
    let m = run-Matches before now in
    let m' = debounce-Matches id func delay max s m in
    let h = debounce-IsHeld id func delay max s m (run-IsHeld before now) in
    let called = debounce id func delay max s in
    kept_runs rounds id func (run after called) (run_from-Matches after called m')
      (run_from-IsHeld after called m' h) due covers enough
      (debounce-lasts before after id func delay max now spares)
