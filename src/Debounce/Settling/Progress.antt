-- ===== src/Debounce/Settling/Progress.antt =====
-- Turns get work done: a task has a turn before it as long as there is work left.
use hocuspocu_rs.Base.{
  ℕ, zero, suc, ◌≤◌, ◌<◌, ◌≡◌, ◌∙◌, inl, inr, refl, sym, ap, subst, List, [], ◌∷◌, map, leb, ltb,
  arith, Bool-cases, false≢true,
}
use hocuspocu_rs.Debounce.{
  Debouncer, Task, sleeping, entering, waiting, clearing, executing, leaving, ended, turn, move,
  step, run,
}
use hocuspocu_rs.Debounce.Holding.{IsHeld, turn-IsHeld}
use hocuspocu_rs.Debounce.Lasting.{Contains}
use hocuspocu_rs.Debounce.Settling.{
  stage, total, work, IsAwake, IsStuck, IsDue, Turned, turn_cases, total_le, Turned-IsDue,
  holder_turns, own_task,
}

pub Turns : ℕ → Debouncer → Type 0
Turns k s = Turned k s (turn k (s.tasks k) s)

-- Where a task that has turns before it is stuck, another can go on.
other_goes_on :
    (k : ℕ) (task : Task) (s : Debouncer)
    → s.tasks k ≡ task
    → IsHeld s
    → IsDue s
    → 0 < stage task
    → IsStuck task s
    → (j : ℕ) × Turns j s
unfolding Turns
other_goes_on k (sleeping id wake func) s at h due pos stuck =
    let time : wake ≤ s.now = subst (IsAwake s.now) at (due k) in
    absurd (false≢true (sym stuck ∙ ground arith))
other_goes_on k (waiting flag id lock func) s at h due pos stuck =
    let (j, holds) = h.holders lock stuck in (j, holder_turns s h due j lock (s.tasks j) refl holds)
other_goes_on k ended s at h due pos stuck = absurd (omega arith)
other_goes_on k (entering _ _ _) s at h due pos stuck = elim stuck [ ]
other_goes_on k (clearing _ _ _) s at h due pos stuck = elim stuck [ ]
other_goes_on k (executing _ _ _) s at h due pos stuck = elim stuck [ ]
other_goes_on k (leaving _ _) s at h due pos stuck = elim stuck [ ]

pub some_goes_on :
    (k : ℕ) (s : Debouncer) → IsHeld s → IsDue s → 0 < stage (s.tasks k) → (j : ℕ) × Turns j s
unfolding Turns
some_goes_on k s h due pos = elim (turn_cases k (s.tasks k) s refl) [
  | inl stuck ↦ other_goes_on k (s.tasks k) s refl h due pos (stuck.1)
  | inr turned ↦ (k, turned)
]

-- Where there is work left, a task has turns before it.
pub some_work : (n : ℕ) (s : Debouncer) → 0 < total n s → (k : ℕ) × (0 < stage (s.tasks k))
unfolding total
some_work zero s pos = absurd (omega arith)
some_work (suc n) s pos = elim (Bool-cases (ltb 0 (stage (s.tasks n)))) [
  | inl busy ↦ (n, ground arith)
  | inr done ↦ some_work n s (ground arith)
]

pub Turns-spawned : (k : ℕ) (s : Debouncer) → IsHeld s → Turns k s → k < s.next_task
unfolding Turns
Turns-spawned k s h t = elim (Bool-cases (leb s.next_task k)) [
  | inl beyond ↦
      let none_left : stage (s.tasks k) ≡ 0 = ap stage (h.idle k (ground arith)) in
      absurd (omega (arith, t.less))
  | inr within ↦ ground arith
]

-- What a turn keeps, whether its task goes on or is stuck.
pub record Keeps (s s' : Debouncer) : Type 0 where
  pub held : IsHeld s'
  pub due : IsDue s'
  pub next : s'.next_task ≡ s.next_task
  pub less : work s' ≤ work s

Turned-Keeps : (k : ℕ) (s s' : Debouncer) → Turned k s s' → IsHeld s' → IsDue s → Keeps s s'
unfolding work
Turned-Keeps k s s' t held due = record {
  held = held;
  due = Turned-IsDue k s s' t due;
  next = t.next;
  less =
      subst (λ n. total n s' ≤ total s.next_task s) (sym t.next) (total_le k s s' t s.next_task).0;
}

move-Keeps : (k : ℕ) (s : Debouncer) → IsHeld s → IsDue s → Keeps s (step (move k) s)
unfolding step
move-Keeps k s h due = elim (turn_cases k (s.tasks k) s refl) [
  | inl (same, stuck) ↦ rw same (record { held = h; due = due; next = refl; less = omega arith })
  | inr turned ↦ Turned-Keeps k s _ turned (turn-IsHeld k (s.tasks k) s refl h) due
]

pub turns-Keeps : (ks : List ℕ) (s : Debouncer) → IsHeld s → IsDue s → Keeps s (run (map move ks) s)
unfolding run
turns-Keeps [] s h due = record { held = h; due = due; next = refl; less = omega arith }
turns-Keeps (k ∷ ks) s h due =
    let one = move-Keeps k s h due in
    let rest = turns-Keeps ks (step (move k) s) one.held one.due in
    record {
      held = rest.held;
      due = rest.due;
      next = rest.next ∙ one.next;
      less = omega (arith, one.less, rest.less);
    }

Turned-less : (k : ℕ) (s s' : Debouncer) → Turned k s s' → k < s.next_task → work s' < work s
unfolding work
Turned-less k s s' t spawned =
    subst (λ n. total n s' < total s.next_task s) (sym t.next)
      ((total_le k s s' t s.next_task).1 spawned)

not_stuck : (k : ℕ) (s : Debouncer) → turn k (s.tasks k) s ≡ s → Turns k s → ⊥
unfolding Turns
not_stuck k s same t =
    let own : s.tasks k ≡ t.task =
      ap (λ r. r.tasks k) (sym same) ∙ own_task k s (turn k (s.tasks k) s) t in
    let stages : stage (s.tasks k) ≡ stage t.task = ap stage own in omega (arith, t.less)

-- Turns that include one of a task that can go on get work done.
pub round_gains :
    (ks : List ℕ) (k : ℕ) (s : Debouncer)
    → IsHeld s
    → IsDue s
    → Contains k ks
    → Turns k s
    → work (run (map move ks) s) < work s
unfolding run step
round_gains [] k s h due c t = elim c [ ]
round_gains (j ∷ ks) k s h due c t = elim (turn_cases j (s.tasks j) s refl) [
  | inl (same, stuck) ↦ elim c [
    | inl here ↦ absurd (not_stuck k s (subst (λ i. turn i (s.tasks i) s ≡ s) here same) t)
    | inr later ↦
        subst (λ r. work (run (map move ks) r) < work s) (sym same)
          (round_gains ks k s h due later t)
  ]
  | inr turned ↦
      let spawned = Turns-spawned j s h (unfold Turns in turned) in
      let one = move-Keeps j s h due in
      let rest = turns-Keeps ks (step (move j) s) one.held one.due in
      omega (arith, Turned-less j s (turn j (s.tasks j) s) turned spawned, rest.less)
]
