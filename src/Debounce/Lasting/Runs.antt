-- ===== src/Debounce/Lasting/Runs.antt =====
-- What runs of the debouncer keep: the turns of its tasks, and its events in any order.
use hocuspocu_rs.Base.{
  ℕ, ◌≡◌, ◌∙◌, inl, inr, refl, sym, ap, subst, false, List, [], ◌∷◌, ◌++◌, Str, get, leb, ◌==◌,
  ==_iff, Bool-cases, Option-cases, All,
}
use hocuspocu_rs.Debounce.{
  Debouncer, Task, sleeping, entering, waiting, clearing, executing, leaving, ended, debounce, turn,
  put_task, Event, call_debounce, call_execute_now, move, tick, step, run, new,
}
use hocuspocu_rs.Debounce.Matching.{Matches, step-Matches, debounce-Matches, run-Matches}
use hocuspocu_rs.Debounce.Lasting.{
  Contains, Carries, IsKept, Spares, debounce-IsKept, debounce_other-IsKept, execute_now-IsKept,
}

Contains-append :
    (func : ℕ) (done more : List ℕ) → Contains func done → Contains func (done ++ more)
Contains-append func [] more h = elim h [ ]
Contains-append func (g ∷ done) more (inl same) = inl same
Contains-append func (g ∷ done) more (inr in_rest) = inr (Contains-append func done more in_rest)

Contains-last : (func : ℕ) (done : List ℕ) → Contains func (done ++ (func ∷ []))
Contains-last func [] = inl refl
Contains-last func (g ∷ done) = inr (Contains-last func done)

-- A task that goes from one stage to another.
module _ (k : ℕ) (task task' : Task) (id : Str) (func : ℕ) (s : Debouncer)
    (at : s.tasks k ≡ task) where
  moved :
      (Carries task id func → Carries task' id func)
      → IsKept id func s
      → IsKept id func (put_task k task' s)
  moved carry (inl done) = inl done
  moved carry (inr (j, lt, h)) = inr (
    j,
    lt,
    elim (Bool-cases (k == j)) [
      | inl same ↦
          let key : k ≡ j = (==_iff k j).0 same in
          let own : Carries task id func =
            subst (λ t. Carries t id func) (sym (ap s.tasks key) ∙ at) h in
          rw same (carry own)
      | inr other ↦ rw other h
    ],
  )

turn-IsKept :
    (k : ℕ) (task : Task) (id : Str) (func : ℕ) (s : Debouncer)
    → s.tasks k ≡ task
    → IsKept id func s
    → IsKept id func (turn k task s)
turn-IsKept k (sleeping i wake g) id func s at kept = elim (Bool-cases (leb wake s.now)) [
  | inl up ↦ rw up (moved k (sleeping i wake g) (entering false i g) id func s at (λ h. h) kept)
  | inr early ↦ rw early kept
]
turn-IsKept k (entering flag i g) id func s at kept =
    elim (Option-cases (get i s.running_executions)) [
      | inl e ↦
          rw e
            (moved k (entering flag i g) (waiting flag i s.next_lock g) id func s at (λ h. h) kept)
      | inr (lock, e) ↦
          rw e (moved k (entering flag i g) (waiting flag i lock g) id func s at (λ h. h) kept)
    ]
turn-IsKept k (waiting flag i lock g) id func s at kept = elim (Bool-cases (s.held lock)) [
  | inl busy ↦ rw busy kept
  | inr free ↦ elim (Bool-cases flag) [
    | inl runs ↦
        rw (free, runs)
          (moved k (waiting flag i lock g) (clearing i lock g) id func s at (λ h. h) kept)
    | inr timed ↦
        rw (free, timed)
          (moved k (waiting flag i lock g) (executing i lock g) id func s at (λ h. h) kept)
  ]
]
turn-IsKept k (clearing i lock g) id func s at kept =
    moved k (clearing i lock g) (executing i lock g) id func s at (λ h. h) kept
turn-IsKept k (executing i lock g) id func s at (inl done) =
    inl (Contains-append func s.executed (g ∷ []) done)
turn-IsKept k (executing i lock g) id func s at (inr (j, lt, h)) = elim (Bool-cases (k == j)) [
  | inl same ↦
      let key : k ≡ j = (==_iff k j).0 same in
      let own : Carries (executing i lock g) id func =
        subst (λ t. Carries t id func) (sym (ap s.tasks key) ∙ at) h in
      inl (rw (own.1) (Contains-last func s.executed))
  | inr other ↦ inr (j, lt, rw other h)
]
turn-IsKept k (leaving i lock) id func s at kept =
    moved k (leaving i lock) ended id func s at (λ h. elim h [ ]) kept
turn-IsKept k ended id func s at kept = kept

pub step-IsKept :
    (event : Event) (id : Str) (func : ℕ) (s : Debouncer)
    → Matches s
    → Spares id event
    → IsKept id func s
    → IsKept id func (step event s)
unfolding step
step-IsKept (call_debounce j g delay max) id func s m other kept =
    debounce_other-IsKept j g delay max id func s m other kept
step-IsKept (call_execute_now j) id func s m tt kept = execute_now-IsKept j id func s m kept
step-IsKept (move k) id func s m spares kept = turn-IsKept k (s.tasks k) id func s refl kept
step-IsKept (tick n) id func s m spares (inl done) = inl done
step-IsKept (tick n) id func s m spares (inr alive) = inr alive

kept_on :
    (events : List Event) (id : Str) (func : ℕ) (s : Debouncer)
    → Matches s
    → All (Spares id) events
    → IsKept id func s
    → IsKept id func (run events s)
unfolding run
kept_on [] id func s m spares kept = kept
kept_on (event ∷ events) id func s m spares kept =
    kept_on events id func (step event s) (step-Matches event s m) (spares.1)
      (step-IsKept event id func s m (spares.0) kept)

-- The function of a call of `debounce`, however it interleaves with whatever comes before and after,
-- has run or a task is to run it, as long as no later call of `debounce` for its id has replaced it.
pub debounce-lasts :
    (before after : List Event) (id : Str) (func delay max now : ℕ)
    → All (Spares id) after
    → IsKept id func (run after (debounce id func delay max (run before (new now))))
debounce-lasts before after id func delay max now spares =
    let s = run before (new now) in
    kept_on after id func (debounce id func delay max s)
      (debounce-Matches id func delay max s (run-Matches before now)) spares
      (debounce-IsKept id func delay max s)
