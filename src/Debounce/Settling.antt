-- ===== src/Debounce/Settling.antt =====
-- A debouncer that nobody calls comes to rest, whatever the order in which its tasks take their turns.
use hocuspocu_rs.Base.{
  ℕ, zero, suc, ◌+◌, ◌-◌, ◌*◌, ◌≤◌, ◌<◌, ◌≡◌, ◌≢◌, ◌⊎◌, ◌∙◌, inl, inr, refl, sym, ap, subst, true,
  false, ◌∷◌, get, leb, ◌==◌, ==_iff, if◌then◌else◌, arith, Bool-cases, Option-cases, false≢true,
}
use hocuspocu_rs.Debounce.{
  Debouncer, Task, sleeping, entering, waiting, clearing, executing, leaving, ended, turn, put_task,
}
use hocuspocu_rs.Debounce.Holding.{Holds, IsHeld}
pub mod Progress
pub mod Rounds

-- How many turns a task has before it at most.
abbrev pub stage : Task → ℕ
stage (sleeping _ _ _) = 6
stage (entering _ _ _) = 5
stage (waiting _ _ _ _) = 4
stage (clearing _ _ _) = 3
stage (executing _ _ _) = 2
stage (leaving _ _) = 1
stage ended = 0

pub total : ℕ → Debouncer → ℕ
total zero s = 0
total (suc n) s = stage (s.tasks n) + total n s

pub work : Debouncer → ℕ
unfolding total
work s = total s.next_task s

-- The time of every timer has come.
abbrev IsAwake : ℕ → Task → Type 0
IsAwake now (sleeping _ wake _) = wake ≤ now
IsAwake now _ = Unit

abbrev pub IsDue : Debouncer → Type 0
IsDue s = (k : ℕ) → IsAwake s.now (s.tasks k)

-- A turn that brings its task on.
record Goes (k : ℕ) (s : Debouncer) (tasks' : ℕ → Task) (next' now' : ℕ) : Type 0 where
  task : Task
  tasks : tasks' ≡ (put_task k task s).tasks
  less : stage task < stage (s.tasks k)
  awake : IsAwake s.now task
  next : next' ≡ s.next_task
  now : now' ≡ s.now

abbrev Turned : ℕ → Debouncer → Debouncer → Type 0
Turned k s s' = Goes k s s'.tasks s'.next_task s'.now

goes :
    (k : ℕ) (task task' : Task) (s : Debouncer)
    → s.tasks k ≡ task
    → stage task' < stage task
    → IsAwake s.now task'
    → Turned k s (put_task k task' s)
goes k task task' s at less awake = record {
  task = task';
  tasks = refl;
  less = rw at less;
  awake = awake;
  next = refl;
  now = refl;
}

-- Why a task may not go on.
abbrev IsStuck : Task → Debouncer → Type 0
IsStuck (sleeping _ wake _) s = leb wake s.now ≡ false
IsStuck (waiting _ _ lock _) s = s.held lock ≡ true
IsStuck ended s = Unit
IsStuck _ s = ⊥

turn_cases :
    (k : ℕ) (task : Task) (s : Debouncer)
    → s.tasks k ≡ task
    → ((turn k task s ≡ s) × IsStuck task s) ⊎ Turned k s (turn k task s)
turn_cases k (sleeping id wake func) s at = elim (Bool-cases (leb wake s.now)) [
  | inl up ↦ rw up (inr (goes k _ (entering false id func) s at (omega arith) tt))
  | inr early ↦ rw early (inl (refl, refl))
]
turn_cases k (entering flag id func) s at = elim (Option-cases (get id s.running_executions)) [
  | inl e ↦ rw e (inr (goes k _ (waiting flag id s.next_lock func) s at (omega arith) tt))
  | inr (lock, e) ↦ rw e (inr (goes k _ (waiting flag id lock func) s at (omega arith) tt))
]
turn_cases k (waiting flag id lock func) s at = elim (Bool-cases (s.held lock)) [
  | inl taken ↦ rw taken (inl (refl, refl))
  | inr free ↦ elim (Bool-cases flag) [
    | inl runs ↦ rw (free, runs) (inr (goes k _ (clearing id lock func) s at (omega arith) tt))
    | inr timed ↦ rw (free, timed) (inr (goes k _ (executing id lock func) s at (omega arith) tt))
  ]
]
turn_cases k (clearing id lock func) s at =
    inr (goes k _ (executing id lock func) s at (omega arith) tt)
turn_cases k (executing id lock func) s at = inr (goes k _ (leaving id lock) s at (omega arith) tt)
turn_cases k (leaving id lock) s at = inr (goes k _ ended s at (omega arith) tt)
turn_cases k ended s at = inl (refl, tt)

module _ (k : ℕ) (s s' : Debouncer) (t : Turned k s s') where
  other_task : (j : ℕ) → (k == j) ≡ false → s'.tasks j ≡ s.tasks j
  other_task j other = ap (λ f. f j) t.tasks ∙ rw other refl

  own_task : s'.tasks k ≡ t.task
  own_task = ap (λ f. f k) t.tasks ∙ rw ((==_iff k k).1 refl) refl

  -- No other task's turns change.
  total_le : (n : ℕ) → (total n s' ≤ total n s) × (k < n → total n s' < total n s)
  unfolding total
  total_le zero = (omega arith, λ lt. absurd (omega arith))
  total_le (suc n) = elim (Bool-cases (k == n)) [
    | inl same ↦
        let key : k ≡ n = (==_iff k n).0 same in
        let own : stage (s'.tasks n) < stage (s.tasks n) = rw (← key) (rw own_task (t.less)) in
        (omega (arith, (total_le n).0), λ lt. omega (arith, (total_le n).0))
    | inr other ↦
        let rest = total_le n in
        let apart : k ≢ n = λ e. false≢true (sym other ∙ (==_iff k n).1 e) in
        let this : stage (s'.tasks n) ≡ stage (s.tasks n) = ap stage (other_task n other) in
        (omega (arith, rest.0), λ lt. omega (arith, rest.1 (omega (arith, apart))))
  ]

  Turned-IsDue : IsDue s → IsDue s'
  Turned-IsDue due j = elim (Bool-cases (k == j)) [
    | inl same ↦
        let key : k ≡ j = (==_iff k j).0 same in
        rw (t.now) (subst (λ i. IsAwake s.now (s'.tasks i)) key (rw own_task (t.awake)))
    | inr other ↦ rw (t.now) (rw (other_task j other) (due j))
  ]

-- The task whose turn is stuck waits for a lock.
module _ (s : Debouncer) (h : IsHeld s) (due : IsDue s) where
  holder_turns :
      (k l : ℕ) (task : Task) → s.tasks k ≡ task → Holds task l → Turned k s (turn k task s)
  holder_turns k l (clearing id lock func) at holds =
      goes k _ (executing id lock func) s at (omega arith) tt
  holder_turns k l (executing id lock func) at holds =
      goes k _ (leaving id lock) s at (omega arith) tt
  holder_turns k l (leaving id lock) at holds = goes k _ ended s at (omega arith) tt
  holder_turns k l (sleeping id wake func) at holds = elim holds [ ]
  holder_turns k l (entering flag id func) at holds = elim holds [ ]
  holder_turns k l (waiting flag id lock func) at holds = elim holds [ ]
  holder_turns k l ended at holds = elim holds [ ]
