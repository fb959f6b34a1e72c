-- ===== src/Debounce/Lasting.antt =====
-- What it is for the debouncer not to lose a function that was handed to it, and that its calls do not.
use hocuspocu_rs.Base.{
  ℕ, ◌+◌, ◌-◌, ◌<◌, ◌≡◌, ◌≢◌, ◌⊎◌, ◌∙◌, inl, inr, refl, sym, ap, subst, true, List, [], ◌∷◌, ◌++◌,
  some, Str, get, remove, leb, ◌==◌, ==_iff, arith, Bool-cases, Option-cases,
}
use hocuspocu_rs.Debounce.{
  Debouncer, Task, TimerEntry, sleeping, entering, waiting, clearing, executing, leaving, ended,
  debounce, execute_now, start_of, take_timer, arm, spawn, put_task, Event, call_debounce,
}
use hocuspocu_rs.Debounce.Matching.{Matches}
pub mod Runs

-- The task is to run the function for the id.
abbrev pub Carries : Task → Str → ℕ → Type 0
Carries (sleeping i _ g) id func = (i ≡ id) × (g ≡ func)
Carries (entering _ i g) id func = (i ≡ id) × (g ≡ func)
Carries (waiting _ i _ g) id func = (i ≡ id) × (g ≡ func)
Carries (clearing i _ g) id func = (i ≡ id) × (g ≡ func)
Carries (executing i _ g) id func = (i ≡ id) × (g ≡ func)
Carries (leaving _ _) id func = ⊥
Carries ended id func = ⊥

abbrev pub Contains : ℕ → List ℕ → Type 0
Contains func [] = ⊥
Contains func (g ∷ done) = (g ≡ func) ⊎ Contains func done

-- The function has run, or a task is to run it.
abbrev pub IsKept : Str → ℕ → Debouncer → Type 0
IsKept id func s =
    Contains func s.executed ⊎ ((k : ℕ) × (k < s.next_task) × Carries (s.tasks k) id func)

-- The event is no call of `debounce` for the id.
abbrev pub Spares : Str → Event → Type 0
Spares id (call_debounce other _ _ _) = other ≢ id
Spares id _ = Unit

-- A spawned task stands where no task was.
old_task :
    (s : Debouncer) (task : Task) (k : ℕ) → k < s.next_task → (spawn task s).tasks k ≡ s.tasks k
old_task s task k lt = ground (arith, ==_iff s.next_task k)

-- The aborted task of another id carries nothing for this one.
take_timer-Carries :
    (j id : Str) (func k : ℕ) (s : Debouncer)
    → Matches s
    → j ≢ id
    → Carries (s.tasks k) id func
    → Carries ((take_timer j s).tasks k) id func
take_timer-Carries j id func k s m other h = elim (Option-cases (get j s.timers)) [
  | inl e ↦ rw e h
  | inr (old, e) ↦ elim (Bool-cases (old.handle == k)) [
    | inl same ↦
        let key : old.handle ≡ k = (==_iff old.handle k).0 same in
        let its = m.tasks j old e in
        let carried : Carries (sleeping j its.wake old.func) id func =
          subst (λ task. Carries task id func) (sym (ap s.tasks key) ∙ its.asleep) h in
        absurd (other carried.0)
    | inr different ↦ rw e (rw different h)
  ]
]

take_timer-fields :
    (j : Str) (s : Debouncer)
    → ((take_timer j s).next_task ≡ s.next_task) × ((take_timer j s).executed ≡ s.executed)
take_timer-fields j s = elim (Option-cases (get j s.timers)) [
  | inl e ↦ rw e (refl, refl)
  | inr (old, e) ↦ rw e (refl, refl)
]

spawn-IsKept :
    (task : Task) (id : Str) (func : ℕ) (s : Debouncer)
    → IsKept id func s
    → IsKept id func (spawn task s)
spawn-IsKept task id func s (inl done) = inl done
spawn-IsKept task id func s (inr (k, lt, h)) =
    inr (k, omega arith, subst (λ t. Carries t id func) (sym (old_task s task k lt)) h)

spawned_IsKept :
    (task : Task) (id : Str) (func : ℕ) (s : Debouncer)
    → Carries task id func
    → IsKept id func (spawn task s)
spawned_IsKept task id func s h =
    inr (s.next_task, omega arith, rw ((==_iff s.next_task s.next_task).1 refl) h)

take_timer-IsKept :
    (j id : Str) (func : ℕ) (s : Debouncer)
    → Matches s
    → j ≢ id
    → IsKept id func s
    → IsKept id func (take_timer j s)
take_timer-IsKept j id func s m other (inl done) = inl (rw ((take_timer-fields j s).1) done)
take_timer-IsKept j id func s m other (inr (k, lt, h)) =
    inr (k, omega (arith, (take_timer-fields j s).0), take_timer-Carries j id func k s m other h)

arm-IsKept :
    (j : Str) (g start delay : ℕ) (id : Str) (func : ℕ) (s : Debouncer)
    → IsKept id func (spawn (sleeping j (s.now + delay) g) s)
    → IsKept id func (arm j g start delay s)
arm-IsKept j g start delay id func s (inl done) = inl done
arm-IsKept j g start delay id func s (inr alive) = inr alive

-- The function of a call is kept by it.
pub debounce-IsKept :
    (id : Str) (func delay max : ℕ) (s : Debouncer) → IsKept id func (debounce id func delay max s)
unfolding debounce
debounce-IsKept id func delay max s =
    let t = take_timer id s in
    let start = start_of s.now (get id s.timers) in
    let now = spawned_IsKept (entering true id func) id func t (refl, refl) in
    elim (Bool-cases (delay == 0)) [
      | inl z ↦ rw z now
      | inr z ↦ elim (Bool-cases (leb max (s.now - start))) [
        | inl l ↦ rw (z, l) now
        | inr l ↦
            rw (z, l)
              (arm-IsKept id func start delay id func t
                (spawned_IsKept (sleeping id (t.now + delay) func) id func t (refl, refl)))
      ]
    ]

pub debounce_other-IsKept :
    (j : Str) (g delay max : ℕ) (id : Str) (func : ℕ) (s : Debouncer)
    → Matches s
    → j ≢ id
    → IsKept id func s
    → IsKept id func (debounce j g delay max s)
unfolding debounce
debounce_other-IsKept j g delay max id func s m other kept =
    let t = take_timer j s in
    let start = start_of s.now (get j s.timers) in
    let taken = take_timer-IsKept j id func s m other kept in
    let now = spawn-IsKept (entering true j g) id func t taken in
    elim (Bool-cases (delay == 0)) [
      | inl z ↦ rw z now
      | inr z ↦ elim (Bool-cases (leb max (s.now - start))) [
        | inl l ↦ rw (z, l) now
        | inr l ↦
            rw (z, l)
              (arm-IsKept j g start delay id func t
                (spawn-IsKept (sleeping j (t.now + delay) g) id func t taken))
      ]
    ]

pub execute_now-IsKept :
    (j id : Str) (func : ℕ) (s : Debouncer)
    → Matches s
    → IsKept id func s
    → IsKept id func (execute_now j s)
unfolding execute_now
execute_now-IsKept j id func s m kept = elim (Option-cases (get j s.timers)) [
  | inl e ↦ rw e (unchanged kept)
  | inr (old, e) ↦ rw e (started old e kept)
]
  where
    unchanged : IsKept id func s → IsKept id func (record s { timers = remove j s.timers })
    unchanged (inl done) = inl done
    unchanged (inr alive) = inr alive

    aborted : TimerEntry → Debouncer
    aborted old = put_task old.handle ended (record s { timers = remove j s.timers })

    started :
        (old : TimerEntry)
        → get j s.timers ≡ some old
        → IsKept id func s
        → IsKept id func (spawn (entering true j old.func) (aborted old))
    started old e (inl done) = inl done
    started old e (inr (k, lt, h)) = elim (Bool-cases (old.handle == k)) [
      | inl same ↦
          let key : old.handle ≡ k = (==_iff old.handle k).0 same in
          let its = m.tasks j old e in
          let carried : Carries (sleeping j its.wake old.func) id func =
            subst (λ task. Carries task id func) (sym (ap s.tasks key) ∙ its.asleep) h in
          spawned_IsKept (entering true j old.func) id func (aborted old) carried
      | inr different ↦
          spawn-IsKept (entering true j old.func) id func (aborted old)
            (inr (k, lt, rw different h))
    ]
