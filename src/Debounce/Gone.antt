-- ===== src/Debounce/Gone.antt =====
-- A function that no task is to run any more does not run, unless it is handed over again.
use hocuspocu_rs.Base.{
  ℕ, ◌+◌, ◌-◌, ◌≡◌, ◌≢◌, inl, inr, refl, sym, subst, true, false, List, [], ◌∷◌, ◌++◌, Str, get,
  leb, ◌==◌, Bool-cases, Option-cases,
}
use hocuspocu_rs.Debounce.{
  Debouncer, Task, sleeping, entering, waiting, clearing, executing, leaving, ended, debounce,
  execute_now, turn, start_of, take_timer, spawn, put_task, move, step,
}
use hocuspocu_rs.Debounce.Lasting.{Carries, Contains}
use hocuspocu_rs.Debounce.Matching.{Matches}

-- The task does not run the function, for whatever id.
abbrev pub Spurns : ℕ → Task → Type 0
Spurns func task = (id : Str) → Carries task id func → ⊥

pub record IsGone (func : ℕ) (s : Debouncer) : Type 0 where
  pub ran : Contains func s.executed → ⊥
  pub tasks : (k : ℕ) → Spurns func (s.tasks k)

module _ (func : ℕ) where
  put_task-Spurns :
      (k : ℕ) (task : Task) (s : Debouncer)
      → Spurns func task
      → IsGone func s
      → (j : ℕ) → Spurns func ((put_task k task s).tasks j)
  put_task-Spurns k task s none_here gone j = elim (Bool-cases (k == j)) [
    | inl same ↦ rw same none_here
    | inr other ↦ rw other (gone.tasks j)
  ]

  -- A task that is put in its place, and nothing else that matters here.
  put-IsGone :
      (k : ℕ) (task : Task) (s s' : Debouncer)
      → s'.tasks ≡ (put_task k task s).tasks
      → s'.executed ≡ s.executed
      → Spurns func task
      → IsGone func s
      → IsGone func s'
  put-IsGone k task s s' tasks executed none_here gone = record {
    ran = subst (λ done. Contains func done → ⊥) (sym executed) gone.ran;
    tasks =
        subst (λ tasks. (j : ℕ) → Spurns func (tasks j)) (sym tasks)
          (put_task-Spurns k task s none_here gone);
  }

  ended-Spurns : Spurns func ended
  ended-Spurns id c = c

  take_timer-IsGone : (id : Str) (s : Debouncer) → IsGone func s → IsGone func (take_timer id s)
  take_timer-IsGone id s gone = elim (Option-cases (get id s.timers)) [
    | inl e ↦ rw e (record { ran = gone.ran; tasks = gone.tasks })
    | inr (old, e) ↦ rw e (put-IsGone old.handle ended s _ refl refl ended-Spurns gone)
  ]

  pub debounce-IsGone :
      (id : Str) (g delay max : ℕ) (s : Debouncer)
      → g ≢ func
      → IsGone func s
      → IsGone func (debounce id g delay max s)
  unfolding debounce
  debounce-IsGone id g delay max s other gone =
      let t = take_timer id s in
      let start = start_of s.now (get id s.timers) in
      let taken = take_timer-IsGone id s gone in
      let now : IsGone func (spawn (entering true id g) t) =
        put-IsGone t.next_task (entering true id g) t _ refl refl (λ i c. other c.1) taken in
      elim (Bool-cases (delay == 0)) [
        | inl z ↦ rw z now
        | inr z ↦ elim (Bool-cases (leb max (s.now - start))) [
          | inl l ↦ rw (z, l) now
          | inr l ↦
              rw (z, l)
                (put-IsGone t.next_task (sleeping id (t.now + delay) g) t _ refl refl
                  (λ i c. other c.1) taken)
        ]
      ]

  pub execute_now-IsGone :
      (id : Str) (s : Debouncer) → Matches s → IsGone func s → IsGone func (execute_now id s)
  unfolding execute_now
  execute_now-IsGone id s m gone = elim (Option-cases (get id s.timers)) [
    | inl e ↦ rw e (rw e at (take_timer-IsGone id s gone))
    | inr (old, e) ↦
        let its = m.tasks id old e in
        let other : old.func ≢ func = λ same.
          gone.tasks old.handle id
            (subst (λ task. Carries task id func) (sym its.asleep) (refl, same)) in
        let taken = rw e at (take_timer-IsGone id s gone) in
        rw e (
          put-IsGone s.next_task (entering true id old.func) _ _ refl refl (λ i c. other c.1) taken)
  ]

  Contains-last_of :
      (g : ℕ) (done : List ℕ) → g ≢ func → Contains func (done ++ (g ∷ [])) → Contains func done
  Contains-last_of g [] other (inl same) = absurd (other same)
  Contains-last_of g [] other (inr more) = more
  Contains-last_of g (h ∷ done) other (inl same) = inl same
  Contains-last_of g (h ∷ done) other (inr more) = inr (Contains-last_of g done other more)

  turn-IsGone :
      (k : ℕ) (task : Task) (s : Debouncer)
      → Spurns func task
      → IsGone func s
      → IsGone func (turn k task s)
  turn-IsGone k (sleeping i wake g) s other gone = elim (Bool-cases (leb wake s.now)) [
    | inl up ↦ rw up (put-IsGone k (entering false i g) s _ refl refl other gone)
    | inr early ↦ rw early gone
  ]
  turn-IsGone k (entering flag i g) s other gone =
      elim (Option-cases (get i s.running_executions)) [
        | inl e ↦ rw e (put-IsGone k (waiting flag i s.next_lock g) s _ refl refl other gone)
        | inr (lock, e) ↦ rw e (put-IsGone k (waiting flag i lock g) s _ refl refl other gone)
      ]
  turn-IsGone k (waiting flag i lock g) s other gone = elim (Bool-cases (s.held lock)) [
    | inl busy ↦ rw busy gone
    | inr free ↦ elim (Bool-cases flag) [
      | inl runs ↦ rw (free, runs) (put-IsGone k (clearing i lock g) s _ refl refl other gone)
      | inr timed ↦ rw (free, timed) (put-IsGone k (executing i lock g) s _ refl refl other gone)
    ]
  ]
  turn-IsGone k (clearing i lock g) s other gone =
      put-IsGone k (executing i lock g) s _ refl refl other gone
  turn-IsGone k (executing i lock g) s other gone = record {
    ran = λ c. gone.ran (Contains-last_of g s.executed (λ same. other i (refl, same)) c);
    tasks = put_task-Spurns k (leaving i lock) s (λ id c. c) gone;
  }
  turn-IsGone k (leaving i lock) s other gone = put-IsGone k ended s _ refl refl ended-Spurns gone
  turn-IsGone k ended s other gone = gone

  pub move-IsGone : (k : ℕ) (s : Debouncer) → IsGone func s → IsGone func (step (move k) s)
  unfolding step
  move-IsGone k s gone = turn-IsGone k (s.tasks k) s (gone.tasks k) gone
