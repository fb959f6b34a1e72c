-- ===== src/Debounce/Holding.antt =====
-- Every lock that is held has a task that holds it, and only spawned tasks do anything.
use hocuspocu_rs.Base.{
  ℕ, ◌+◌, ◌-◌, ◌≤◌, ◌<◌, ◌≡◌, ◌≢◌, ◌∙◌, inl, inr, refl, sym, ap, subst, true, false, List, [], ◌∷◌,
  Str, get, remove, leb, ◌==◌, ==_iff, arith, Bool-cases, Option-cases, false≢true,
}
use hocuspocu_rs.Debounce.{
  Debouncer, Task, sleeping, entering, waiting, clearing, executing, leaving, ended, debounce,
  execute_now, turn, start_of, take_timer, spawn, put_task, set_held, Event, call_debounce,
  call_execute_now, move, tick, step, run, new,
}
use hocuspocu_rs.Debounce.Matching.{Matches, step-Matches, run-Matches}

-- The task has the lock.
abbrev pub Holds : Task → ℕ → Type 0
Holds (clearing _ lock _) l = lock ≡ l
Holds (executing _ lock _) l = lock ≡ l
Holds (leaving _ lock) l = lock ≡ l
Holds _ l = ⊥

pub record IsHeld (s : Debouncer) : Type 0 where
  pub holders : (l : ℕ) → s.held l ≡ true → (k : ℕ) × Holds (s.tasks k) l
  pub idle : (k : ℕ) → s.next_task ≤ k → s.tasks k ≡ ended

-- A step that takes no lock, gives none back, and interrupts no holder.
kept-IsHeld :
    (s s' : Debouncer)
    → s'.held ≡ s.held
    → ((k l : ℕ) → Holds (s.tasks k) l → Holds (s'.tasks k) l)
    → ((k : ℕ) → s'.next_task ≤ k → s'.tasks k ≡ ended)
    → IsHeld s
    → IsHeld s'
kept-IsHeld s s' same kept idle h = record {
  holders = λ l held.
      let (k, holds) = h.holders l (ap (λ f. f l) (sym same) ∙ held) in (k, kept k l holds);
  idle = idle;
}

-- A task may change that keeps the locks it holds.
put_task-Holds :
    (k : ℕ) (task : Task) (s : Debouncer)
    → ((l : ℕ) → Holds (s.tasks k) l → Holds task l)
    → (j l : ℕ) → Holds (s.tasks j) l
    → Holds ((put_task k task s).tasks j) l
put_task-Holds k task s keeps j l h = elim (Bool-cases (k == j)) [
  | inl same ↦
      let key : k ≡ j = (==_iff k j).0 same in
      rw same (keeps l (subst (λ i. Holds (s.tasks i) l) (sym key) h))
  | inr other ↦ rw other h
]

put_task-idle :
    (k : ℕ) (task : Task) (s : Debouncer)
    → k < s.next_task
    → IsHeld s
    → (j : ℕ) → s.next_task ≤ j
    → (put_task k task s).tasks j ≡ ended
put_task-idle k task s lt h j le = ground (arith, ==_iff k j, h.idle j)

-- A task that has not ended was spawned.
spawned_of : (k : ℕ) (s : Debouncer) → IsHeld s → s.tasks k ≢ ended → k < s.next_task
spawned_of k s h busy = elim (Bool-cases (leb s.next_task k)) [
  | inl beyond ↦ absurd (busy (h.idle k (ground arith)))
  | inr within ↦ ground arith
]

abort-IsHeld : (id : Str) (s : Debouncer) → Matches s → IsHeld s → IsHeld (take_timer id s)
abort-IsHeld id s m h = elim (Option-cases (get id s.timers)) [
  | inl e ↦ rw e (record { holders = h.holders; idle = h.idle })
  | inr (old, e) ↦
      let its = m.tasks id old e in
      rw e (
        kept-IsHeld s (put_task old.handle ended (record s { timers = remove id s.timers })) refl
          (put_task-Holds old.handle ended s
            (λ l holds. absurd (subst (λ t. Holds t l) (its.asleep) holds)))
          (put_task-idle old.handle ended s its.spawned h) h)
]

spawn-IsHeld : (task : Task) (s : Debouncer) → IsHeld s → IsHeld (spawn task s)
spawn-IsHeld task s h =
    kept-IsHeld s (spawn task s) refl
      (put_task-Holds s.next_task task s
        (λ l holds. absurd (subst (λ t. Holds t l) (h.idle s.next_task (omega arith)) holds)))
      (λ k le. ground (arith, ==_iff s.next_task k, h.idle k)) h

pub debounce-IsHeld :
    (id : Str) (func delay max : ℕ) (s : Debouncer)
    → Matches s
    → IsHeld s
    → IsHeld (debounce id func delay max s)
unfolding debounce
debounce-IsHeld id func delay max s m h =
    let t = take_timer id s in
    let start = start_of s.now (get id s.timers) in
    let taken = abort-IsHeld id s m h in
    let now = spawn-IsHeld (entering true id func) t taken in
    let later = spawn-IsHeld (sleeping id (t.now + delay) func) t taken in
    elim (Bool-cases (delay == 0)) [
      | inl z ↦ rw z now
      | inr z ↦ elim (Bool-cases (leb max (s.now - start))) [
        | inl l ↦ rw (z, l) now
        | inr l ↦ rw (z, l) (record { holders = later.holders; idle = later.idle })
      ]
    ]

execute_now-IsHeld : (id : Str) (s : Debouncer) → Matches s → IsHeld s → IsHeld (execute_now id s)
unfolding execute_now
execute_now-IsHeld id s m h = elim (Option-cases (get id s.timers)) [
  | inl e ↦ rw e (rw e at (abort-IsHeld id s m h))
  | inr (old, e) ↦
      rw e (spawn-IsHeld (entering true id old.func) _ (rw e at (abort-IsHeld id s m h)))
]

-- A turn in which the task keeps the locks it holds, and takes none.
module _ (k : ℕ) (task task' : Task) (s : Debouncer) (at : s.tasks k ≡ task) (busy : task ≢ ended)
    (h : IsHeld s) where
  within : k < s.next_task
  within = spawned_of k s h (λ e. busy (sym at ∙ e))

  idle_still : (j : ℕ) → s.next_task ≤ j → (put_task k task' s).tasks j ≡ ended
  idle_still = put_task-idle k task' s within h

  goes_on : ((l : ℕ) → Holds task l → Holds task' l) → IsHeld (put_task k task' s)
  goes_on keeps =
      kept-IsHeld s (put_task k task' s) refl
        (put_task-Holds k task' s (λ l holds. keeps l (subst (λ t. Holds t l) at holds))) idle_still
        h

  takes :
      (lock : ℕ)
      → Holds task' lock
      → ((l : ℕ) → Holds task l → ⊥)
      → IsHeld (put_task k task' (set_held lock true s))
  takes lock own free = record {
    holders = λ l held. elim (Bool-cases (lock == l)) [
      | inl same ↦
          let key : lock ≡ l = (==_iff lock l).0 same in
          (k, rw ((==_iff k k).1 refl) (subst (Holds task') key own))
      | inr other ↦
          let (j, holds) = h.holders l (rw other at held) in
          (
            j,
            put_task-Holds k task' s (λ i mine. absurd (free i (subst (λ t. Holds t i) at mine))) j
                l holds,
          )
    ];
    idle = idle_still;
  }

  gives_back :
      (lock : ℕ)
      → ((l : ℕ) → Holds task l → l ≡ lock)
      → IsHeld (put_task k task' (set_held lock false s))
  gives_back lock only = record {
    holders = λ l held. elim (Bool-cases (lock == l)) [
      | inl same ↦ absurd (false≢true (rw same at held))
      | inr other ↦
          let (j, holds) = h.holders l (rw other at held) in
          (
            j,
            elim (Bool-cases (k == j)) [
              | inl mine ↦
                  let key : k ≡ j = (==_iff k j).0 mine in
                  let l-is : l ≡ lock = only l (
                    subst (λ t. Holds t l) at (subst (λ i. Holds (s.tasks i) l) (sym key) holds)) in
                  absurd (false≢true (sym other ∙ (==_iff lock l).1 (sym l-is)))
              | inr theirs ↦ rw theirs holds
            ],
          )
    ];
    idle = idle_still;
  }

same_locks :
    (s s' : Debouncer)
    → s'.held ≡ s.held
    → s'.tasks ≡ s.tasks
    → s'.next_task ≡ s.next_task
    → IsHeld s
    → IsHeld s'
same_locks s s' held tasks next h =
    kept-IsHeld s s' held (λ k l holds. subst (λ f. Holds (f k) l) (sym tasks) holds)
      (λ k le. ap (λ f. f k) tasks ∙ h.idle k (omega arith)) h

pub turn-IsHeld :
    (k : ℕ) (task : Task) (s : Debouncer) → s.tasks k ≡ task → IsHeld s → IsHeld (turn k task s)
turn-IsHeld k (sleeping id wake func) s at h = elim (Bool-cases (leb wake s.now)) [
  | inl up ↦ rw up (
      same_locks (put_task k (entering false id func) s) _ refl refl refl (
        goes_on k (sleeping id wake func) (entering false id func) s at (λ e. cc) h
          (λ l holds. holds)))
  | inr early ↦ rw early h
]
turn-IsHeld k (entering flag id func) s at h =
    let go = λ (lock : ℕ).
      goes_on k (entering flag id func) (waiting flag id lock func) s at (λ e. cc) h
        (λ l holds. holds) in
    elim (Option-cases (get id s.running_executions)) [
      | inl e ↦ rw e (
          same_locks (put_task k (waiting flag id s.next_lock func) s) _ refl refl refl
            (go s.next_lock))
      | inr (lock, e) ↦ rw e (go lock)
    ]
turn-IsHeld k (waiting flag id lock func) s at h = elim (Bool-cases (s.held lock)) [
  | inl taken ↦ rw taken h
  | inr free ↦ elim (Bool-cases flag) [
    | inl runs ↦
        rw (free, runs)
          (takes k (waiting flag id lock func) (clearing id lock func) s at (λ e. cc) h lock refl
            (λ l holds. holds))
    | inr timed ↦
        rw (free, timed)
          (takes k (waiting flag id lock func) (executing id lock func) s at (λ e. cc) h lock refl
            (λ l holds. holds))
  ]
]
turn-IsHeld k (clearing id lock func) s at h =
    same_locks (put_task k (executing id lock func) s) _ refl refl refl (
      goes_on k (clearing id lock func) (executing id lock func) s at (λ e. cc) h
        (λ l holds. holds))
turn-IsHeld k (executing id lock func) s at h =
    same_locks (put_task k (leaving id lock) s) _ refl refl refl
      (goes_on k (executing id lock func) (leaving id lock) s at (λ e. cc) h (λ l holds. holds))
turn-IsHeld k (leaving id lock) s at h =
    same_locks (put_task k ended (set_held lock false s)) _ refl refl refl
      (gives_back k (leaving id lock) ended s at (λ e. cc) h lock (λ l holds. sym holds))
turn-IsHeld k ended s at h = h

pub step-IsHeld : (event : Event) (s : Debouncer) → Matches s → IsHeld s → IsHeld (step event s)
unfolding step
step-IsHeld (call_debounce id func delay max) s m h = debounce-IsHeld id func delay max s m h
step-IsHeld (call_execute_now id) s m h = execute_now-IsHeld id s m h
step-IsHeld (move k) s m h = turn-IsHeld k (s.tasks k) s refl h
step-IsHeld (tick n) s m h = same_locks s (record s { now = s.now + n }) refl refl refl h

pub run_from-IsHeld :
    (events : List Event) (s : Debouncer) → Matches s → IsHeld s → IsHeld (run events s)
unfolding run
run_from-IsHeld [] s m h = h
run_from-IsHeld (event ∷ events) s m h =
    run_from-IsHeld events (step event s) (step-Matches event s m) (step-IsHeld event s m h)

-- Whatever happens to a new debouncer, every lock that is held has a task that holds it, which runs a
-- function or is about to.
pub run-IsHeld : (events : List Event) (now : ℕ) → IsHeld (run events (new now))
unfolding new get run
run-IsHeld events now =
    run_from-IsHeld events (new now) (run-Matches [] now)
      (record { holders = λ l held. absurd (false≢true held); idle = λ k le. refl })
