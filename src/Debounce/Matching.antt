-- ===== src/Debounce/Matching.antt =====
-- Each timer of a debouncer has a task of its own, asleep with the function of the timer.
use hocuspocu_rs.Base.{
  ℕ, ◌+◌, ◌-◌, ◌≤◌, ◌<◌, ◌≡◌, ◌∙◌, inl, inr, refl, sym, ap, true, false, List, [], ◌∷◌, none, some,
  Str, HashMap, get, remove, get-remove, get-insert, bytes_eq, bytes_eq_iff, leb, ◌==◌, ==_iff,
  arith, Bool-cases, Option-cases, false≢true,
}
use hocuspocu_rs.Debounce.{
  Debouncer, Task, TimerEntry, sleeping, entering, waiting, clearing, executing, leaving, ended,
  debounce, execute_now, turn, start_of, take_timer, arm, spawn, put_task, Event, call_debounce,
  call_execute_now, move, tick, step, run, new,
}

-- The task of a timer.
pub record HasTask (s : Debouncer) (id : Str) (entry : TimerEntry) : Type 0 where
  pub wake : ℕ
  pub asleep : s.tasks entry.handle ≡ sleeping id wake entry.func
  pub spawned : entry.handle < s.next_task

pub record Matches (s : Debouncer) : Type 0 where
  pub tasks : (id : Str) (entry : TimerEntry) → get id s.timers ≡ some entry → HasTask s id entry

abbrev IsSleeping : Task → Type 0
IsSleeping (sleeping _ _ _) = Unit
IsSleeping _ = ⊥

-- A step that leaves the tasks of the timers that remain as they are.
kept-Matches :
    (s s' : Debouncer)
    → s.next_task ≤ s'.next_task
    → ((id : Str) (entry : TimerEntry)
        → get id s'.timers ≡ some entry
        → (get id s.timers ≡ some entry) × (s'.tasks entry.handle ≡ s.tasks entry.handle))
    → Matches s
    → Matches s'
kept-Matches s s' more kept m = record {
  tasks = λ id entry found.
      let (old, same) = kept id entry found in
      let h = m.tasks id entry old in
      record { wake = h.wake; asleep = same ∙ h.asleep; spawned = omega (arith, h.spawned) };
}

same_timers :
    (s s' : Debouncer)
    → s'.timers ≡ s.timers
    → s'.tasks ≡ s.tasks
    → s'.next_task ≡ s.next_task
    → Matches s
    → Matches s'
same_timers s s' timers tasks next m =
    kept-Matches s s' (omega arith)
      (λ id entry found. (rw timers at found, ap (λ f. f entry.handle) tasks)) m

-- A task that is no timer's may change.
other-Matches :
    (k : ℕ) (task : Task) (s : Debouncer)
    → (IsSleeping (s.tasks k) → ⊥)
    → Matches s
    → Matches (put_task k task s)
other-Matches k task s awake m =
    kept-Matches s (put_task k task s) (omega arith)
      (λ id entry found. (
        found,
        elim (Bool-cases (k == entry.handle)) [
          | inl same ↦
              let key : k ≡ entry.handle = (==_iff k entry.handle).0 same in
              let h = m.tasks id entry found in absurd (awake (rw (key, h.asleep) tt))
          | inr other ↦ rw other refl
        ],
      ))
      m

remaining :
    (id j : Str) (m : HashMap TimerEntry) (entry : TimerEntry)
    → get j (remove id m) ≡ some entry
    → (bytes_eq id j ≡ false) × (get j m ≡ some entry)
remaining id j m entry found = elim (Bool-cases (bytes_eq id j)) [
  | inl same ↦
      let gone : get j (remove id m) ≡ none = get-remove id j m ∙ rw same in
      let none_found : none ≡ some entry = sym gone ∙ found in absurd (false≢true (cc))
  | inr other ↦ (other, sym (get-remove id j m ∙ rw other) ∙ found)
]

-- The sleeper of another id is another task.
apart :
    (s : Debouncer) (id j : Str) (k wake func : ℕ) (entry : TimerEntry)
    → bytes_eq id j ≡ false
    → s.tasks k ≡ sleeping id wake func
    → HasTask s j entry
    → (k == entry.handle) ≡ false
apart s id j k wake func entry other at g = elim (Bool-cases (k == entry.handle)) [
  | inl same ↦
      let key : k ≡ entry.handle = (==_iff k entry.handle).0 same in
      let tasks : sleeping id wake func ≡ sleeping j g.wake entry.func =
        sym at ∙ ap s.tasks key ∙ g.asleep in
      let ids : id ≡ j = cc in absurd (false≢true (sym other ∙ (bytes_eq_iff id j).1 ids))
  | inr different ↦ different
]

-- A timer goes, and its task is put elsewhere.
remove-Matches :
    (id : Str) (k wake func : ℕ) (task : Task) (s : Debouncer)
    → s.tasks k ≡ sleeping id wake func
    → Matches s
    → Matches (put_task k task (record s { timers = remove id s.timers }))
remove-Matches id k wake func task s at m =
    kept-Matches s (put_task k task (record s { timers = remove id s.timers })) (omega arith)
      (λ j entry found.
        let (other, was) = remaining id j s.timers entry found in
        (was, rw (apart s id j k wake func entry other at (m.tasks j entry was)) refl))
      m

pub take_timer-Matches : (id : Str) (s : Debouncer) → Matches s → Matches (take_timer id s)
take_timer-Matches id s m = elim (Option-cases (get id s.timers)) [
  | inl e ↦ rw e (
      kept-Matches s (record s { timers = remove id s.timers }) (omega arith)
        (λ j entry found. ((remaining id j s.timers entry found).1, refl)) m)
  | inr (old, e) ↦
      let h = m.tasks id old e in
      rw e (remove-Matches id old.handle h.wake old.func ended s h.asleep m)
]

spawn-Matches : (task : Task) (s : Debouncer) → Matches s → Matches (spawn task s)
spawn-Matches task s m =
    kept-Matches s (spawn task s) (omega arith)
      (λ id entry found.
        (found, ground (arith, ==_iff s.next_task entry.handle, (m.tasks id entry found).spawned)))
      m

arm-Matches :
    (id : Str) (func start delay : ℕ) (s : Debouncer)
    → Matches s
    → Matches (arm id func start delay s)
arm-Matches id func start delay s m = record {
  tasks = λ j entry found. elim (Bool-cases (bytes_eq id j)) [
    | inl same ↦
        let key : id ≡ j = (bytes_eq_iff id j).0 same in
        let its : some armed ≡ some entry =
          sym (get-insert id j armed s.timers ∙ rw same) ∙ found in
        let value : armed ≡ entry = cc in
        rw (← value, ← key)
          (record {
            wake = s.now + delay;
            asleep = ground (arith, ==_iff s.next_task s.next_task);
            spawned = omega arith;
          })
    | inr other ↦
        let was : get j s.timers ≡ some entry =
          sym (get-insert id j armed s.timers ∙ rw other) ∙ found in
        let h = (spawn-Matches (sleeping id (s.now + delay) func) s m).tasks j entry was in
        record { wake = h.wake; asleep = h.asleep; spawned = h.spawned }
  ];
}
  where
    armed : TimerEntry
    armed = record { start = start; handle = s.next_task; func = func }

pub debounce-Matches :
    (id : Str) (func delay max : ℕ) (s : Debouncer)
    → Matches s
    → Matches (debounce id func delay max s)
unfolding debounce
debounce-Matches id func delay max s m =
    let taken = take_timer-Matches id s m in
    let at_once = spawn-Matches (entering true id func) (take_timer id s) taken in
    let start = start_of s.now (get id s.timers) in
    elim (Bool-cases (delay == 0)) [
      | inl z ↦ rw z at_once
      | inr z ↦ elim (Bool-cases (leb max (s.now - start))) [
        | inl l ↦ rw (z, l) at_once
        | inr l ↦ rw (z, l) (arm-Matches id func start delay (take_timer id s) taken)
      ]
    ]

pub execute_now-Matches : (id : Str) (s : Debouncer) → Matches s → Matches (execute_now id s)
unfolding execute_now
execute_now-Matches id s m = elim (Option-cases (get id s.timers)) [
  | inl e ↦ rw e (rw e at (take_timer-Matches id s m))
  | inr (old, e) ↦
      rw e (spawn-Matches (entering true id old.func) _ (rw e at (take_timer-Matches id s m)))
]

pub turn-Matches :
    (k : ℕ) (task : Task) (s : Debouncer) → s.tasks k ≡ task → Matches s → Matches (turn k task s)
turn-Matches k (sleeping id wake func) s at m = elim (Bool-cases (leb wake s.now)) [
  | inl up ↦ rw up (remove-Matches id k wake func (entering false id func) s at m)
  | inr early ↦ rw early m
]
turn-Matches k (entering flag id func) s at m =
    let moved = λ (task : Task). other-Matches k task s (λ h. rw at at h) m in
    elim (Option-cases (get id s.running_executions)) [
      | inl e ↦ rw e (
          same_timers (put_task k (waiting flag id s.next_lock func) s) _ refl refl refl
            (moved (waiting flag id s.next_lock func)))
      | inr (lock, e) ↦ rw e (moved (waiting flag id lock func))
    ]
turn-Matches k (waiting flag id lock func) s at m = elim (Bool-cases (s.held lock)) [
  | inl busy ↦ rw busy m
  | inr free ↦
      rw free
        (same_timers (put_task k _ s) _ refl refl refl (other-Matches k _ s (λ h. rw at at h) m))
]
turn-Matches k (clearing id lock func) s at m =
    other-Matches k (executing id lock func) (record s { timers = remove id s.timers })
      (λ h. rw at at h)
      (kept-Matches s (record s { timers = remove id s.timers }) (omega arith)
        (λ j entry found. ((remaining id j s.timers entry found).1, refl)) m)
turn-Matches k (executing id lock func) s at m =
    same_timers (put_task k (leaving id lock) s) _ refl refl refl
      (other-Matches k (leaving id lock) s (λ h. rw at at h) m)
turn-Matches k (leaving id lock) s at m =
    same_timers (put_task k ended s) _ refl refl refl (other-Matches k ended s (λ h. rw at at h) m)
turn-Matches k ended s at m = m

pub step-Matches : (event : Event) (s : Debouncer) → Matches s → Matches (step event s)
unfolding step
step-Matches (call_debounce id func delay max) s m = debounce-Matches id func delay max s m
step-Matches (call_execute_now id) s m = execute_now-Matches id s m
step-Matches (move k) s m = turn-Matches k (s.tasks k) s refl m
step-Matches (tick n) s m =
    kept-Matches s (record s { now = s.now + n }) (omega arith) (λ id entry found. (found, refl)) m

pub run_from-Matches : (events : List Event) (s : Debouncer) → Matches s → Matches (run events s)
unfolding run
run_from-Matches [] s m = m
run_from-Matches (event ∷ events) s m =
    run_from-Matches events (step event s) (step-Matches event s m)

-- Whatever happens to a new debouncer, the task of every timer is asleep under the timer's id and with
-- its function.
pub run-Matches : (events : List Event) (now : ℕ) → Matches (run events (new now))
unfolding new get
run-Matches events now = run_from-Matches events (new now) (record { tasks = λ id entry found. cc })
