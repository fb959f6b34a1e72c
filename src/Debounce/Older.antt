-- ===== src/Debounce/Older.antt =====
-- The timers of a debouncer are older than any task still to be spawned, so a function that was started
-- is not aborted by what comes for other ids.
use hocuspocu_rs.Base.{
  ℕ, ◌≤◌, ◌<◌, ◌-◌, ◌≡◌, ◌⊎◌, inl, inr, refl, sym, ◌∙◌, true, List, [], ◌∷◌, none, some, Str,
  HashMap, get, remove, get-remove, get-insert, bytes_eq, bytes_eq_iff, bytes_eq_refl, ==_iff,
  arith, Bool-cases, Option-cases, leb, ◌==◌,
}
use hocuspocu_rs.Debounce.{
  Debouncer, Task, TimerEntry, entering, sleeping, waiting, clearing, executing, leaving, ended,
  execute_now, debounce, turn, start_of, take_timer, arm, spawn, Event, call_debounce,
  call_execute_now, move, tick, step, run, new,
}

-- The timers have tasks that were spawned before the task `n`.
pub record AreOlder (n : ℕ) (s : Debouncer) : Type 0 where
  pub handles : (id : Str) (entry : TimerEntry) → get id s.timers ≡ some entry → entry.handle < n
  pub spawned : n ≤ s.next_task

-- A task spawned since is about to run the function, and the id has no timer.
pub record IsStarted (n : ℕ) (id : Str) (func : ℕ) (s : Debouncer) : Type 0 where
  pub runner : ℕ
  pub since : n ≤ runner
  pub known : runner < s.next_task
  pub runs : s.tasks runner ≡ entering true id func
  pub disarmed : get id s.timers ≡ none

module _ (n : ℕ) (j : Str) (s : Debouncer) (older : AreOlder n s) where
  pub execute_now-AreOlder : AreOlder n (execute_now j s)
  unfolding execute_now
  execute_now-AreOlder = elim (Option-cases (get j s.timers)) [
    | inl e ↦ rw e (record {
      handles = λ id entry found. older.handles id entry (kept id entry found);
      spawned = older.spawned;
    })
    | inr (old, e) ↦ rw e (record {
      handles = λ id entry found. older.handles id entry (kept id entry found);
      spawned = omega (arith, older.spawned);
    })
  ]
    where
      kept :
          (id : Str) (entry : TimerEntry)
          → get id (remove j s.timers) ≡ some entry
          → get id s.timers ≡ some entry
      kept id entry found = ground (arith, get-remove j id s.timers)

  pub execute_now-IsStarted :
      (id : Str) (func : ℕ) → IsStarted n id func s → IsStarted n id func (execute_now j s)
  unfolding execute_now
  execute_now-IsStarted id func p = elim (Option-cases (get j s.timers)) [
    | inl e ↦ rw e (record {
      runner = p.runner;
      since = p.since;
      known = p.known;
      runs = p.runs;
      disarmed = still;
    })
    | inr (old, e) ↦
        let before : old.handle < n = older.handles j old e in
        rw e (record {
          runner = p.runner;
          since = p.since;
          known = omega (arith, p.known);
          runs = ground (
            arith,
            ==_iff s.next_task p.runner,
            ==_iff old.handle p.runner,
            p.runs,
            p.known,
            p.since,
          );
          disarmed = still;
        })
  ]
    where
      still : get id (remove j s.timers) ≡ none
      still = ground (arith, get-remove j id s.timers, p.disarmed)

  pub execute_now-starts :
      (id : Str) (entry : TimerEntry)
      → j ≡ id
      → get id s.timers ≡ some entry
      → IsStarted n id entry.func (execute_now j s)
  unfolding execute_now
  execute_now-starts id entry key armed =
      rw (key, armed)
        (record {
          runner = s.next_task;
          since = older.spawned;
          known = omega arith;
          runs = ground (arith, ==_iff s.next_task s.next_task);
          disarmed = get-remove id id s.timers ∙ rw bytes_eq_refl;
        })

  -- What a run of another timer, or of this one, does to a timer.
  pub execute_now-get :
      (id : Str) (entry : TimerEntry)
      → get id s.timers ≡ some entry
      → (get id (execute_now j s).timers ≡ some entry) ⊎ IsStarted n id entry.func (execute_now j s)
  unfolding execute_now
  execute_now-get id entry armed = elim (Bool-cases (bytes_eq j id)) [
    | inl same ↦ inr (execute_now-starts id entry ((bytes_eq_iff j id).0 same) armed)
    | inr other ↦ inl (elim (Option-cases (get j s.timers)) [
      | inl e ↦ rw e (get-remove j id s.timers ∙ rw (other, armed))
      | inr (old, e) ↦ rw e (get-remove j id s.timers ∙ rw (other, armed))
    ])
  ]

older_up : (n m : ℕ) (s : Debouncer) → m ≤ s.next_task → n ≤ m → AreOlder n s → AreOlder m s
older_up n m s spawned up older = record {
  handles = λ id entry found. omega (arith, older.handles id entry found);
  spawned = spawned;
}

kept_by_remove :
    (j id : Str) (m : HashMap TimerEntry) (entry : TimerEntry)
    → get id (remove j m) ≡ some entry
    → get id m ≡ some entry
kept_by_remove j id m entry found = ground (arith, get-remove j id m)

turn-AreOlder :
    (k : ℕ) (task : Task) (s : Debouncer)
    → AreOlder s.next_task s
    → AreOlder (turn k task s).next_task (turn k task s)
turn-AreOlder k (sleeping id wake func) s older = elim (Bool-cases (leb wake s.now)) [
  | inl up ↦ rw up (record {
    handles = λ j entry found. older.handles j entry (kept_by_remove id j s.timers entry found);
    spawned = omega arith;
  })
  | inr not_up ↦ rw not_up older
]
turn-AreOlder k (entering flag id func) s older =
    elim (Option-cases (get id s.running_executions)) [
      | inl e ↦ rw e (record { handles = older.handles; spawned = older.spawned })
      | inr (lock, e) ↦ rw e (record { handles = older.handles; spawned = older.spawned })
    ]
turn-AreOlder k (waiting flag id lock func) s older = elim (Bool-cases (s.held lock)) [
  | inl busy ↦ rw busy older
  | inr free ↦ rw free (record { handles = older.handles; spawned = older.spawned })
]
turn-AreOlder k (clearing id lock func) s older = record {
  handles = λ j entry found. older.handles j entry (kept_by_remove id j s.timers entry found);
  spawned = omega arith;
}
turn-AreOlder k (executing id lock func) s older = record {
  handles = older.handles;
  spawned = older.spawned;
}
turn-AreOlder k (leaving id lock) s older = record {
  handles = older.handles;
  spawned = older.spawned;
}
turn-AreOlder k ended s older = older

execute_now-next_task : (id : Str) (s : Debouncer) → s.next_task ≤ (execute_now id s).next_task
unfolding execute_now
execute_now-next_task id s = elim (Option-cases (get id s.timers)) [
  | inl e ↦ rw e (omega arith)
  | inr (old, e) ↦ rw e (omega arith)
]

pub take_timer-AreOlder :
    (id : Str) (n : ℕ) (s : Debouncer)
    → AreOlder n s
    → AreOlder n (take_timer id s) × ((take_timer id s).next_task ≡ s.next_task)
take_timer-AreOlder id n s older = elim (Option-cases (get id s.timers)) [
  | inl e ↦ rw e (record { handles = kept; spawned = older.spawned }, refl)
  | inr (old, e) ↦ rw e (record { handles = kept; spawned = older.spawned }, refl)
]
  where
    kept :
        (j : Str) (entry : TimerEntry) → get j (remove id s.timers) ≡ some entry → entry.handle < n
    kept j entry found = older.handles j entry (kept_by_remove id j s.timers entry found)

arm-AreOlder :
    (id : Str) (func start delay : ℕ) (s : Debouncer)
    → AreOlder s.next_task s
    → let s' = arm id func start delay s in AreOlder s'.next_task s'
arm-AreOlder id func start delay s older = record {
  handles = λ j entry found. elim (Bool-cases (bytes_eq id j)) [
    | inl same ↦
        let armed : TimerEntry = record { start = start; handle = s.next_task; func = func } in
        let it : some armed ≡ some entry = sym (get-insert id j armed s.timers ∙ rw same) ∙ found in
        let its : s.next_task ≡ entry.handle = ground (arith, it) in omega (arith, its)
    | inr other ↦
        let before : get j s.timers ≡ some entry =
          sym (get-insert id j _ s.timers ∙ rw other) ∙ found in
        omega (arith, older.handles j entry before)
  ];
  spawned = omega arith;
}

spawn-AreOlder :
    (task : Task) (s : Debouncer)
    → AreOlder s.next_task s
    → AreOlder (spawn task s).next_task (spawn task s)
spawn-AreOlder task s older = record {
  handles = λ id entry found. omega (arith, older.handles id entry found);
  spawned = omega arith;
}

debounce-AreOlder :
    (id : Str) (func delay max : ℕ) (s : Debouncer)
    → AreOlder s.next_task s
    → let s' = debounce id func delay max s in AreOlder s'.next_task s'
unfolding debounce
debounce-AreOlder id func delay max s older =
    let (below, same) = take_timer-AreOlder id s.next_task s older in
    let fits : AreOlder (take_timer id s).next_task (take_timer id s) = rw same below in
    elim (Bool-cases (delay == 0)) [
      | inl z ↦ rw z (spawn-AreOlder (entering true id func) (take_timer id s) fits)
      | inr z ↦ elim (Bool-cases (leb max (s.now - start_of s.now (get id s.timers)))) [
        | inl l ↦ rw (z, l) (spawn-AreOlder (entering true id func) (take_timer id s) fits)
        | inr l ↦
            rw (z, l)
              (arm-AreOlder id func (start_of s.now (get id s.timers)) delay (take_timer id s) fits)
      ]
    ]

step-AreOlder :
    (event : Event) (s : Debouncer)
    → AreOlder s.next_task s
    → AreOlder (step event s).next_task (step event s)
unfolding step
step-AreOlder (call_debounce id func delay max) s older =
    debounce-AreOlder id func delay max s older
step-AreOlder (call_execute_now id) s older =
    older_up s.next_task (execute_now id s).next_task (execute_now id s) (omega arith)
      (execute_now-next_task id s) (execute_now-AreOlder s.next_task id s older)
step-AreOlder (move k) s older = turn-AreOlder k (s.tasks k) s older
step-AreOlder (tick n) s older = record { handles = older.handles; spawned = older.spawned }

run_from :
    (events : List Event) (s : Debouncer)
    → AreOlder s.next_task s
    → AreOlder (run events s).next_task (run events s)
unfolding run
run_from [] s older = older
run_from (event ∷ events) s older = run_from events (step event s) (step-AreOlder event s older)

-- Whatever happens to a new debouncer, each timer's task is one that it has spawned.
pub run-AreOlder :
    (events : List Event) (now : ℕ) → let s = run events (new now) in AreOlder s.next_task s
unfolding new get
run-AreOlder events now =
    run_from events (new now) (record { handles = λ id entry found. cc; spawned = omega arith })
