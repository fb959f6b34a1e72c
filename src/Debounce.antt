-- ===== src/Debounce.antt =====
-- hocuspocu-rs/src/util/debounce.rs: the timers and executions of a debouncer, as tasks that
-- interleave at their awaits. A function is named by a number, and so are tasks and locks. A call that
-- runs a function is a task of its own from there on, for whose end its caller waits.
use hocuspocu_rs.Base.{
  ℕ, suc, ◌+◌, ◌-◌, Bool, true, false, List, [], ◌∷◌, ◌++◌, Option, none, some, Str, HashMap, get,
  insert, remove, contains_key, leb, ◌==◌, if◌then◌else◌,
}
pub mod Burst
pub mod Older
pub mod Matching
pub mod Lasting
pub mod Gone
pub mod Holding
pub mod Settling
pub mod Races

pub record TimerEntry : Type 0 where
  pub start : ℕ
  pub handle : ℕ
  pub func : ℕ

-- Where a task stands:
-- * `sleeping id wake func`: the task of a timer, which takes its entry out when it wakes;
-- * `entering`: about to fetch the lock of the id; the flag tells `run` from a timer's task;
-- * `waiting`: for that lock; `clearing`: `run` takes the timer out;
-- * `executing`: the function runs; `leaving`: the id is taken out of `running_executions`, and the
--   guard dropped; `ended`: also a task that was aborted, and one that was never spawned.
pub data Task : Type 0 where
  sleeping : Str → ℕ → ℕ → Task
  entering : Bool → Str → ℕ → Task
  waiting : Bool → Str → ℕ → ℕ → Task
  clearing executing : Str → ℕ → ℕ → Task
  leaving : Str → ℕ → Task
  ended : Task

-- `held` tells which locks are held, `executed` the functions that ran to their end, in order.
pub record Debouncer : Type 0 where
  pub timers : HashMap TimerEntry
  pub running_executions : HashMap ℕ
  pub held : ℕ → Bool
  pub next_lock : ℕ
  pub tasks : ℕ → Task
  pub next_task : ℕ
  pub now : ℕ
  pub executed : List ℕ

unfoldable pub new : ℕ → Debouncer
new now = record {
  timers = [];
  running_executions = [];
  held = λ l. false;
  next_lock = 0;
  tasks = λ k. ended;
  next_task = 0;
  now = now;
  executed = [];
}

abbrev pub put_task : ℕ → Task → Debouncer → Debouncer
put_task k task s = record s { tasks = λ j. if k == j then task else s.tasks j }

abbrev pub spawn : Task → Debouncer → Debouncer
spawn task s = record (put_task s.next_task task s) { next_task = suc s.next_task }

-- `timers.remove(id)`, with the abort of its task: the task of an entry is always asleep.
abbrev pub abort_old : Option TimerEntry → Debouncer → Debouncer
abort_old none s = s
abort_old (some old) s = put_task old.handle ended s

abbrev pub take_timer : Str → Debouncer → Debouncer
take_timer id s = abort_old (get id s.timers) (record s { timers = remove id s.timers })

abbrev pub start_of : ℕ → Option TimerEntry → ℕ
start_of now none = now
start_of now (some old) = old.start

-- `tokio::spawn` of the timer's task, and its entry.
abbrev pub arm : Str → ℕ → ℕ → ℕ → Debouncer → Debouncer
arm id func start debounce_ms s =
    let entry : TimerEntry = record { start = start; handle = s.next_task; func = func } in
    record (spawn (sleeping id (s.now + debounce_ms) func) s) { timers = insert id entry s.timers }

unfoldable pub debounce : Str → ℕ → ℕ → ℕ → Debouncer → Debouncer
debounce id func debounce_ms max_debounce_ms s =
    let start = start_of s.now (get id s.timers) in
    let s' = take_timer id s in
    if debounce_ms == 0
    then spawn (entering true id func) s'
    else if leb max_debounce_ms (s.now - start)
    then spawn (entering true id func) s'
    else arm id func start debounce_ms s'

abbrev pub run_old : Str → Option TimerEntry → Debouncer → Debouncer
run_old id none s = s
run_old id (some old) s = spawn (entering true id old.func) s

unfoldable pub execute_now : Str → Debouncer → Debouncer
execute_now id s = run_old id (get id s.timers) (take_timer id s)

unfoldable pub is_debounced : Str → Debouncer → Bool
is_debounced id s = contains_key id s.timers

unfoldable pub is_currently_executing : Str → Debouncer → Bool
is_currently_executing id s = contains_key id s.running_executions

-- `entry(id).or_insert_with(...)`.
abbrev pub fetch_lock : ℕ → Bool → Str → ℕ → Option ℕ → Debouncer → Debouncer
fetch_lock k run id func (some lock) s = put_task k (waiting run id lock func) s
fetch_lock k run id func none s = record (put_task k (waiting run id s.next_lock func) s) {
  running_executions = insert id s.next_lock s.running_executions;
  next_lock = suc s.next_lock;
}

abbrev pub set_held : ℕ → Bool → Debouncer → Debouncer
set_held lock b s = record s { held = λ l. if lock == l then b else s.held l }

-- A turn of a task, up to its next await.
abbrev pub turn : ℕ → Task → Debouncer → Debouncer
turn k (sleeping id wake func) s =
    if leb wake s.now
    then put_task k (entering false id func) (record s { timers = remove id s.timers })
    else s
turn k (entering run id func) s = fetch_lock k run id func (get id s.running_executions) s
turn k (waiting run id lock func) s =
    if s.held lock
    then s
    else put_task k (if run then clearing id lock func else executing id lock func)
        (set_held lock true s)
turn k (clearing id lock func) s =
    put_task k (executing id lock func) (record s { timers = remove id s.timers })
turn k (executing id lock func) s =
    put_task k (leaving id lock) (record s { executed = s.executed ++ (func ∷ []) })
turn k (leaving id lock) s =
    put_task k ended
      (set_held lock false (record s { running_executions = remove id s.running_executions }))
turn k ended s = s

-- What may happen next: a call of `debounce` or `execute_now`, a turn of a task, time that passes.
pub data Event : Type 0 where
  call_debounce : Str → ℕ → ℕ → ℕ → Event
  call_execute_now : Str → Event
  move : ℕ → Event
  tick : ℕ → Event

unfoldable pub step : Event → Debouncer → Debouncer
step (call_debounce id func debounce_ms max_debounce_ms) s =
    debounce id func debounce_ms max_debounce_ms s
step (call_execute_now id) s = execute_now id s
step (move k) s = turn k (s.tasks k) s
step (tick n) s = record s { now = s.now + n }

unfoldable pub run : List Event → Debouncer → Debouncer
run [] s = s
run (event ∷ events) s = run events (step event s)
