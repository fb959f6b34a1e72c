-- ===== src/Tests/Lifecycle.antt =====
-- Timers, hooks, stores, unloading and the end of a server on concrete inputs.
use hocuspocu_rs.Base.{
  Option, ℕ, Str, ◌≡◌, ◌⊎◌, ◌≤◌, refl, inl, inr, Bool, true, false, List, [], ◌∷◌, ◌++◌, none, some,
  bytes_eq, get, insert, remove, contains_key, arith,
}
use hocuspocu_rs.Debounce
use hocuspocu_rs.Debounce.{
  Debouncer, TimerEntry, executing, sleeping, call_debounce, call_execute_now, tick, step, debounce,
  execute_now, is_debounced, is_currently_executing,
}
use hocuspocu_rs.Debounce.Burst.{RunsAlone, calls_of, execute_now-burst, debounce-burst_late}
use hocuspocu_rs.Debounce.Older.{AreOlder, IsStarted, run-AreOlder}
use hocuspocu_rs.Debounce.Races.{turns, forgetting, executions_overlap, timer_forgotten}
use hocuspocu_rs.DirectConnection.{
  DirectConnection, transact, disconnect, released, last_payload, closed_error, disconnect_cases,
}
use hocuspocu_rs.Document
use hocuspocu_rs.Document.{Document}
use hocuspocu_rs.Hocuspocus.Hooks.{Extension, configure, hooks, on_connect}
use hocuspocu_rs.Hocuspocus.Hooks.Ordering.{IsDescending, of_priority, configure-stable}
use hocuspocu_rs.Hocuspocus.Hooks.Running.{Runs, value_of, hooks-Runs}
use hocuspocu_rs.Hocuspocus.Persisting as Persisting
use hocuspocu_rs.Hocuspocus.Persisting.{changed, passed, turn_of}
use hocuspocu_rs.Hocuspocus.Storing.{
  Hocuspocus, begin_unloading, should_unload_document, unload_document, handle_document_update,
  on_change_call, try_unload, store_id, get_documents_count, get_connections_count, contains_text,
}
use hocuspocu_rs.Hocuspocus.Storing.Counting.{
  is_connected, total_direct, get_connections_count-counts,
}
use hocuspocu_rs.Hocuspocus.Storing.Disconnecting.{after_close, after_close-stores}
use hocuspocu_rs.Hocuspocus.Storing.Early.{try_unload_early}
use hocuspocu_rs.Hocuspocus.Storing.Scheduling.{
  Skips, BringsContext, StartsAt, IsScheduled, handle_document_update_cases,
}
use hocuspocu_rs.Hocuspocus.Storing.Unloading.{
  IsGone, IsKept, unload_document_cases, unload_document-occupied,
}
use hocuspocu_rs.Base.Outcome.{ok}
use hocuspocu_rs.Hocuspocus.Opening.{LoadAnswer, load_with, load_document}
use hocuspocu_rs.Hocuspocus.Loaded.{IsLoadEnd, load_document_cases}
use hocuspocu_rs.Server.{destroy, destroy_ends}
use hocuspocu_rs.Server as Server
use hocuspocu_rs.Tests.{toy, notes, alice, open_sinks, document}
use hocuspocu_rs.Types.{TransactionOrigin, local}

executions_overlap_example :
    let s =
      Debounce.run
        ((call_debounce notes 1 0 9 ∷ turns 3 0)
          ++ (call_debounce notes 2 0 9 ∷ turns 1 1)
          ++ turns 2 0
          ++ turns 2 1
          ++ (call_debounce notes 3 0 9 ∷ turns 3 2))
        (Debounce.new 0) in
    (s.tasks 1 ≡ executing notes 0 2) × (s.tasks 2 ≡ executing notes 1 3)
executions_overlap_example = executions_overlap notes 1 2 3 0 9

timer_forgotten_example :
    let s = Debounce.run (forgetting notes 1 2 3 5 9) (Debounce.new 0) in
    let s' =
      Debounce.run
        ((call_execute_now notes ∷ call_debounce notes 4 5 9 ∷ turns 2 1) ++ (tick 5 ∷ turns 4 2))
        s in
    (is_debounced notes s ≡ false)
    × (s.tasks 2 ≡ sleeping notes 5 3)
    × (s'.executed ≡ 1 ∷ 2 ∷ 3 ∷ [])
timer_forgotten_example = timer_forgotten notes 1 2 3 4 0 5 9 (omega arith) (omega arith)

-- Two more calls, 1 s and 2 s behind the first.
abbrev calls : List (ℕ × ℕ)
calls = (1000, 2) ∷ (2000, 3) ∷ []

abbrev burst : Debouncer
burst =
    Debounce.run (call_debounce notes 1 2000 10000 ∷ calls_of notes 2000 10000 calls)
      (Debounce.new 50)

execute_now-burst_example : RunsAlone notes 3 (execute_now notes burst)
execute_now-burst_example =
    execute_now-burst notes 2000 10000 (omega arith) 50 1 calls (omega arith)

debounce-burst_late_example :
    RunsAlone notes 4 (debounce notes 4 2000 10000 (step (tick 8000) burst))
debounce-burst_late_example =
    debounce-burst_late notes 2000 10000 (omega arith) 50 1 calls (omega arith) 8000 4 (omega arith)

-- An extension that accepts and gives its name as context.
abbrev extension : ℕ → ℕ → Extension
extension name priority = record {
  name = name;
  priority = priority;
  answer = λ hook. inr (some name);
}

abbrev extensions : List Extension
extensions = extension 1 5 ∷ extension 2 7 ∷ extension 3 5 ∷ []

configure-stable_example :
    IsDescending (configure extensions)
    × ((p : ℕ) → of_priority p (configure extensions) ≡ of_priority p extensions)
configure-stable_example = configure-stable extensions

hooks-Runs_example :
    Runs on_connect extensions (hooks on_connect extensions) (value_of on_connect extensions)
hooks-Runs_example = hooks-Runs on_connect extensions

abbrev idle_document : ℕ → Document toy
idle_document k = record (document false) { connections = [] }

abbrev server : Hocuspocus toy
server = record {
  debounce_ms = 2000;
  max_debounce_ms = 10000;
  last_change_time = λ k. 0;
  documents = (notes, 0) ∷ [];
  docs = idle_document;
  unloading_documents = [];
  debouncer = Debounce.new 0;
  stores = [];
  sinks = open_sinks;
  calls = [];
}

abbrev busy_server : Hocuspocus toy
busy_server = record server { docs = λ k. document false }

abbrev let_go : Hocuspocus toy → Bool × Hocuspocus toy
let_go s = (true, s)

server-AreOlder : AreOlder 0 (Debounce.new 0)
unfolding Debounce.new Debounce.run
server-AreOlder = run-AreOlder [] 0

unload_document_cases_example :
    let s' = unload_document toy let_go 0 server in
    let b = begin_unloading toy notes server in
    (get notes s'.unloading_documents ≡ none)
    × (((true ≡ true) × (should_unload_document toy 0 b ≡ true) × IsGone toy 0 notes s')
        ⊎ (((true ≡ false) ⊎ (should_unload_document toy 0 b ≡ false)) × IsKept toy 0 b s'))
unfolding should_unload_document is_debounced is_currently_executing Debounce.new contains_key get
    Document.get_connections_count bytes_eq
unload_document_cases_example = unload_document_cases toy let_go 0 server refl refl refl

unload_document-occupied_example :
    (unload_document toy let_go 0 busy_server ≡ busy_server)
    ⊎ IsKept toy 0
        (begin_unloading toy notes busy_server)
        (unload_document toy let_go 0 busy_server)
unfolding Document.get_connections_count
unload_document-occupied_example =
    unload_document-occupied toy let_go 0 busy_server (inl (omega arith))

-- A change of a local transaction with a context of its own.
abbrev own_origin : Option TransactionOrigin
own_origin = some (local (record { skip_store_hooks = false; context = some 5 }))

handle_document_update_cases_example :
    let s' = handle_document_update toy 0 own_origin (1 ∷ []) server in
    (s'.calls ≡ on_change_call notes (1 ∷ []) ∷ [])
    × ((Skips own_origin × (s'.debouncer ≡ server.debouncer) × (s'.stores ≡ []))
        ⊎ ((Skips own_origin → ⊥)
            × (context : ℕ) × (start : ℕ) × BringsContext own_origin context
            × StartsAt (store_id notes) server.debouncer start
            × (s'.stores
                ≡ record {
                  document = 0;
                  last_context = context;
                  last_transaction_origin = own_origin;
                }
                  ∷ [])
            × IsScheduled
                (store_id notes)
                0
                server.debounce_ms
                server.max_debounce_ms
                start
                server.debouncer
                s'.debouncer))
unfolding Debounce.new
handle_document_update_cases_example =
    handle_document_update_cases toy 0 server server-AreOlder own_origin (1 ∷ [])

try_unload_early_example :
    let s₁ =
      Persisting.run toy
        (changed 0 (1 ∷ []) ∷ passed 2000 ∷ turn_of 0 ∷ turn_of 0 ∷ turn_of 0 ∷ turn_of 0 ∷ [])
        server in
    let s₂ = Persisting.step toy (turn_of 0) s₁ in
    (s₁.debouncer.executed ≡ 0 ∷ [])
    × (try_unload toy let_go 0 s₁ ≡ s₁)
    × (should_unload_document toy 0 s₂ ≡ true)
    × ((k : ℕ) → s₂.debouncer.tasks k ≡ Debounce.ended)
unfolding Document.get_connections_count
try_unload_early_example =
    try_unload_early toy let_go 0 server 0 (1 ∷ []) refl (omega arith) (omega arith) refl refl

abbrev pending_entry : TimerEntry
pending_entry = record { start = 0; handle = 0; func = 0 }

abbrev pending : Hocuspocus toy
pending = record server { debouncer = debounce (store_id notes) 0 2000 10000 (Debounce.new 0) }

pending-AreOlder : AreOlder 1 pending.debouncer
unfolding Debounce.new Debounce.run Debounce.step debounce get
pending-AreOlder = run-AreOlder (call_debounce (store_id notes) 0 2000 10000 ∷ []) 0

after_close-stores_example :
    let s' = after_close toy true let_go 0 pending in
    (s'.documents ≡ pending.documents)
    × (s'.docs ≡ pending.docs)
    × ((get (store_id notes) s'.debouncer.timers ≡ some pending_entry)
        ⊎ IsStarted 1 (store_id notes) 0 s'.debouncer)
unfolding Debounce.new debounce get insert remove bytes_eq
after_close-stores_example =
    after_close-stores toy true let_go 0 pending_entry pending pending-AreOlder refl refl

abbrev idly : Hocuspocus toy → Hocuspocus toy
idly s = s

abbrev direct : DirectConnection
direct = record { document = some 0; context = 5 }

disconnect_cases_example :
    let r = released toy 0 5 server in
    let (d', s') = disconnect toy idly let_go direct server in
    IsStarted 0 (store_id notes) 0 r.debouncer
    × (r.stores ≡ last_payload 0 5 ∷ [])
    × ((r.docs 0).direct_connections_count ≡ 0)
    × ((Document.get_connections_count toy (r.docs 0) ≡ 0) ⊎ (s' ≡ r))
    × (transact toy (λ d. d) d' s' ≡ inl closed_error)
    × (disconnect toy idly let_go d' s' ≡ (d', s'))
unfolding Debounce.new
disconnect_cases_example =
    disconnect_cases toy idly let_go 0 5 server (λ d. d)
      (disconnect toy idly let_go direct server).1 server-AreOlder

destroy_ends_example :
    let (attempts, s') = destroy toy (λ k s. s) (λ k s. s) busy_server in
    (attempts ≤ 100)
    × (before : Hocuspocus toy) × (s' ≡ Server.ended toy (λ k s. s) (λ k s. s) before)
    × ((get_documents_count toy before ≡ 0) ⊎ (attempts ≡ 100))
destroy_ends_example = destroy_ends toy (λ k s. s) (λ k s. s) busy_server

-- One extension gives an update, one nothing.
abbrev answers : List LoadAnswer
answers = inr (some (5 ∷ [])) ∷ inr none ∷ []

load_document_cases_example :
    IsLoadEnd toy let_go 3 notes answers server (load_document toy let_go 3 notes answers server)
load_document_cases_example = load_document_cases toy let_go 3 notes answers server

-- The load succeeds.
loaded : (load_document toy let_go 3 notes answers server).0 ≡ ok 3
unfolding load_document load_with Document.apply_update Document.new
loaded = refl

-- Two documents, each with a direct connection, and both with a connection of Alice's one socket.
abbrev shared_server : Hocuspocus toy
shared_server = record busy_server {
  documents = (notes, 0) ∷ (alice, 1) ∷ [];
  docs = λ k. record (document false) { direct_connections_count = 1 };
}

alice_alone :
    (id : Str)
    → contains_text id (alice ∷ []) ≡ is_connected toy shared_server id shared_server.documents
unfolding is_connected Document.get_connection_socket_ids
alice_alone id = ground arith

get_connections_count-counts_example : get_connections_count toy shared_server ≡ 3
unfolding total_direct
get_connections_count-counts_example =
    get_connections_count-counts toy shared_server (alice ∷ []) (refl, tt) alice_alone
