-- ===== src/Tests/Lasting.antt =====
-- What is handed to the debouncer, and where documents come from, on concrete inputs.
use hocuspocu_rs.Base.{
  ℕ, zero, suc, refl, inl, inr, Bool-cases, ◌==◌, false, List, [], ◌∷◌, ◌++◌, get, insert, remove,
  bytes_eq, contains_key, arith, text, Str, All,
}
use hocuspocu_rs.Debounce
use hocuspocu_rs.Debounce.{
  Debouncer, Event, is_debounced, call_debounce, call_execute_now, tick, move, step, debounce,
}
use hocuspocu_rs.Debounce.Lasting.{Contains}
use hocuspocu_rs.Debounce.Matching.{Matches, run-Matches}
use hocuspocu_rs.Debounce.Settling.{IsDue}
use hocuspocu_rs.Debounce.Settling.Rounds.{Covers, run_rounds, debounce-runs}
use hocuspocu_rs.Document
use hocuspocu_rs.Document.{Document}
use hocuspocu_rs.Hocuspocus.Blank.{is_blank}
use hocuspocu_rs.Hocuspocus.Loading as Loads
use hocuspocu_rs.Hocuspocus.Loading.{move, initial}
use hocuspocu_rs.Hocuspocus.Opening.{on_update}
use hocuspocu_rs.Hocuspocus.Persisting as Persisting
use hocuspocu_rs.Hocuspocus.Persisting.{
  ServerEvent, changed, flushed, turn_of, passed, left, IsStored, IsExecuted,
}
use hocuspocu_rs.Hocuspocus.Persisting.Changes.{change-lasts}
use hocuspocu_rs.Hocuspocus.Persisting.Lost.{change_lost}
use hocuspocu_rs.Hocuspocus.Persisting.Stored.{change-stored}
use hocuspocu_rs.Hocuspocus.Provenance.{WasLoaded}
use hocuspocu_rs.Hocuspocus.Provenance.Runs.{run-provenance}
use hocuspocu_rs.Hocuspocus.Races.{goes}
use hocuspocu_rs.Hocuspocus.Storing.{
  Hocuspocus, store_id, handle_document_update, store_document_hooks, flush_one,
}
use hocuspocu_rs.Types.{should_skip_store_hooks}
use hocuspocu_rs.Tests.{toy, notes, document, open_sinks}

abbrev drafts : Str
drafts = text "drafts"

-- A call for another document, and then the task of it gets its first turn.
abbrev before : List Event
before = call_debounce drafts 7 2000 9000 ∷ tick 2000 ∷ Debounce.move 0 ∷ []

-- The time of the timer comes, behind a flush of the other document.
abbrev after : List Event
after = call_execute_now drafts ∷ tick 2000 ∷ []

abbrev times : ℕ → List ℕ → List (List ℕ)
times zero ks = []
times (suc n) ks = ks ∷ times n ks

abbrev called : Debouncer
called = Debounce.run after (debounce notes 8 2000 9000 (Debounce.run before (Debounce.new 5)))

called-IsDue : IsDue called
unfolding Debounce.run Debounce.new step debounce Debounce.execute_now get remove insert bytes_eq
called-IsDue k = elim (Bool-cases (1 == k)) [
  | inl e ↦ rw e (omega arith)
  | inr e ↦ elim (Bool-cases (0 == k)) [ inl z ↦ rw (e, z) tt | inr z ↦ rw (e, z) tt ]
]

round-Covers : Covers 2 (1 ∷ 0 ∷ [])
round-Covers zero lt = inr (inl refl)
round-Covers (suc zero) lt = inl refl
round-Covers (suc (suc k)) lt = absurd (omega arith)

times-Covers : (n : ℕ) → All (Covers 2) (times n (1 ∷ 0 ∷ []))
times-Covers zero = tt
times-Covers (suc n) = (round-Covers, times-Covers n)

debounce-runs_example : Contains 8 (run_rounds (times 12 (1 ∷ 0 ∷ [])) called).executed
unfolding Debounce.run Debounce.new step debounce Debounce.execute_now get remove insert bytes_eq
debounce-runs_example =
    debounce-runs before after notes 8 2000 9000 5 (times 12 (1 ∷ 0 ∷ [])) (tt, (tt, tt))
      called-IsDue (times-Covers 12) (omega arith)

-- Document 0, and others of another name.
abbrev named : ℕ → Document toy
named zero = record (document false) { connections = [] }
named (suc k) = record (document false) { connections = []; name = drafts }

abbrev server : Hocuspocus toy
server = record {
  debounce_ms = 2000;
  max_debounce_ms = 10000;
  last_change_time = λ k. 0;
  documents = (notes, 0) ∷ (drafts, 1) ∷ [];
  docs = named;
  unloading_documents = [];
  debouncer = Debounce.new 0;
  stores = [];
  sinks = open_sinks;
  calls = [];
}

server-Matches : Matches server.debouncer
unfolding Debounce.run Debounce.new
server-Matches = run-Matches [] 0

-- Both documents change, and the timer of the first runs down.
abbrev events : List ServerEvent
events = changed 1 (9 ∷ []) ∷ passed 2000 ∷ turn_of 0 ∷ flushed 1 ∷ []

change-lasts_example :
    let s' = Persisting.run toy events (on_update toy 0 (7 ∷ []) server) in
    IsStored 0 0 (store_id notes) s'.stores s'.debouncer
change-lasts_example =
    change-lasts toy 0 (7 ∷ []) events server server-Matches (inr (λ e. cc), (tt, (tt, (tt, tt))))

-- Before the change of document 0, a direct connection leaves document 1; behind it, time passes.
abbrev earlier : List ServerEvent
earlier = left 1 3 ∷ turn_of 0 ∷ []

abbrev later : List ServerEvent
later = turn_of 1 ∷ flushed 1 ∷ passed 2000 ∷ []

abbrev run_server : Hocuspocus toy
run_server = Persisting.run toy later (on_update toy 0 (7 ∷ []) (Persisting.run toy earlier server))

run_server-IsDue : IsDue run_server.debouncer
unfolding Persisting.run Persisting.step on_update handle_document_update store_document_hooks
    flush_one should_skip_store_hooks Debounce.new step debounce Debounce.execute_now is_debounced
    get remove insert bytes_eq contains_key Document.remove_direct_connection
run_server-IsDue k = elim (Bool-cases (1 == k)) [
  | inl e ↦ rw e (omega arith)
  | inr e ↦ elim (Bool-cases (0 == k)) [ inl z ↦ rw (e, z) tt | inr z ↦ rw (e, z) tt ]
]

change-stored_example :
    IsExecuted 1 0 run_server.stores
      (run_rounds (times 12 (1 ∷ 0 ∷ [])) run_server.debouncer).executed
unfolding Persisting.run Persisting.step on_update handle_document_update store_document_hooks
    flush_one should_skip_store_hooks Debounce.new step debounce Debounce.execute_now is_debounced
    get remove insert bytes_eq contains_key Document.remove_direct_connection
change-stored_example =
    change-stored toy earlier later server 0 0 (7 ∷ []) (times 12 (1 ∷ 0 ∷ [])) refl
      (tt, (tt, (tt, tt))) run_server-IsDue (times-Covers 12) (omega arith)

-- Every number is a document of the same name.
abbrev twins : Hocuspocus toy
twins = record server { docs = λ k. record (document false) { connections = [] } }

change_lost_example :
    let s' =
      Persisting.run toy events (on_update toy 1 (8 ∷ []) (on_update toy 0 (7 ∷ []) twins)) in
    ¬ IsExecuted 0 0 s'.stores s'.debouncer.executed
change_lost_example =
    change_lost toy twins 0 0 1 (7 ∷ []) (8 ∷ []) events refl (omega arith) (omega arith) (λ e. cc)
      refl ((λ e. cc), (tt, (tt, (tt, tt))))

abbrev ask_notes : ℕ → Str
ask_notes i = notes

-- The second call waits for the first to have loaded the document.
abbrev schedule : List Loads.Event
schedule = goes 7 1 (inr 4) ++ goes 2 2 (inr 5)

run-provenance_example : WasLoaded notes 4 schedule (initial ask_notes)
unfolding Loads.run Loads.step Loads.advance initial is_blank get insert remove bytes_eq
run-provenance_example = run-provenance ask_notes schedule 2 4 notes (inl (refl, refl))
