-- ===== src/Hocuspocus/Storing.antt =====
-- hocuspocus.rs: what the server keeps, and how it stores, flushes and unloads documents.
use hocuspocu_rs.Base.{
  ℕ, ◌+◌, Bool, true, false, not, ◌&&◌, ◌||◌, List, [], ◌∷◌, ◌++◌, Option, none, some, Bytes, Str,
  text, length, HashMap, insert, remove, contains_key, bytes_eq, ◌==◌, if◌then◌else◌,
}
use hocuspocu_rs.Common.{reset_connection}
use hocuspocu_rs.Debounce
use hocuspocu_rs.Debounce.{Debouncer, debounce, execute_now, is_debounced, is_currently_executing}
use hocuspocu_rs.Document
use hocuspocu_rs.Document.{Document, get_connection_socket_ids}
use hocuspocu_rs.Sink.{Sinks}
use hocuspocu_rs.Types.{
  Context, TransactionOrigin, connection, local, empty_context, should_skip_store_hooks,
}
use hocuspocu_rs.Yrs.{Yrs}
pub mod Scheduling
pub mod Unloading
pub mod Disconnecting
pub mod Early
pub mod Counting

-- What a store is called with: the document, by its number.
pub record StorePayload : Type 0 where
  pub document : ℕ
  pub last_context : Context
  pub last_transaction_origin : Option TransactionOrigin

-- What the hooks of a store answer: `Ok`, `SkipFurtherHooksError`, or another error.
pub data StoreAnswer : Type 0 where
  stored skipped failed : StoreAnswer

-- The calls of hooks that the server makes, with the name of the document.
pub data ServerCall : Type 0 where
  on_change_call : Str → Bytes → ServerCall
  before_unload_call after_unload_call on_disconnect_call after_store_call : Str → ServerCall
  on_destroy_call : ServerCall

-- The id under which the stores of a document are debounced.
abbrev pub store_id : Str → Str
store_id name = text "onStoreDocument-" ++ name

abbrev pub or_empty : Option Context → Context
or_empty none = empty_context
or_empty (some context) = context

-- The context that `handle_document_update` takes from an origin.
abbrev pub context_of : Option TransactionOrigin → Context
context_of (some (connection _)) = empty_context
context_of (some (local origin)) = or_empty origin.context
context_of _ = empty_context

abbrev pub contains_text : Str → List Str → Bool
contains_text s [] = false
contains_text s (t ∷ ts) = bytes_eq t s || contains_text s ts

-- `unique_socket_ids.insert(sid)` of each.
abbrev pub insert_all : List Str → List Str → List Str
insert_all [] ids = ids
insert_all (s ∷ more) ids = insert_all more (if contains_text s ids then ids else s ∷ ids)

module _ (y : Yrs) where
  -- `documents` gives a name the number of its document, `docs` the documents themselves, and
  -- `last_change_time` that field of theirs. A function
  -- that the debouncer holds is a place in `stores`.
  pub record Hocuspocus : Type 0 where
    pub debounce_ms : ℕ
    pub max_debounce_ms : ℕ
    pub documents : HashMap ℕ
    pub docs : ℕ → Document y
    pub last_change_time : ℕ → ℕ
    pub unloading_documents : HashMap (Unit {0})
    pub debouncer : Debouncer
    pub stores : List StorePayload
    pub sinks : Sinks
    pub calls : List ServerCall

  abbrev pub log : ServerCall → Hocuspocus → Hocuspocus
  log call s = record s { calls = s.calls ++ (call ∷ []) }

  abbrev pub id_of : ℕ → Hocuspocus → Str
  id_of doc s = store_id (s.docs doc).name

  unfoldable pub get_documents_count : Hocuspocus → ℕ
  get_documents_count s = length s.documents

  -- The socket ids that were seen, and the direct connections.
  pub count_each : HashMap ℕ → List Str → ℕ → Hocuspocus → ℕ
  count_each [] ids direct s = length ids + direct
  count_each ((_, doc) ∷ rest) ids direct s =
      count_each rest (insert_all (get_connection_socket_ids y (s.docs doc)) ids)
        (direct + (s.docs doc).direct_connections_count) s

  unfoldable pub get_connections_count : Hocuspocus → ℕ
  unfolding count_each
  get_connections_count s = count_each s.documents [] 0 s

  unfoldable pub flush_one : ℕ → Hocuspocus → Hocuspocus
  flush_one doc s =
      if not (s.docs doc).is_loading && is_debounced (id_of doc s) s.debouncer
      then record s { debouncer = execute_now (id_of doc s) s.debouncer }
      else s

  -- A call of `execute_now` returns when its function has run: the parameter is what everything does
  -- until then.
  unfoldable pub flush_each : (ℕ → Hocuspocus → Hocuspocus) → HashMap ℕ → Hocuspocus → Hocuspocus
  flush_each meanwhile [] s = s
  flush_each meanwhile ((_, doc) ∷ rest) s =
      flush_each meanwhile rest (meanwhile doc (flush_one doc s))

  unfoldable pub flush_pending_stores : (ℕ → Hocuspocus → Hocuspocus) → Hocuspocus → Hocuspocus
  flush_pending_stores meanwhile s = flush_each meanwhile s.documents s

  abbrev pub is_named : Option Str → Str → Bool
  is_named none name = true
  is_named (some wanted) name = bytes_eq name wanted

  abbrev pub close_one : ℕ → Hocuspocus → Hocuspocus
  close_one doc s =
      let r =
        Document.close_all_connections y reset_connection
          (record { document = s.docs doc; sinks = s.sinks }) in
      record s { sinks = r.sinks }

  unfoldable pub close_named : Option Str → HashMap ℕ → Hocuspocus → Hocuspocus
  close_named wanted [] s = s
  close_named wanted ((_, doc) ∷ rest) s =
      close_named wanted rest (if is_named wanted (s.docs doc).name then close_one doc s else s)

  unfoldable pub close_connections : Option Str → Hocuspocus → Hocuspocus
  close_connections wanted s = close_named wanted s.documents s

  -- The debounced function is a place in `stores`; `run_store` is what it does.
  unfoldable pub store_document_hooks : ℕ → StorePayload → Bool → Hocuspocus → Hocuspocus
  store_document_hooks doc payload immediately s = record s {
    stores = s.stores ++ (payload ∷ []);
    debouncer =
        debounce (id_of doc s) (length s.stores) (if immediately then 0 else s.debounce_ms)
          s.max_debounce_ms s.debouncer;
  }

  unfoldable pub handle_document_update :
      ℕ → Option TransactionOrigin → Bytes → Hocuspocus → Hocuspocus
  handle_document_update doc origin update s =
      let changed = log (on_change_call (s.docs doc).name update) s in
      if should_skip_store_hooks origin
      then changed
      else store_document_hooks doc
          (record {
            document = doc;
            last_context = context_of origin;
            last_transaction_origin = origin;
          })
          false changed

  unfoldable pub should_unload_document : ℕ → Hocuspocus → Bool
  should_unload_document doc s =
      let has_pending_work =
        is_debounced (id_of doc s) s.debouncer
        || is_currently_executing (id_of doc s) s.debouncer
        || (s.docs doc).save_mutex in
      not has_pending_work && (Document.get_connections_count y (s.docs doc) == 0)

  abbrev pub set_save_mutex : ℕ → Bool → Hocuspocus → Hocuspocus
  set_save_mutex doc held s = record s {
    docs = λ k. if doc == k then record (s.docs doc) { save_mutex = held } else s.docs k;
  }

  -- Whether a task is spawned that is to unload the document. The after hook runs under the lock.
  abbrev pub after_store : ℕ → StoreAnswer × Hocuspocus → Bool × Hocuspocus
  after_store doc (stored, s) =
      (true, set_save_mutex doc false (log (after_store_call (s.docs doc).name) s))
  after_store doc (skipped, s) = (true, set_save_mutex doc false s)
  after_store doc (failed, s) = (false, set_save_mutex doc false s)

  -- What a function of `stores` does, and the lock of `save_mutex` that it waits for: none while
  -- another holds it.
  unfoldable pub run_store :
      (StorePayload → Hocuspocus → StoreAnswer × Hocuspocus)
      → StorePayload
      → Hocuspocus
      → Option (Bool × Hocuspocus)
  run_store hook payload s =
      if (s.docs payload.document).save_mutex
      then none
      else some
          (after_store payload.document (hook payload (set_save_mutex payload.document true s)))

  abbrev pub end_unloading : Str → Hocuspocus → Hocuspocus
  end_unloading name s = record s { unloading_documents = remove name s.unloading_documents }

  abbrev pub put_away : ℕ → Str → Hocuspocus → Hocuspocus
  put_away doc name s = log (after_unload_call name) (record s {
    documents = remove name s.documents;
    docs = λ k. if doc == k then Document.destroy y (s.docs doc) else s.docs k;
  })

  -- Behind the hook: `true` if it accepts, and the state as the hook and everything that ran
  -- meanwhile leave it.
  abbrev pub behind_hook : ℕ → Str → Bool × Hocuspocus → Hocuspocus
  behind_hook doc name (false, s) = end_unloading name s
  behind_hook doc name (true, s) =
      if should_unload_document doc s
      then end_unloading name (put_away doc name s)
      else end_unloading name s

  abbrev pub begin_unloading : Str → Hocuspocus → Hocuspocus
  begin_unloading name s =
      log (before_unload_call name)
        (record s { unloading_documents = insert name tt s.unloading_documents })

  -- If the document is being unloaded already, the call waits for that and returns.
  unfoldable pub unload_document : (Hocuspocus → Bool × Hocuspocus) → ℕ → Hocuspocus → Hocuspocus
  unload_document hook doc s =
      let name = (s.docs doc).name in
      if not (should_unload_document doc s)
      then s
      else if not (contains_key name s.documents)
      then s
      else if contains_key name s.unloading_documents
      then s
      else behind_hook doc name (hook (begin_unloading name s))

  -- The task that a store spawns.
  unfoldable pub try_unload : (Hocuspocus → Bool × Hocuspocus) → ℕ → Hocuspocus → Hocuspocus
  try_unload hook doc s =
      let unloaded = unload_document hook doc s in
      if should_unload_document doc s then unloaded else s
