-- ===== src/Document.antt =====
-- hocuspocu-rs/src/document.rs: a document, its connections, and what it sends to them.
use hocuspocu_rs.Base.{
  inl, inr, ◌⊎◌, ℕ, ◌+◌, ◌-◌, ◌≡◌, Bool, true, false, ◌&&◌, ◌||◌, List, [], ◌∷◌, ◌++◌, map, Option,
  none, some, Bytes, Str, length, HashMap, get, insert, remove, contains_key, ltb, ◌==◌,
  if◌then◌else◌,
}
use hocuspocu_rs.Base.Outcome.{Outcome, ok, err, panic}
use hocuspocu_rs.Codec.{write_var_uint, write_var_string, write_var_uint8_array}
use hocuspocu_rs.Common.{CloseEvent}
use hocuspocu_rs.Sink
use hocuspocu_rs.Sink.{Sinks}
use hocuspocu_rs.Types.{code, awareness, sync, stateless, TransactionOrigin}
use hocuspocu_rs.Yrs.{Yrs}
pub mod Awareness
pub mod Access
pub mod Broadcast

pub record ConnectionEntry : Type 0 where
  pub clients : List ℕ
  pub socket_id : Str
  pub read_only : Bool
  pub message_address : Str
  pub ws : ℕ

-- The set of clients of an entry, in the order of insertion.
abbrev pub contains : ℕ → List ℕ → Bool
contains k [] = false
contains k (x ∷ xs) = x == k || contains k xs

abbrev pub add_client : ℕ → List ℕ → List ℕ
add_client k xs = if contains k xs then xs else xs ++ (k ∷ [])

abbrev pub drop_client : ℕ → List ℕ → List ℕ
drop_client k [] = []
drop_client k (x ∷ xs) = let rest = drop_client k xs in if x == k then rest else x ∷ rest

-- The frames that the document builds by hand.
unfoldable pub awareness_frame : Str → Bytes → Bytes
awareness_frame address update_data =
    write_var_uint8_array (write_var_uint (write_var_string [] address) (code awareness))
      update_data

unfoldable pub update_frame : Str → Bytes → Bytes
update_frame address update =
    write_var_uint8_array
      (write_var_uint (write_var_uint (write_var_string [] address) (code sync)) 2) update

unfoldable pub stateless_frame : Str → Str → Bytes
stateless_frame address payload =
    write_var_string (write_var_uint (write_var_string [] address) (code stateless)) payload

module _ (y : Yrs) where
  open y use {Doc, Awareness}

  -- `updates` are the events of the `yrs` observer whose spawned tasks have not run yet, oldest
  -- first; `has_update_subscription` tells whether the observer is there.
  pub record Document : Type 0 where
    pub name : Str
    pub doc : Doc
    pub awareness_state : Awareness
    pub is_loading : Bool
    pub is_destroyed : Bool
    pub direct_connections_count : ℕ
    pub save_mutex : Bool
    pub connections : HashMap ConnectionEntry
    pub has_update_subscription : Bool
    pub updates : List Bytes
    pub before_handle_awareness : Option (Bytes → Option TransactionOrigin → Outcome Str Bytes)

  -- A document, and the sinks that it shares with the rest of the server.
  pub record Room : Type 0 where
    pub document : Document
    pub sinks : Sinks

  unfoldable pub new : Str → Document
  new name = record {
    name = name;
    doc = y.doc_new;
    awareness_state = y.awareness_new;
    is_loading = true;
    is_destroyed = false;
    direct_connections_count = 0;
    save_mutex = false;
    connections = [];
    has_update_subscription = false;
    updates = [];
    before_handle_awareness = none;
  }

  -- A method of a document that shares no sink.
  unfoldable pub add_connection : Str → Str → Bool → Str → ℕ → Document → Document
  add_connection connection_id socket_id read_only message_address ws d = record d {
    connections = insert connection_id entry d.connections;
  }
    where
      entry : ConnectionEntry
      entry = record {
        clients = [];
        socket_id = socket_id;
        read_only = read_only;
        message_address = message_address;
        ws = ws;
      }

  unfoldable pub has_connection : Str → Document → Bool
  has_connection connection_id d = contains_key connection_id d.connections

  unfoldable pub add_direct_connection : Document → Document
  add_direct_connection d = record d { direct_connections_count = d.direct_connections_count + 1 }

  unfoldable pub remove_direct_connection : Document → Document
  remove_direct_connection d =
      if ltb 0 d.direct_connections_count
      then record d { direct_connections_count = d.direct_connections_count - 1 }
      else d

  unfoldable pub get_connections_count : Document → ℕ
  get_connections_count d = length d.connections + d.direct_connections_count

  unfoldable pub get_connection_socket_ids : Document → List Str
  get_connection_socket_ids d = map (λ c. c.1.socket_id) d.connections

  abbrev pub edit :
      Str → (ConnectionEntry → ConnectionEntry) → Document → Option ConnectionEntry → Document
  edit connection_id f d none = d
  edit connection_id f d (some e) = record d {
    connections = insert connection_id (f e) d.connections;
  }

  unfoldable pub add_client_to_connection : Str → ℕ → Document → Document
  add_client_to_connection connection_id client_id d =
      edit connection_id (λ e. record e { clients = add_client client_id e.clients }) d
        (get connection_id d.connections)

  unfoldable pub remove_client_from_connection : Str → ℕ → Document → Document
  remove_client_from_connection connection_id client_id d =
      edit connection_id (λ e. record e { clients = drop_client client_id e.clients }) d
        (get connection_id d.connections)

  unfoldable pub has_awareness_states : Document → Bool
  has_awareness_states d = y.has_states d.awareness_state

  unfoldable pub encode_awareness_update_all : Document → Str ⊎ Bytes
  encode_awareness_update_all d = y.awareness_all d.awareness_state

  unfoldable pub encode_awareness_update_clients : List ℕ → Document → Str ⊎ Bytes
  encode_awareness_update_clients clients d = y.awareness_clients d.awareness_state clients

  unfoldable pub encode_state_as_update : Document → Bytes
  encode_state_as_update d = y.encode_state_as_update d.doc y.sv_default

  unfoldable pub encode_state_vector : Document → Bytes
  encode_state_vector d = y.encode_sv (y.state_vector d.doc)

  unfoldable pub is_empty : Document → Bool
  is_empty d = elim (y.sv_iter (y.state_vector d.doc)) [ [] ↦ true | x ∷ xs ↦ false ]

  -- The loops over the connections; a failed send is ignored.
  unfoldable pub send_each : (ConnectionEntry → Bytes) → HashMap ConnectionEntry → Sinks → Sinks
  send_each frame [] sinks = sinks
  send_each frame ((_, e) ∷ conns) sinks = send_each frame conns (Sink.send e.ws (frame e) sinks).1

  unfoldable pub broadcast_awareness_to_connections : Bytes → Room → Room
  broadcast_awareness_to_connections update_data r = record r {
    sinks =
        send_each (λ e. awareness_frame e.message_address update_data) r.document.connections
          r.sinks;
  }

  abbrev pub keep_all : Option (Str → Bool) → HashMap ConnectionEntry → HashMap ConnectionEntry
  keep_all none conns = conns
  keep_all (some f) [] = []
  keep_all (some f) ((k, e) ∷ conns) =
      let rest = keep_all (some f) conns in if f k then (k, e) ∷ rest else rest

  unfoldable pub broadcast_stateless : Str → Option (Str → Bool) → Room → Room
  broadcast_stateless payload filter r = record r {
    sinks =
        send_each (λ e. stateless_frame e.message_address payload)
          (keep_all filter r.document.connections) r.sinks;
  }

  -- `handle_update`, for a document with no update callback: nothing in the server sets one.
  unfoldable pub handle_update : Bytes → Room → Room
  handle_update update r = record r {
    sinks = send_each (λ e. update_frame e.message_address update) r.document.connections r.sinks;
  }

  abbrev pub send_entry : Bytes → Room → Option ConnectionEntry → Room
  send_entry bytes r none = r
  send_entry bytes r (some e) = record r { sinks = (Sink.send e.ws bytes r.sinks).1 }

  unfoldable pub send_to_connection : Str → Bytes → Room → Room
  send_to_connection connection_id bytes r =
      send_entry bytes r (get connection_id r.document.connections)

  unfoldable pub close_each : CloseEvent → HashMap ConnectionEntry → Sinks → Sinks
  close_each event [] sinks = sinks
  close_each event ((_, e) ∷ conns) sinks =
      close_each event conns (Sink.close e.ws event.code event.reason sinks)

  unfoldable pub close_all_connections : CloseEvent → Room → Room
  close_all_connections event r = record r {
    sinks = close_each event r.document.connections r.sinks;
  }

  pub remove_states : List ℕ → Awareness → Awareness
  remove_states [] a = a
  remove_states (client ∷ clients) a = remove_states clients (y.remove_state a client)

  abbrev pub announce : Str ⊎ Bytes → Room → Room
  announce (inr update_data) r = broadcast_awareness_to_connections update_data r
  announce (inl _) r = r

  abbrev pub depart : List ℕ → Room → Room
  depart [] r = r
  depart (c ∷ cs) r =
      let d = record (r.document) {
        awareness_state = remove_states (c ∷ cs) r.document.awareness_state;
      } in
      announce (encode_awareness_update_clients (c ∷ cs) d) (record r { document = d })

  abbrev pub drop_entry : Str → Room → Option ConnectionEntry → Room
  drop_entry connection_id r none = r
  drop_entry connection_id r (some e) = depart e.clients (record r {
    document = record (r.document) { connections = remove connection_id r.document.connections };
  })

  unfoldable pub remove_connection : Str → Room → Room
  unfolding remove_states
  remove_connection connection_id r =
      drop_entry connection_id r (get connection_id r.document.connections)

  -- The commit hands its event to the observer, which spawns a task for it.
  abbrev pub committed :
      Outcome Str (Unit {0}) × Doc × Option Bytes → Document → Outcome Str (Unit {0}) × Document
  committed (r, doc, none) d = (r, record d { doc = doc })
  committed (r, doc, some update) d = (
    r,
    record d {
      doc = doc;
      updates = if d.has_update_subscription then d.updates ++ (update ∷ []) else d.updates;
    },
  )

  abbrev pub apply_decoded : Outcome Str y.Update → Document → Outcome Str (Unit {0}) × Document
  apply_decoded (ok u) d = committed (y.apply d.doc u) d
  apply_decoded (err e) d = (err e, d)
  apply_decoded panic d = (panic, d)

  unfoldable pub apply_update : Bytes → Document → Outcome Str (Unit {0}) × Document
  apply_update update d = apply_decoded (y.decode_update update) d

  unfoldable pub destroy : Document → Document
  destroy d = record d { is_destroyed = true }
