-- ===== src/Tests.antt =====
-- Concrete inputs for the tests: a small stand-in for the `yrs` crate, a document and a connection.
use hocuspocu_rs.Base.{
  ℕ, Bool, true, false, not, List, [], ◌∷◌, ◌++◌, none, some, inr, Bytes, Str, text, drop, length,
}
use hocuspocu_rs.Base.Outcome.{Outcome, ok, err}
use hocuspocu_rs.Common.{open_}
use hocuspocu_rs.Connection
use hocuspocu_rs.Connection.{Peer}
use hocuspocu_rs.Document
use hocuspocu_rs.Document.{Document, Room, ConnectionEntry, contains, drop_client}
use hocuspocu_rs.Receiver.{Exchange}
use hocuspocu_rs.Sink.{Sink, Sinks}
use hocuspocu_rs.Yrs.{Yrs}
mod Wire
mod Session
mod Server
mod Lifecycle
mod Lasting
mod Examples

abbrev decode_nonempty : Bytes → Outcome Str Bytes
decode_nonempty [] = err (text "empty update")
decode_nonempty (b ∷ bytes) = ok (b ∷ bytes)

abbrev is_nonempty : List ℕ → Bool
is_nonempty [] = false
is_nonempty (_ ∷ _) = true

-- A document is the bytes it was given, and its state vector says which these are.
abbrev pub toy : Yrs
toy = record {
  Doc = Bytes;
  StateVector = Bytes;
  Update = Bytes;
  Awareness = List ℕ;
  AwarenessUpdate = List ℕ;
  doc_new = [];
  decode_sv = λ bytes. inr bytes;
  encode_sv = λ sv. sv;
  sv_default = [];
  sv_iter = λ sv. (0, length sv) ∷ [];
  sv_get = λ sv client. length sv;
  state_vector = λ doc. doc;
  encode_state_as_update = λ doc sv. drop (length sv) doc;
  sv_from_update = λ bytes. inr bytes;
  decode_update = decode_nonempty;
  apply = λ doc u. (ok tt, doc ++ u, some u);
  awareness_new = [];
  has_states = is_nonempty;
  awareness_all = λ a. inr a;
  awareness_clients = λ a clients. inr clients;
  remove_state = λ a client. drop_client client a;
  decode_awareness = λ bytes. ok bytes;
  update_clients = λ u. u;
  meta_is_none = λ a client. not (contains client a);
  apply_awareness = λ a u. ok (a ++ u);
}

abbrev pub notes : Str
notes = text "notes"

abbrev pub alice : Str
alice = text "a"

-- The connection of one client, whose sink is 0, known to its document.
abbrev pub entry : Bool → ConnectionEntry
entry read_only = record {
  clients = [];
  socket_id = alice;
  read_only = read_only;
  message_address = notes;
  ws = 0;
}

abbrev pub open_sink : Sink
open_sink = record { tx = []; state = open_; alive = true }

abbrev pub open_sinks : Sinks
open_sinks k = open_sink

abbrev pub document : Bool → Document toy
document read_only = record {
  name = notes;
  doc = 1 ∷ [];
  awareness_state = [];
  is_loading = false;
  is_destroyed = false;
  direct_connections_count = 0;
  save_mutex = false;
  connections = (alice, entry read_only) ∷ [];
  has_update_subscription = true;
  updates = [];
  before_handle_awareness = none;
}

abbrev pub room : Bool → Room toy
room read_only = record { document = document read_only; sinks = open_sinks }

abbrev pub exchange : Bool → Exchange toy
exchange read_only = record { room = room read_only; replies = none }

abbrev pub peer : Bool → List Bytes → Peer toy
peer read_only frames = record {
  conn = record {
    id = alice;
    socket_id = alice;
    context = 0;
    read_only = read_only;
    session_id = none;
    provider_version = none;
    message_address = notes;
    ws = 0;
    message_queue = frames;
    closed = false;
    callbacks = record {
      before_handle_message = none;
      before_sync = none;
      stateless = true;
      token_sync = none;
    };
    on_close_callbacks = 1;
  };
  room = room read_only;
  calls = [];
}
