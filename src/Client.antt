-- ===== src/Client.antt =====
-- hocuspocu-rs/src/client_connection.rs: one socket, the documents that it is connected to, and the
-- frames that wait until a document is.
use hocuspocu_rs.Base.{
  ℕ, ◌+◌, ◌-◌, ◌⊎◌, Bool, true, false, ◌||◌, List, [], ◌∷◌, ◌++◌, Option, none, some, Bytes, Str,
  text, HashMap, get, insert, remove, ltb, ◌==◌, if◌then◌else◌,
}
use hocuspocu_rs.Codec
use hocuspocu_rs.Common.{CloseEvent, connection_timeout}
use hocuspocu_rs.Connection
use hocuspocu_rs.Connection.{Connection, Peer, HookCall}
use hocuspocu_rs.Connection.Setup.{
  on_close, set_stateless_callback, set_before_handle_message, set_before_sync,
  set_token_sync_callback,
}
use hocuspocu_rs.Document.{Document}
use hocuspocu_rs.Hocuspocus.Loading.{Loaded}
use hocuspocu_rs.Message
use hocuspocu_rs.Message.{to_vec}
use hocuspocu_rs.Sink
use hocuspocu_rs.Sink.{Sinks}
use hocuspocu_rs.Types.{code, Context, ConnectionConfiguration}
use hocuspocu_rs.Yrs.{Yrs}
pub mod Handshake
pub mod Events
pub mod Entries
pub mod Gate
pub mod Stuck
pub mod AuthFrame
pub mod Refusal
pub mod Drain
pub mod Waiting

pub record HookPayloadEntry : Type 0 where
  pub connection_config : ConnectionConfiguration
  pub context : Context
  pub provider_version : Option Str

-- The answers of the user's hooks, of `create_document` and of `Uuid::new_v4`. The number counts the
-- answers before it, so that each may differ. A hook fails with a text, or may give a context.
pub record Hooks : Type 0 where
  pub on_connect : ℕ → Str → HookPayloadEntry → Str ⊎ Option Context
  pub on_authenticate : ℕ → Str → Str → HookPayloadEntry → Str ⊎ Option Context
  pub create_document : ℕ → Str → HookPayloadEntry → Loaded
  pub new_v4 : ℕ → Str
  pub on_token_sync : Str → Option Str
  pub before_handle_message : Str → Bytes → Option Str
  pub before_sync : Str → ℕ → Bytes → Option Str

-- The calls of the hooks that a socket makes, in order.
pub data ClientCall : Type 0 where
  on_connect_call : Str → ClientCall
  on_authenticate_call : Str → Str → ClientCall
  connected_call : Str → ClientCall
  on_disconnect_call : Str → ClientCall

-- `ConnectionConfiguration::default()`.
abbrev pub default_config : ConnectionConfiguration
default_config = record { read_only = false; is_authenticated = false }

abbrev pub or_denied : Str → Str
or_denied [] = text "permission-denied"
or_denied (b ∷ reason) = b ∷ reason

abbrev pub in_context : Option Context → HookPayloadEntry → HookPayloadEntry
in_context none p = p
in_context (some context) p = record p { context = context }

abbrev pub authenticated : HookPayloadEntry → HookPayloadEntry
authenticated p = record p {
  connection_config = record (p.connection_config) { is_authenticated = true };
}

-- The connection that `setup_new_connection` makes, with its callbacks.
unfoldable pub connection_for :
    Hooks → Str → ℕ → Str → Str → Option Str → HookPayloadEntry → Connection
unfolding Connection.new
connection_for h id ws document_name socket_id session_id p =
    let made =
      Connection.new id ws document_name socket_id p.context p.connection_config.read_only
        session_id p.provider_version in
    set_stateless_callback (
      set_before_sync h.before_sync (
        set_before_handle_message h.before_handle_message
          (set_token_sync_callback h.on_token_sync (on_close made))))

-- `conns.get(&raw_key).or_else(|| conns.get(&document_name))`, with the key that was found.
abbrev pub found {ℓ} : {V : Type ℓ} → Str → Str → Option V → Option V → Option (Str × V)
found raw_key document_name (some v) other = some (raw_key, v)
found raw_key document_name none (some v) = some (document_name, v)
found raw_key document_name none none = none

module _ (y : Yrs) where
  -- `documents` are the documents by their numbers, `document_connections` name a document and hold
  -- the state of a connection. `pinging` tells whether the timeout's task runs.
  pub record Client : Type 0 where
    pub socket_id : Str
    pub ws : ℕ
    pub default_context : Context
    pub document_connections : HashMap (ℕ × Connection)
    pub incoming_message_queue : HashMap (List Bytes)
    pub document_connections_established : HashMap (Unit {0})
    pub hook_payloads : HashMap HookPayloadEntry
    pub last_message_received_at : ℕ
    pub pinging : Bool
    pub documents : ℕ → Document y
    pub sinks : Sinks
    pub asked : ℕ
    pub calls : List HookCall
    pub hook_calls : List ClientCall

  unfoldable pub new : Str → ℕ → Context → ℕ → (ℕ → Document y) → Sinks → Client
  new socket_id ws default_context now documents sinks = record {
    socket_id = socket_id;
    ws = ws;
    default_context = default_context;
    document_connections = [];
    incoming_message_queue = [];
    document_connections_established = [];
    hook_payloads = [];
    last_message_received_at = now;
    pinging = true;
    documents = documents;
    sinks = sinks;
    asked = 0;
    calls = [];
    hook_calls = [];
  }

  -- A connection as its methods see it, and what they leave behind.
  abbrev pub peer_of : ℕ → Connection → Client → Peer y
  peer_of doc conn c = record {
    conn = conn;
    room = record { document = c.documents doc; sinks = c.sinks };
    calls = c.calls;
  }

  abbrev pub put_peer : Str → ℕ → Peer y → Client → Client
  put_peer key doc p c = record c {
    document_connections = insert key (doc, p.conn) c.document_connections;
    documents = λ k. if doc == k then p.room.document else c.documents k;
    sinks = p.room.sinks;
    calls = p.calls;
  }

  -- The flag is false if the task panicked. `none` does not come: the queue's loop always ends.
  abbrev pub forwarded : Str → ℕ → Client → Option (Bool × Peer y) → Bool × Client
  forwarded key doc c none = (false, c)
  forwarded key doc c (some (handled, p)) = (handled, put_peer key doc p c)

  abbrev pub forward : Bytes → Client → Option (Str × (ℕ × Connection)) → Bool × Client
  forward bytes c none = (true, c)
  forward bytes c (some (key, (doc, conn))) =
      forwarded key doc c (Connection.handle_message y bytes (peer_of doc conn c))

  pub close_each : Option CloseEvent → HashMap (ℕ × Connection) → Client → Client
  close_each event [] c = c
  close_each event ((key, (doc, conn)) ∷ conns) c =
      close_each event conns (put_peer key doc (Connection.close y event (peer_of doc conn c)) c)

  unfoldable pub close_all : Option CloseEvent → Client → Client
  unfolding close_each
  close_all event c = close_each event c.document_connections c

  unfoldable pub handle_close : Option CloseEvent → Client → Client
  handle_close event c = record (close_all event c) { pinging = false }

  -- One round of the task that `new` spawns.
  unfoldable pub ping_round : ℕ → ℕ → Client → Client
  ping_round timeout_ms now c =
      if c.pinging
      then if ltb timeout_ms (now - c.last_message_received_at)
        then record (close_all (some connection_timeout) c) { pinging = false }
        else c
      else c

  abbrev pub call : ClientCall → Client → Client
  call made c = record c { asked = c.asked + 1; hook_calls = c.hook_calls ++ (made ∷ []) }

  abbrev pub reply : Bytes → Client → Client
  reply bytes c = record c { sinks = (Sink.send c.ws bytes c.sinks).1 }

  abbrev pub close_socket : CloseEvent → Client → Client
  close_socket event c = record c { sinks = Sink.close c.ws event.code event.reason c.sinks }

  unfoldable pub cleanup_document_state : Str → Client → Client
  cleanup_document_state raw_key c = record c {
    document_connections_established = remove raw_key c.document_connections_established;
    hook_payloads = remove raw_key c.hook_payloads;
    incoming_message_queue = remove raw_key c.incoming_message_queue;
  }

  -- The task that the close callback of a connection spawns, when that connection's queue is empty.
  unfoldable pub finish_close : Str → Str → Client → Client
  unfolding cleanup_document_state
  finish_close raw_key document_name c =
      let left = call (on_disconnect_call document_name) c in
      cleanup_document_state raw_key
        (record left { document_connections = remove raw_key left.document_connections })

  abbrev pub denied : Str → Str → Client → Client
  denied raw_key reason c =
      cleanup_document_state raw_key
        (reply (to_vec (Message.write_permission_denied reason (Message.new raw_key))) c)

  abbrev pub stored : Str → Client → Option (Str × (ℕ × Connection))
  stored raw_key c = found raw_key raw_key (get raw_key c.document_connections) none

  -- A panic ends the task.
  abbrev pub and_then : Bool × Client → (Client → Bool × Client) → Bool × Client
  and_then (true, c) f = f c
  and_then (false, c) f = (false, c)
