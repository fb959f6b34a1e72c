-- ===== src/Connection.antt =====
-- hocuspocu-rs/src/connection.rs: one client's connection to one document, with its queue of frames.
use hocuspocu_rs.Base.{
  inl, inr, ◌⊎◌, ℕ, zero, suc, ◌≡◌, Bool, true, false, List, [], ◌∷◌, ◌++◌, Option, none, some,
  Bytes, Str, length, text, ◌==◌, if◌then◌else◌, bytes_eq,
}
use hocuspocu_rs.Base.Outcome.{Outcome, ok, err, panic}
use hocuspocu_rs.Codec
use hocuspocu_rs.Codec.{Decoder, IoError, read_var_string}
use hocuspocu_rs.Common.{CloseEvent, reset_connection, unauthorized}
use hocuspocu_rs.Common.RoutingKey.{parse_routing_key}
use hocuspocu_rs.Document.{
  Room, has_connection, remove_connection, has_awareness_states, encode_awareness_update_all,
}
use hocuspocu_rs.Message
use hocuspocu_rs.Message.{to_vec}
use hocuspocu_rs.Receiver.{
  Exchange, BeforeSync, apply, stateless_prefix, token_sync_prefix, close_requested,
}
use hocuspocu_rs.Sink
use hocuspocu_rs.Sink.{Sink, is_closing}
use hocuspocu_rs.Types.{Context}
use hocuspocu_rs.Yrs.{Yrs}
pub mod Setup
pub mod Closing
pub mod Frozen
pub mod Queue
pub mod Dispatch

-- The calls of hooks and callbacks that a connection makes, in order.
pub data HookCall : Type 0 where
  on_close_call : Option CloseEvent → HookCall
  before_handle_message_call : Bytes → HookCall
  stateless_call token_sync_call : Str → HookCall

-- `s.strip_prefix(prefix)`.
unfoldable pub strip_prefix : Str → Str → Option Str
strip_prefix [] s = some s
strip_prefix (p ∷ ps) [] = none
strip_prefix (p ∷ ps) (c ∷ s) = if p == c then strip_prefix ps s else none

-- The callbacks that the client connection installs; a hook's decision is its error, or none.
pub record Callbacks : Type 0 where
  pub before_handle_message : Option (Str → Bytes → Option Str)
  pub before_sync : Option (Str → ℕ → Bytes → Option Str)
  pub stateless : Bool
  pub token_sync : Option (Str → Option Str)

pub record Connection : Type 0 where
  pub id : Str
  pub socket_id : Str
  pub context : Context
  pub read_only : Bool
  pub session_id : Option Str
  pub provider_version : Option Str
  pub message_address : Str
  pub ws : ℕ
  pub message_queue : List Bytes
  pub closed : Bool
  pub callbacks : Callbacks
  pub on_close_callbacks : ℕ

unfoldable pub message_address_of : Str → Option Str → Str
message_address_of name none = name
message_address_of name (some sid) = name ++ (0 ∷ sid)

unfoldable pub new : Str → ℕ → Str → Str → Context → Bool → Option Str → Option Str → Connection
new id ws document_name socket_id context read_only session_id provider_version = record {
  id = id;
  socket_id = socket_id;
  context = context;
  read_only = read_only;
  session_id = session_id;
  provider_version = provider_version;
  message_address = message_address_of document_name session_id;
  ws = ws;
  message_queue = [];
  closed = false;
  callbacks = record {
    before_handle_message = none;
    before_sync = none;
    stateless = false;
    token_sync = none;
  };
  on_close_callbacks = 0;
}

module _ (y : Yrs) where
  -- A connection, the room of its document, and the calls made so far.
  pub record Peer : Type 0 where
    pub conn : Connection
    pub room : Room y
    pub calls : List HookCall

  abbrev pub mark_closed : Peer → Peer
  mark_closed p = record p { conn = record (p.conn) { closed = true } }

  abbrev pub log : HookCall → Peer → Peer
  log call p = record p { calls = p.calls ++ (call ∷ []) }

  abbrev pub sent : Peer → Bool × Sink.Sinks → Peer
  sent p (true, sinks) = record p { room = record (p.room) { sinks = sinks } }
  sent p (false, sinks) = mark_closed (record p { room = record (p.room) { sinks = sinks } })

  unfoldable pub send : Bytes → Peer → Peer
  send bytes p =
      if p.conn.closed
      then p
      else if is_closing (p.room.sinks p.conn.ws).state
      then mark_closed p
      else sent p (Sink.send p.conn.ws bytes p.room.sinks)

  unfoldable pub send_stateless : Str → Peer → Peer
  send_stateless payload p =
      send (to_vec (Message.write_stateless payload (Message.new p.conn.message_address))) p

  unfoldable pub request_token : Peer → Peer
  request_token p =
      send (to_vec (Message.write_token_sync_request (Message.new p.conn.message_address))) p

  -- One call for each callback.
  pub run_on_close : ℕ → Option CloseEvent → Peer → Peer
  run_on_close zero event p = p
  run_on_close (suc n) event p = run_on_close n event (log (on_close_call event) p)

  abbrev pub reason_of : Option CloseEvent → Str
  reason_of none = text "Server closed the connection"
  reason_of (some event) = event.reason

  abbrev pub farewell : Option CloseEvent → Peer → Bytes
  farewell event p =
      to_vec (Message.write_close_message (reason_of event) (Message.new p.conn.message_address))

  abbrev pub leave : Peer → Peer
  leave p = record p { room = remove_connection y p.conn.id p.room }

  unfoldable pub close : Option CloseEvent → Peer → Peer
  close event p =
      if has_connection y p.conn.id p.room.document
      then mark_closed
          (send (farewell event p) (run_on_close p.conn.on_close_callbacks event (leave p)))
      else p

  abbrev pub send_awareness : Str ⊎ Bytes → Peer → Peer
  send_awareness (inr update_data) p =
      send
        (to_vec (
          Message.create_awareness_update_message update_data (Message.new p.conn.message_address)))
        p
  send_awareness (inl _) p = p

  unfoldable pub init_awareness : Peer → Peer
  init_awareness p =
      if has_awareness_states y p.room.document
      then send_awareness (encode_awareness_update_all y p.room.document) p
      else p

  abbrev pub token_rejected : Option Str → Peer → Peer
  token_rejected none p = p
  token_rejected (some _) p = close (some unauthorized) p

  abbrev pub call_token_sync : Option (Str → Option Str) → Str → Peer → Peer
  call_token_sync none token p = p
  call_token_sync (some callback) token p =
      token_rejected (callback token) (log (token_sync_call token) p)

  abbrev pub provider_initiated : CloseEvent
  provider_initiated = record { code = 1000; reason = text "provider_initiated" }

  -- The three signals that `apply` sends as error texts, and any other error.
  abbrev pub on_error : Str → Option Str → Option Str → Peer → Peer
  on_error e (some payload) token p =
      if p.conn.callbacks.stateless then log (stateless_call payload) p else p
  on_error e none (some token) p = call_token_sync p.conn.callbacks.token_sync token p
  on_error e none none p =
      if bytes_eq e close_requested
      then close (some provider_initiated) p
      else close (some reset_connection) p

  abbrev pub handle_error : Str → Peer → Peer
  handle_error e p =
      on_error e (strip_prefix stateless_prefix e) (strip_prefix token_sync_prefix e) p

  -- The room behind a message; the flag is false if the task panicked.
  abbrev pub after_apply : Peer → Outcome Str (Unit {0}) × Exchange y → Bool × Peer
  after_apply p (ok _, x) = (true, record p { room = x.room })
  after_apply p (err e, x) = (true, handle_error e (record p { room = x.room }))
  after_apply p (panic, x) = (false, record p { room = x.room })

  abbrev pub before_sync_of : Str → Option (Str → ℕ → Bytes → Option Str) → BeforeSync y
  before_sync_of id none = none
  before_sync_of id (some callback) = some (callback id)

  pub receive : Bytes → Peer → Bool × Peer
  receive raw p = after_apply p (
      apply y (record { bytes = raw; default_transaction_origin = none }) (some p.conn.id)
        p.conn.message_address p.conn.read_only
        (before_sync_of p.conn.id p.conn.callbacks.before_sync)
        (record { room = p.room; replies = none }))

  abbrev pub after_hook : Bytes → Option Str → Peer → Bool × Peer
  after_hook raw none p = receive raw p
  after_hook raw (some _) p = (true, close (some reset_connection) p)

  abbrev pub call_before : Bytes → Option (Str → Bytes → Option Str) → Peer → Bool × Peer
  call_before raw none p = receive raw p
  call_before raw (some callback) p =
      after_hook raw (callback p.conn.id raw) (log (before_handle_message_call raw) p)

  abbrev pub addressed : Bytes → Outcome IoError Str × Decoder → Peer → Bool × Peer
  addressed raw (ok raw_key, d) p =
      if bytes_eq (parse_routing_key raw_key).0 p.room.document.name
      then call_before raw p.conn.callbacks.before_handle_message p
      else (true, p)
  addressed raw (err _, d) p = (true, p)
  addressed raw (panic, d) p = (false, p)

  -- One round of the loop of `process_messages`, without its `pop_front`.
  unfoldable pub process_one : Bytes → Peer → Bool × Peer
  process_one raw p = addressed raw (read_var_string (Codec.new raw)) p

  abbrev pub tail_of : List Bytes → List Bytes
  tail_of [] = []
  tail_of (_ ∷ rest) = rest

  abbrev pub pop_front : Peer → Peer
  pop_front p = record p { conn = record (p.conn) { message_queue = tail_of p.conn.message_queue } }

  -- The loop reads the front of the queue, handles it, and pops it; a panic leaves it there. `none`:
  -- the fuel ran out, which one unit for each queued message rules out.
  unfoldable pub process_loop : ℕ → Peer → Option (Bool × Peer)
  process_loop zero p = elim p.conn.message_queue [ [] ↦ some (true, p) | raw ∷ rest ↦ none ]
  process_loop (suc fuel) p = elim p.conn.message_queue [
    | [] ↦ some (true, p)
    | raw ∷ rest ↦
        let (handled, q) = process_one raw p in
        elim handled [ true ↦ process_loop fuel (pop_front q) | false ↦ some (false, q) ]
  ]

  unfoldable pub process_messages : Peer → Option (Bool × Peer)
  process_messages p = process_loop (length p.conn.message_queue) p

  abbrev pub push_back : Bytes → Peer → Peer
  push_back bytes p = record p {
    conn = record (p.conn) { message_queue = p.conn.message_queue ++ (bytes ∷ []) };
  }

  -- The frame that finds an empty queue starts the loop; any other waits for it.
  unfoldable pub handle_message : Bytes → Peer → Option (Bool × Peer)
  handle_message bytes p =
      let q = push_back bytes p in
      if length q.conn.message_queue == 1 then process_messages q else some (true, q)
