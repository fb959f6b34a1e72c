-- ===== src/Tests/Server.antt =====
-- Loads of documents and sockets on concrete inputs.
use hocuspocu_rs.Base.{
  ℕ, ◌≡◌, ◌≢◌, refl, inl, inr, true, false, [], ◌∷◌, ◌++◌, none, some, Bytes, Str, text, get, map,
  arith,
}
use hocuspocu_rs.Codec
use hocuspocu_rs.Codec.Utf8.{is_utf8}
use hocuspocu_rs.Types
use hocuspocu_rs.Common.RoutingKey.{parse_routing_key}
use hocuspocu_rs.Base.{All, insert, remove, contains_key}
use hocuspocu_rs.Codec.{
  Decoder, write_var_uint, write_var_string, read_var_string, read_var_uint, has_content,
  unexpected_end,
}
use hocuspocu_rs.Client
use hocuspocu_rs.Client.{Hooks, Client}
use hocuspocu_rs.Client.AuthFrame.{IsAuthFrame, IsNewKey}
use hocuspocu_rs.Client.Drain.{IsEarly, AreAlike}
use hocuspocu_rs.Client.Events.{frame, run}
use hocuspocu_rs.Client.Gate.{run-refused, run-writable}
use hocuspocu_rs.Client.Handshake.{handle_message}
use hocuspocu_rs.Client.Refusal.{IsDenied, handle_message-refused}
use hocuspocu_rs.Client.Stuck.{as_event, truncated_auth_never_connects}
use hocuspocu_rs.Client.Waiting.{Accepts, early_as_late}
use hocuspocu_rs.Hocuspocus.Loading as Loads
use hocuspocu_rs.Hocuspocus.Loading.{returned, initial, load, failed_concurrently}
use hocuspocu_rs.Hocuspocus.Blank.{is_blank}
use hocuspocu_rs.Hocuspocus.SingleFlight.{holding, run-single_flight}
use hocuspocu_rs.Hocuspocus.Races.{goes, second_caller_fails, second_load_replaces}
use hocuspocu_rs.Receiver.Replies.{sync_frame}
use hocuspocu_rs.Tests.{toy, notes, alice, open_sinks, document}

abbrev ask_notes : ℕ → Str
ask_notes i = notes

run-single_flight_example :
    holding ((Loads.run (goes 3 1 (inr 7) ++ goes 2 2 (inr 7)) (initial ask_notes)).calls 2)
    ≢ some notes
unfolding Loads.run Loads.step Loads.advance initial is_blank get insert
run-single_flight_example =
    run-single_flight ask_notes (goes 3 1 (inr 7) ++ goes 2 2 (inr 7)) 1 2 notes (omega arith) refl

second_caller_fails_example :
    let s = Loads.run (goes 3 1 (inr 7) ++ goes 7 2 (inr 7)) (initial ask_notes) in
    (s.calls 1 ≡ load notes 0) × (s.calls 2 ≡ returned (inl failed_concurrently))
unfolding is_blank
second_caller_fails_example = second_caller_fails ask_notes 1 2 (inr 7) (omega arith) refl refl

second_load_replaces_example :
    let s =
      Loads.run (goes 2 2 (inr 8) ++ goes 7 1 (inr 7) ++ goes 5 2 (inr 8)) (initial ask_notes) in
    (s.calls 1 ≡ returned (inr 7))
    × (s.calls 2 ≡ returned (inr 8))
    × (get notes s.tables.documents ≡ some 8)
unfolding is_blank
second_load_replaces_example = second_load_replaces ask_notes 1 2 7 8 (omega arith) refl refl

-- Hooks that accept every client, and hooks that accept none.
abbrev open_hooks : Hooks
open_hooks = record {
  on_connect = λ n name p. inr none;
  on_authenticate = λ n name token p. inr (some 5);
  create_document = λ n name p. inr 0;
  new_v4 = λ n. 65 ∷ [];
  on_token_sync = λ token. none;
  before_handle_message = λ id bytes. none;
  before_sync = λ id kind bytes. none;
}

abbrev shut_hooks : Hooks
shut_hooks = record open_hooks { on_authenticate = λ n name token p. inl [] }

abbrev socket : Client toy
socket = Client.new toy alice 0 0 0 (λ k. document false) open_sinks

abbrev auth_bytes : Bytes
auth_bytes =
    write_var_string (write_var_uint (write_var_uint (write_var_string [] notes) 2) 0) (text "t")

-- The address and the type alone.
abbrev short_bytes : Bytes
short_bytes = write_var_uint (write_var_string [] notes) 2

abbrev early_bytes : Bytes
early_bytes = sync_frame notes 0 2 (5 ∷ [])

abbrev at : Bytes → ℕ → Decoder
at bytes pos = record { bytes = bytes; pos = pos }

auth_bytes-IsAuthFrame : IsAuthFrame notes (text "t") none auth_bytes
unfolding write_var_string write_var_uint Codec.var_uint_bytes Codec.var_uint_byte read_var_string
    read_var_uint Codec.read_groups Codec.add_group Codec.take_bytes is_utf8 Codec.new has_content
    Types.code
auth_bytes-IsAuthFrame = record {
  past_address = at auth_bytes 6;
  past_type = at auth_bytes 7;
  past_sub_type = at auth_bytes 8;
  past_token = at auth_bytes 10;
  sub_type = 0;
  address = refl;
  is_auth = refl;
  has_sub_type = refl;
  has_token = refl;
  has_version = inl refl;
}

-- The same with the version of the provider behind the token.
abbrev versioned_bytes : Bytes
versioned_bytes = write_var_string auth_bytes (text "4.1.0")

versioned_bytes-IsAuthFrame : IsAuthFrame notes (text "t") (some (text "4.1.0")) versioned_bytes
unfolding write_var_string write_var_uint Codec.var_uint_bytes Codec.var_uint_byte read_var_string
    read_var_uint Codec.read_groups Codec.add_group Codec.take_bytes is_utf8 Codec.new has_content
    Types.code
versioned_bytes-IsAuthFrame = record {
  past_address = at versioned_bytes 6;
  past_type = at versioned_bytes 7;
  past_sub_type = at versioned_bytes 8;
  past_token = at versioned_bytes 10;
  sub_type = 0;
  address = refl;
  is_auth = refl;
  has_sub_type = refl;
  has_token = refl;
  has_version = (refl, at versioned_bytes 16, refl);
}

early_bytes-IsEarly : IsEarly notes (1, early_bytes)
unfolding sync_frame write_var_string write_var_uint Codec.var_uint_bytes Codec.var_uint_byte
    Codec.write_var_uint8_array read_var_string read_var_uint Codec.read_groups Codec.add_group
    Codec.take_bytes is_utf8 Codec.new Types.code
early_bytes-IsEarly = (at early_bytes 6, at early_bytes 7, 0, refl, refl, omega arith)

socket-IsNewKey : (h : Hooks) → IsNewKey toy h notes socket
unfolding Client.new parse_routing_key get
socket-IsNewKey h = record {
  unconnected = refl;
  unnamed = refl;
  unqueued = refl;
  unestablished = refl;
}

run-refused_example :
    get notes
      (run toy shut_hooks
        (frame 1 early_bytes ∷ frame 2 auth_bytes ∷ [])
        socket).1.document_connections
    ≡ none
unfolding parse_routing_key
run-refused_example =
    run-refused toy shut_hooks notes (λ n token p answer e. cc)
      (frame 1 early_bytes ∷ frame 2 auth_bytes ∷ []) alice 0 0 0 (λ k. document false) open_sinks
      notes refl

run-writable_example :
    All
      (λ e. e.1.1.read_only ≡ false)
      (run toy open_hooks (frame 1 auth_bytes ∷ []) socket).1.document_connections
run-writable_example =
    run-writable toy open_hooks (frame 1 auth_bytes ∷ []) alice 0 0 0 (λ k. document false)
      open_sinks

truncated_auth_never_connects_example :
    let c' =
      (run toy open_hooks
        (map as_event ((1, short_bytes) ∷ (2, auth_bytes) ∷ (3, early_bytes) ∷ []))
        socket).1 in
    (get notes c'.document_connections ≡ none) × (c'.hook_calls ≡ socket.hook_calls)
unfolding sync_frame write_var_string write_var_uint Codec.var_uint_bytes Codec.var_uint_byte
    Codec.write_var_uint8_array read_var_string read_var_uint Codec.read_groups Codec.add_group
    Codec.take_bytes is_utf8 Codec.new Types.code Client.new parse_routing_key get contains_key
truncated_auth_never_connects_example =
    truncated_auth_never_connects toy open_hooks notes 1 short_bytes (at short_bytes 6)
      (at short_bytes 7) unexpected_end socket ((2, auth_bytes) ∷ (3, early_bytes) ∷ []) refl refl
      refl refl refl refl ((at auth_bytes 6, refl), ((at early_bytes 6, refl), tt))

handle_message-refused_example :
    ((handle_message toy shut_hooks 1 auth_bytes socket).0 ≡ true)
    × IsDenied toy shut_hooks notes
        (text "t")
        (text "permission-denied")
        none
        socket
        (handle_message toy shut_hooks 1 auth_bytes socket).1
unfolding Client.new get
handle_message-refused_example =
    handle_message-refused toy shut_hooks notes (text "t") (text "permission-denied") none 1 socket
      (socket-IsNewKey shut_hooks) refl auth_bytes auth_bytes-IsAuthFrame
      (inr (none, [], refl, refl, refl))

socket-Accepts : Accepts toy open_hooks notes (text "t") (some (text "4.1.0")) socket
unfolding Client.new parse_routing_key
socket-Accepts = record {
  context = none;
  new_context = some 5;
  document = 0;
  connects = refl;
  authenticates = refl;
  creates = refl;
  is_open = refl;
}

early_as_late_example :
    AreAlike toy open_hooks notes
      (run toy open_hooks
        (map as_event ((1, early_bytes) ∷ []) ++ (frame 2 versioned_bytes ∷ []))
        socket)
      (run toy open_hooks (frame 2 versioned_bytes ∷ map as_event ((1, early_bytes) ∷ [])) socket)
early_as_late_example =
    early_as_late toy open_hooks notes socket (socket-IsNewKey open_hooks) (text "t")
      (some (text "4.1.0")) socket-Accepts ((1, early_bytes) ∷ []) 2 versioned_bytes
      (early_bytes-IsEarly, tt) versioned_bytes-IsAuthFrame

-- The accepted client is connected.
joined :
    contains_key notes (run toy open_hooks (frame 2 auth_bytes ∷ []) socket).1.document_connections
    ≡ true
unfolding run handle_message hocuspocu_rs.Client.Handshake.handle_queueing_message
    hocuspocu_rs.Client.Handshake.setup_new_connection hocuspocu_rs.Client.Handshake.drain
    hocuspocu_rs.Client.connection_for sync_frame write_var_string write_var_uint
    Codec.var_uint_bytes Codec.var_uint_byte Codec.write_var_uint8_array read_var_string
    read_var_uint Codec.read_groups Codec.add_group Codec.take_bytes is_utf8 Codec.new has_content
    Types.code Client.new parse_routing_key get insert contains_key remove
    hocuspocu_rs.Connection.handle_message hocuspocu_rs.Connection.init_awareness
    hocuspocu_rs.Document.has_awareness_states hocuspocu_rs.Base.bytes_eq hocuspocu_rs.Sink.send
    hocuspocu_rs.Sink.send_sink hocuspocu_rs.Sink.set_sink hocuspocu_rs.Document.add_connection
joined = refl
