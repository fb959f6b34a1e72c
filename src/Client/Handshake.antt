-- ===== src/Client/Handshake.antt =====
-- client_connection.rs: what a frame does before its document is connected: `handle_message`,
-- `handle_queueing_message` and `setup_new_connection`.
use hocuspocu_rs.Base.{
  ℕ, ◌+◌, ◌⊎◌, inl, inr, Bool, true, false, not, ◌||◌, List, [], ◌∷◌, ◌++◌, Option, none, some,
  Bytes, Str, get, insert, remove, contains_key, ◌==◌, if◌then◌else◌,
}
use hocuspocu_rs.Base.Outcome.{Outcome, ok, err, panic}
use hocuspocu_rs.Codec
use hocuspocu_rs.Codec.{Decoder, IoError, read_var_uint, read_var_string, has_content}
use hocuspocu_rs.Common.{reset_connection, unauthorized}
use hocuspocu_rs.Common.RoutingKey.{parse_routing_key}
use hocuspocu_rs.Connection
use hocuspocu_rs.Connection.{Connection, message_address_of}
use hocuspocu_rs.Document.{add_connection}
use hocuspocu_rs.Hocuspocus.Loading.{Loaded}
use hocuspocu_rs.Message
use hocuspocu_rs.Message.{to_vec}
use hocuspocu_rs.Sink.{is_closing}
use hocuspocu_rs.Types.{code, auth, Context}
use hocuspocu_rs.Yrs.{Yrs}
use hocuspocu_rs.Client.{
  HookPayloadEntry, Hooks, Client, on_connect_call, on_authenticate_call, connected_call,
  default_config, or_denied, in_context, authenticated, connection_for, found, peer_of, put_peer,
  forward, close_all, call, reply, close_socket, denied, stored, and_then,
}

module _ (y : Yrs) where
  unfoldable pub drain : Str → List Bytes → Client y → Bool × Client y
  drain raw_key [] c = (true, c)
  drain raw_key (msg ∷ queued) c =
      and_then y (forward y msg c (stored y raw_key c)) (drain raw_key queued)

  abbrev pub queued : Option (List Bytes) → List Bytes
  queued none = []
  queued (some q) = q

  abbrev pub finish_setup : Str → Bool × Client y → Bool × Client y
  finish_setup conn_id (true, c) = (true, call y (connected_call conn_id) c)
  finish_setup conn_id (false, c) = (false, c)

  -- From `init_awareness` on.
  abbrev pub initialise : Str → ℕ → Connection → Client y → Bool × Client y
  initialise raw_key doc conn c =
      let c' = put_peer y raw_key doc (Connection.init_awareness y (peer_of y doc conn c)) c in
      finish_setup conn.id (
        drain raw_key (queued (get raw_key c'.incoming_message_queue))
          (record c' { incoming_message_queue = remove raw_key c'.incoming_message_queue }))

  module _ (h : Hooks) (raw_key document_name : Str) where
    abbrev pub made : Option Str → HookPayloadEntry → Client y → Connection
    made session_id p c =
        connection_for h (h.new_v4 c.asked) c.ws document_name c.socket_id session_id p

    -- The connection is known to its document and to the socket.
    abbrev pub entered : Option Str → HookPayloadEntry → ℕ → Client y → Client y
    entered session_id p doc c =
        let known =
          add_connection y (made session_id p c).id c.socket_id p.connection_config.read_only
            (message_address_of document_name session_id) c.ws (c.documents doc) in
        record c {
          asked = c.asked + 1;
          documents = λ k. if doc == k then known else c.documents k;
          document_connections = insert raw_key (doc, made session_id p c) c.document_connections;
        }

    abbrev pub join : Option Str → HookPayloadEntry → Loaded → Client y → Bool × Client y
    join session_id p (inl e) c = (true, denied y raw_key (or_denied e) c)
    join session_id p (inr doc) c =
        if is_closing (c.sinks c.ws).state
        then (true, close_all y none (entered session_id p doc c))
        else initialise raw_key doc (made session_id p c) (entered session_id p doc c)

    abbrev pub set_up : Option Str → Option HookPayloadEntry → Client y → Bool × Client y
    set_up session_id none c = (true, c)
    set_up session_id (some p) c =
        join session_id p (h.create_document c.asked document_name p)
          (record c { asked = c.asked + 1 })

    unfoldable pub setup_new_connection : Option Str → Client y → Bool × Client y
    setup_new_connection session_id c = set_up session_id (get raw_key c.hook_payloads) c

    -- The payload is stored, and the client told.
    abbrev pub welcomed : HookPayloadEntry → Client y → Client y
    welcomed p c =
        reply y
          (to_vec (Message.write_authenticated p.connection_config.read_only (Message.new raw_key)))
          (record c { hook_payloads = insert raw_key p c.hook_payloads })

    abbrev pub accept : HookPayloadEntry → Client y → Bool × Client y
    accept p c = setup_new_connection (parse_routing_key raw_key).1 (welcomed p c)

    abbrev pub after_authenticate :
        HookPayloadEntry → Str ⊎ Option Context → Client y → Bool × Client y
    after_authenticate p (inl e) c = (true, denied y raw_key (or_denied e) c)
    after_authenticate p (inr context) c = accept (authenticated (in_context context p)) c

    abbrev pub authenticate : Str → HookPayloadEntry → Client y → Bool × Client y
    authenticate token p c =
        after_authenticate p (h.on_authenticate c.asked document_name token p)
          (call y (on_authenticate_call document_name token) c)

    abbrev pub after_connect :
        Str → HookPayloadEntry → Str ⊎ Option Context → Client y → Bool × Client y
    after_connect token p (inl e) c = (true, denied y raw_key e c)
    after_connect token p (inr context) c = authenticate token (in_context context p) c

    abbrev pub ask : Str → HookPayloadEntry → Client y → Bool × Client y
    ask token p c =
        after_connect token p (h.on_connect c.asked document_name p)
          (call y (on_connect_call document_name) c)

    abbrev pub with_payload :
        Str → Option Str → Option HookPayloadEntry → Client y → Bool × Client y
    with_payload token version none c = (true, c)
    with_payload token version (some p) c = ask token (record p { provider_version = version }) c

    abbrev pub with_version : Str → Outcome IoError Str × Decoder → Client y → Bool × Client y
    with_version token (ok version, d) c =
        with_payload token (some version) (get raw_key c.hook_payloads) c
    with_version token (err _, d) c = with_payload token none (get raw_key c.hook_payloads) c
    with_version token (panic, d) c = (false, c)

    abbrev pub with_token : Outcome IoError Str × Decoder → Client y → Bool × Client y
    with_token (ok token, d) c =
        if has_content d
        then with_version token (read_var_string d) c
        else with_payload token none (get raw_key c.hook_payloads) c
    with_token (err _, d) c = (true, c)
    with_token (panic, d) c = (false, c)

    abbrev pub with_sub_type : Outcome IoError ℕ × Decoder → Client y → Bool × Client y
    with_sub_type (ok _, d) c = with_token (read_var_string d) c
    with_sub_type (err _, d) c = (true, c)
    with_sub_type (panic, d) c = (false, c)

    abbrev pub enqueue : Bytes → Option (List Bytes) → Client y → Client y
    enqueue bytes none c = c
    enqueue bytes (some q) c = record c {
      incoming_message_queue = insert raw_key (q ++ (bytes ∷ [])) c.incoming_message_queue;
    }

    abbrev pub establish : Client y → Client y
    establish c = record c {
      document_connections_established = insert raw_key tt c.document_connections_established;
    }

    abbrev pub by_type : Bytes → Outcome IoError ℕ × Decoder → Client y → Bool × Client y
    by_type bytes (ok msg_type, d) c =
        if not (msg_type == code auth) || contains_key raw_key c.document_connections_established
        then (true, enqueue bytes (get raw_key c.incoming_message_queue) c)
        else with_sub_type (read_var_uint d) (establish c)
    by_type bytes (err _, d) c = (true, close_socket y reset_connection c)
    by_type bytes (panic, d) c = (false, c)

    abbrev pub behind_address : Bytes → Outcome IoError Str × Decoder → Client y → Bool × Client y
    behind_address bytes (ok _, d) c = by_type bytes (read_var_uint d) c
    behind_address bytes (err _, d) c = by_type bytes (read_var_uint d) c
    behind_address bytes (panic, d) c = (false, c)

    unfoldable pub handle_queueing_message : Bytes → Client y → Bool × Client y
    handle_queueing_message bytes c = behind_address bytes (read_var_string (Codec.new bytes)) c

  -- The first frame for a key makes a queue and a payload for it.
  abbrev pub first_frame : Str → Client y → Client y
  first_frame raw_key c = if contains_key raw_key c.incoming_message_queue then c else record c {
    incoming_message_queue = insert raw_key [] c.incoming_message_queue;
    hook_payloads =
        insert raw_key
          (record {
            connection_config = default_config;
            context = c.default_context;
            provider_version = none;
          })
          c.hook_payloads;
  }

  abbrev pub dispatch :
      Hooks → Str → Str → Bytes → Option (Str × (ℕ × Connection)) → Client y → Bool × Client y
  dispatch h raw_key document_name bytes (some target) c = forward y bytes c (some target)
  dispatch h raw_key document_name bytes none c =
      handle_queueing_message h raw_key document_name bytes (first_frame raw_key c)

  abbrev pub route : Hooks → Bytes → Outcome IoError Str × Decoder → Client y → Bool × Client y
  route h bytes (ok raw_key, d) c =
      let document_name = (parse_routing_key raw_key).0 in
      dispatch h raw_key document_name bytes
        (found raw_key document_name (get raw_key c.document_connections)
          (get document_name c.document_connections))
        c
  route h bytes (err _, d) c = (true, close_socket y unauthorized c)
  route h bytes (panic, d) c = (false, c)

  unfoldable pub handle_message : Hooks → ℕ → Bytes → Client y → Bool × Client y
  handle_message h now bytes c =
      route h bytes (read_var_string (Codec.new bytes))
        (record c { last_message_received_at = now })
