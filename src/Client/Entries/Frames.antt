-- ===== src/Client/Entries/Frames.antt =====
-- The steps of `handle_message` one by one: each keeps what holds of every connection.
use hocuspocu_rs.Base.{
  ℕ, ◌+◌, ◌≡◌, refl, ◌⊎◌, inl, inr, List, [], ◌∷◌, Option, none, some, Bytes, Str, get, All-insert,
  All-get, contains_key, not, ◌||◌, ◌==◌, Bool-cases, Bool, if◌then◌else◌, true, false, ltb, ◌-◌,
  All-remove,
}
use hocuspocu_rs.Base.Outcome.{Outcome, ok, err, panic}
use hocuspocu_rs.Codec
use hocuspocu_rs.Codec.{Decoder, IoError, read_var_uint, read_var_string, has_content}
use hocuspocu_rs.Common.RoutingKey.{parse_routing_key}
use hocuspocu_rs.Connection
use hocuspocu_rs.Connection.{Connection}
use hocuspocu_rs.Hocuspocus.Loading.{Loaded}
use hocuspocu_rs.Sink.{is_closing}
use hocuspocu_rs.Types.{Context, code, auth}
use hocuspocu_rs.Client.{
  HookPayloadEntry, Hooks, Client, in_context, found, call, on_authenticate_call, on_connect_call,
  peer_of, close_all, handle_close, ping_round, finish_close, cleanup_document_state,
}
use hocuspocu_rs.Client.Handshake.{
  initialise, made, entered, welcomed, establish, join, set_up, setup_new_connection, accept,
  after_authenticate, after_connect, with_payload, with_version, with_token, with_sub_type, by_type,
  enqueue, behind_address, handle_queueing_message, first_frame, dispatch, route, handle_message,
}
use hocuspocu_rs.Yrs.{Yrs}
use hocuspocu_rs.Client.Events.{SocketEvent, frame, end_of_socket, timer, callback, on_event, run}
use hocuspocu_rs.Common.{connection_timeout}
use hocuspocu_rs.Client.Entries.{
  IsKept, Holds, forward-Holds, put_peer-Holds, and_then-Holds, drain-Holds, finish-Holds,
  denied-Holds, close_all-Holds,
}

module _ (y : Yrs) (h : Hooks) (P : Str × (ℕ × Connection) → Type 0) (Q : HookPayloadEntry → Type 0)
    (May : Str → Type 0) (inv : IsKept y h P Q May) where
  module _ (raw_key : Str) where
    abbrev name : Str
    name = (parse_routing_key raw_key).0

    initialise-Holds :
        (doc : ℕ) (conn : Connection) (c : Client y)
        → P (raw_key, (doc, conn))
        → Holds y h P Q May c
        → Holds y h P Q May (initialise y raw_key doc conn c).1
    initialise-Holds doc conn c k hc =
        let greeted =
          put_peer-Holds y h P Q May inv raw_key doc
            (Connection.init_awareness y (peer_of y doc conn c)) c
            (inv.greets raw_key doc (peer_of y doc conn c) k) hc in
        finish-Holds y h P Q May inv conn.id _ (
          drain-Holds y h P Q May inv raw_key _ _
            (record { conns = greeted.conns; payloads = greeted.payloads }))

    join-Holds :
        (session : Option Str) (p : HookPayloadEntry) (r : Loaded) (c : Client y)
        → May raw_key
        → Q p
        → Holds y h P Q May c
        → Holds y h P Q May (join y h raw_key name session p r c).1
    join-Holds session p (inl e) c m q hc = denied-Holds y h P Q May inv raw_key _ c hc
    join-Holds session p (inr doc) c m q hc =
        let entry = inv.enters raw_key doc (h.new_v4 c.asked) c.ws name c.socket_id session p m q in
        let c' = entered y h raw_key name session p doc c in
        let hc' : Holds y h P Q May c' = record {
          conns = All-insert P raw_key _ c.document_connections entry hc.conns;
          payloads = hc.payloads;
        } in
        elim (Bool-cases (is_closing (c.sinks c.ws).state)) [
          | inl gone ↦ rw gone (close_all-Holds y h P Q May inv none c' hc')
          | inr here ↦
              rw here (initialise-Holds doc (made y h raw_key name session p c) c' entry hc')
        ]

    set_up-Holds :
        (session : Option Str) (o : Option HookPayloadEntry) (c : Client y)
        → get raw_key c.hook_payloads ≡ o
        → May raw_key
        → Holds y h P Q May c
        → Holds y h P Q May (set_up y h raw_key name session o c).1
    set_up-Holds session none c e m hc = hc
    set_up-Holds session (some p) c e m hc =
        join-Holds session p (h.create_document c.asked name p) (record c { asked = c.asked + 1 }) m
          (All-get (λ e. Q e.1) raw_key p _ hc.payloads e)
          (record { conns = hc.conns; payloads = hc.payloads })

    accept-Holds :
        (p : HookPayloadEntry) (c : Client y)
        → May raw_key
        → Q p
        → Holds y h P Q May c
        → Holds y h P Q May (accept y h raw_key name p c).1
    unfolding setup_new_connection
    accept-Holds p c m q hc =
        let c' = welcomed y h raw_key name p c in
        set_up-Holds (parse_routing_key raw_key).1 (get raw_key c'.hook_payloads) c' refl m
          (record {
            conns = hc.conns;
            payloads = All-insert (λ e. Q e.1) raw_key p _ q hc.payloads;
          })

    context-Q : (context : Option Context) (p : HookPayloadEntry) → Q p → Q (in_context context p)
    context-Q none p q = q
    context-Q (some context) p q = inv.with_context p context q

    after_authenticate-Holds :
        (n : ℕ) (token : Str) (p : HookPayloadEntry) (r : Str ⊎ Option Context) (c : Client y)
        → h.on_authenticate n name token p ≡ r
        → Q p
        → Holds y h P Q May c
        → Holds y h P Q May (after_authenticate y h raw_key name p r c).1
    after_authenticate-Holds n token p (inl e) c answer q hc =
        denied-Holds y h P Q May inv raw_key _ c hc
    after_authenticate-Holds n token p (inr context) c answer q hc =
        accept-Holds _ c (inv.admits raw_key token n p context answer)
          (inv.with_authenticated _ (context-Q context p q)) hc

    after_connect-Holds :
        (token : Str) (p : HookPayloadEntry) (r : Str ⊎ Option Context) (c : Client y)
        → Q p
        → Holds y h P Q May c
        → Holds y h P Q May (after_connect y h raw_key name token p r c).1
    after_connect-Holds token p (inl e) c q hc = denied-Holds y h P Q May inv raw_key _ c hc
    after_connect-Holds token p (inr context) c q hc =
        after_authenticate-Holds c.asked token (in_context context p)
          (h.on_authenticate c.asked name token (in_context context p))
          (call y (on_authenticate_call name token) c) refl (context-Q context p q)
          (record { conns = hc.conns; payloads = hc.payloads })

    with_payload-Holds :
        (token : Str) (version : Option Str) (o : Option HookPayloadEntry) (c : Client y)
        → get raw_key c.hook_payloads ≡ o
        → Holds y h P Q May c
        → Holds y h P Q May (with_payload y h raw_key name token version o c).1
    with_payload-Holds token version none c e hc = hc
    with_payload-Holds token version (some p) c e hc =
        let p' = record p { provider_version = version } in
        after_connect-Holds token p' (h.on_connect c.asked name p')
          (call y (on_connect_call name) c)
          (inv.with_provider p version (All-get (λ e. Q e.1) raw_key p _ hc.payloads e))
          (record { conns = hc.conns; payloads = hc.payloads })

    with_version-Holds :
        (token : Str) (r : Outcome IoError Str × Decoder) (c : Client y)
        → Holds y h P Q May c
        → Holds y h P Q May (with_version y h raw_key name token r c).1
    with_version-Holds token (ok version, d) c hc =
        with_payload-Holds token (some version) (get raw_key c.hook_payloads) c refl hc
    with_version-Holds token (err e, d) c hc =
        with_payload-Holds token none (get raw_key c.hook_payloads) c refl hc
    with_version-Holds token (panic, d) c hc = hc

    with_token-Holds :
        (r : Outcome IoError Str × Decoder) (c : Client y)
        → Holds y h P Q May c
        → Holds y h P Q May (with_token y h raw_key name r c).1
    with_token-Holds (ok token, d) c hc = elim (Bool-cases (has_content d)) [
      | inl more ↦ rw more (with_version-Holds token (read_var_string d) c hc)
      | inr done ↦ rw done (with_payload-Holds token none (get raw_key c.hook_payloads) c refl hc)
    ]
    with_token-Holds (err e, d) c hc = hc
    with_token-Holds (panic, d) c hc = hc

    with_sub_type-Holds :
        (r : Outcome IoError ℕ × Decoder) (c : Client y)
        → Holds y h P Q May c
        → Holds y h P Q May (with_sub_type y h raw_key name r c).1
    with_sub_type-Holds (ok t, d) c hc = with_token-Holds (read_var_string d) c hc
    with_sub_type-Holds (err e, d) c hc = hc
    with_sub_type-Holds (panic, d) c hc = hc

    enqueue-Holds :
        (bytes : Bytes) (o : Option (List Bytes)) (c : Client y)
        → Holds y h P Q May c
        → Holds y h P Q May (enqueue y h raw_key name bytes o c)
    enqueue-Holds bytes none c hc = hc
    enqueue-Holds bytes (some q) c hc = record { conns = hc.conns; payloads = hc.payloads }

    by_type-Holds :
        (bytes : Bytes) (r : Outcome IoError ℕ × Decoder) (c : Client y)
        → Holds y h P Q May c
        → Holds y h P Q May (by_type y h raw_key name bytes r c).1
    by_type-Holds bytes (ok t, d) c hc =
        elim (Bool-cases
          (not (t == code auth) || contains_key raw_key c.document_connections_established)) [
            | inl waits ↦ rw waits (enqueue-Holds bytes (get raw_key c.incoming_message_queue) c hc)
            | inr asks ↦ rw asks (
                with_sub_type-Holds (read_var_uint d) (establish y h raw_key name c)
                  (record { conns = hc.conns; payloads = hc.payloads }))
          ]
    by_type-Holds bytes (err e, d) c hc = record { conns = hc.conns; payloads = hc.payloads }
    by_type-Holds bytes (panic, d) c hc = hc

    behind_address-Holds :
        (bytes : Bytes) (r : Outcome IoError Str × Decoder) (c : Client y)
        → Holds y h P Q May c
        → Holds y h P Q May (behind_address y h raw_key name bytes r c).1
    behind_address-Holds bytes (ok s, d) c hc = by_type-Holds bytes (read_var_uint d) c hc
    behind_address-Holds bytes (err e, d) c hc = by_type-Holds bytes (read_var_uint d) c hc
    behind_address-Holds bytes (panic, d) c hc = hc

    first_frame-Holds :
        (c : Client y) → Holds y h P Q May c → Holds y h P Q May (first_frame y raw_key c)
    first_frame-Holds c hc = elim (Bool-cases (contains_key raw_key c.incoming_message_queue)) [
      | inl known ↦ rw known hc
      | inr new ↦ rw new (record {
        conns = hc.conns;
        payloads =
            All-insert (λ e. Q e.1) raw_key _ _ (inv.default_payload c.default_context) hc.payloads;
      })
    ]

    dispatch-Holds :
        (bytes : Bytes) (c : Client y) (a b : Option (ℕ × Connection))
        → get raw_key c.document_connections ≡ a
        → get name c.document_connections ≡ b
        → Holds y h P Q May c
        → Holds y h P Q May (dispatch y h raw_key name bytes (found raw_key name a b) c).1
    unfolding handle_queueing_message
    dispatch-Holds bytes c (some v) b e d hc =
        forward-Holds y h P Q May inv raw_key name bytes c (some v) b e d hc
    dispatch-Holds bytes c none (some v) e d hc =
        forward-Holds y h P Q May inv raw_key name bytes c none (some v) e d hc
    dispatch-Holds bytes c none none e d hc =
        behind_address-Holds bytes (read_var_string (Codec.new bytes)) (first_frame y raw_key c)
          (first_frame-Holds c hc)

  route-Holds :
      (bytes : Bytes) (r : Outcome IoError Str × Decoder) (c : Client y)
      → Holds y h P Q May c
      → Holds y h P Q May (route y h bytes r c).1
  route-Holds bytes (ok raw_key, d) c hc =
      dispatch-Holds raw_key bytes c (get raw_key c.document_connections)
        (get (name raw_key) c.document_connections) refl refl hc
  route-Holds bytes (err e, d) c hc = record { conns = hc.conns; payloads = hc.payloads }
  route-Holds bytes (panic, d) c hc = hc

  pub handle_message-Holds :
      (now : ℕ) (bytes : Bytes) (c : Client y)
      → Holds y h P Q May c
      → Holds y h P Q May (handle_message y h now bytes c).1
  unfolding handle_message
  handle_message-Holds now bytes c hc =
      route-Holds bytes (read_var_string (Codec.new bytes))
        (record c { last_message_received_at = now })
        (record { conns = hc.conns; payloads = hc.payloads })

  if-Holds :
      (b : Bool) (c d : Client y)
      → Holds y h P Q May c
      → Holds y h P Q May d
      → Holds y h P Q May (if b then c else d)
  if-Holds true c d hc hd = hc
  if-Holds false c d hc hd = hd

  ping_round-Holds :
      (timeout_ms now : ℕ) (c : Client y)
      → Holds y h P Q May c
      → Holds y h P Q May (ping_round y timeout_ms now c)
  unfolding ping_round
  ping_round-Holds timeout_ms now c hc =
      let closed = close_all-Holds y h P Q May inv (some connection_timeout) c hc in
      if-Holds c.pinging _ c
        (if-Holds (ltb timeout_ms (now - c.last_message_received_at))
          (record (close_all y (some connection_timeout) c) { pinging = false }) c
          (record { conns = closed.conns; payloads = closed.payloads }) hc)
        hc

  event-Holds :
      (event : SocketEvent) (c : Client y)
      → Holds y h P Q May c
      → Holds y h P Q May (on_event y h event c).1
  unfolding handle_close finish_close cleanup_document_state
  event-Holds (frame now bytes) c hc = handle_message-Holds now bytes c hc
  event-Holds (end_of_socket event) c hc =
      let closed = close_all-Holds y h P Q May inv event c hc in
      record { conns = closed.conns; payloads = closed.payloads }
  event-Holds (timer timeout_ms now) c hc = ping_round-Holds timeout_ms now c hc
  event-Holds (callback raw_key document_name) c hc = record {
    conns = All-remove P raw_key _ hc.conns;
    payloads = All-remove (λ e. Q e.1) raw_key _ hc.payloads;
  }

  -- Whatever happens to the socket.
  pub run-Holds :
      (events : List SocketEvent) (c : Client y)
      → Holds y h P Q May c
      → Holds y h P Q May (run y h events c).1
  unfolding run
  run-Holds [] c hc = hc
  run-Holds (event ∷ events) c hc =
      and_then-Holds y h P Q May inv _ (run y h events) (event-Holds event c hc)
        (λ c' hc'. run-Holds events c' hc')
