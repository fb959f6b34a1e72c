-- ===== src/Client/Waiting.antt =====
-- Frames that come before their authentication: they wait in order, and are then handled as if they
-- had come behind it.
use hocuspocu_rs.Base.{
  ℕ, ◌+◌, ◌≡◌, refl, inr, Bool, true, false, List, [], ◌∷◌, ◌++◌, Option, Bytes, Str, insert,
  remove, get-insert_self, append_assoc, append-nil, contains_key_of_none, contains_key-insert_self,
  arith, All, map, ==_iff, ◌==◌,
}
use hocuspocu_rs.Common.RoutingKey.{parse_routing_key}
use hocuspocu_rs.Connection
use hocuspocu_rs.Connection.{Connection}
use hocuspocu_rs.Types.{code, Context}
use hocuspocu_rs.Client.{Hooks, Client, HookPayloadEntry, and_then, put_peer, peer_of}
use hocuspocu_rs.Client.Handshake.{handle_message, handle_queueing_message, drain}
use hocuspocu_rs.Client.Events.{SocketEvent, frame, run, on_event}
use hocuspocu_rs.Client.AuthFrame.{
  IsAuthFrame, IsNewKey, asking, first_payload, asked_payload, handle_message-auth,
}
use hocuspocu_rs.Client.Stuck.{as_event}
use hocuspocu_rs.Yrs.{Yrs}
use hocuspocu_rs.Client.AuthFrame.{waiting, handle_message-auth_waiting}
use hocuspocu_rs.Client.Drain.{IsEarly, bytes_of, AreAlike, drain-run}
use hocuspocu_rs.Client.Handshake.{ask, finish_setup, made, entered, welcomed, setup_new_connection}
use hocuspocu_rs.Client.{
  authenticated, in_context, call, connected_call, on_connect_call, on_authenticate_call,
}
use hocuspocu_rs.Sink
use hocuspocu_rs.Sink.{is_closing, send_sink, set_sink}
use hocuspocu_rs.Base.{insert-insert, remove-insert}

-- Sending leaves the sinks open that are.
send-state :
    (k : ℕ) (bytes : Bytes) (sinks : Sink.Sinks)
    → ((Sink.send k bytes sinks).1 k).state ≡ (sinks k).state
unfolding Sink.send send_sink set_sink
send-state k bytes sinks = ground (arith, ==_iff k k)

module _ (y : Yrs) (h : Hooks) (key : Str) where
  abbrev name : Str
  name = (parse_routing_key key).0

  -- The hooks accept the client, the document is there, and the socket is open.
  pub record Accepts (token : Str) (version : Option Str) (c : Client y) : Type 0 where
    pub context : Option Context
    pub new_context : Option Context
    pub document : ℕ
    pub connects : h.on_connect c.asked name (asked_payload c.default_context version) ≡ inr context
    pub authenticates :
        h.on_authenticate
          (c.asked + 1)
          name
          token
          (in_context context (asked_payload c.default_context version))
        ≡ inr new_context
    pub creates :
        h.create_document (c.asked + 1 + 1) name (
          authenticated
            (in_context new_context (in_context context (asked_payload c.default_context version))))
        ≡ inr document
    pub is_open : is_closing (c.sinks c.ws).state ≡ false

  and_then_assoc :
      (r : Bool × Client y) (whole f g : Client y → Bool × Client y)
      → ((d : Client y) → whole d ≡ and_then y (f d) g)
      → and_then y r whole ≡ and_then y (and_then y r f) g
  and_then_assoc (true, d) whole f g e = e d
  and_then_assoc (false, d) whole f g e = refl

  run-append :
      (xs ys : List SocketEvent) (c : Client y)
      → run y h (xs ++ ys) c ≡ and_then y (run y h xs c) (run y h ys)
  unfolding run
  run-append [] ys c = refl
  run-append (x ∷ xs) ys c =
      and_then_assoc (on_event y h x c) (run y h (xs ++ ys)) (run y h xs) (run y h ys)
        (λ d. run-append xs ys d)

  module _ (c : Client y) (n : IsNewKey y h key c) where
    early_first :
        (now : ℕ) (bytes : Bytes)
        → IsEarly key (now, bytes)
        → handle_message y h now bytes c ≡ (true, waiting y h key (bytes ∷ []) now c)
    unfolding handle_message handle_queueing_message code
    early_first now bytes (d, d', t, address, kind, other) =
        let o : (t == 2) ≡ false = ground (arith, ==_iff t 2) in
        rw (
          address,
          n.unconnected,
          n.unnamed,
          contains_key_of_none key c.incoming_message_queue n.unqueued,
          address,
          kind,
          o,
          get-insert_self key [] c.incoming_message_queue,
          insert-insert key (bytes ∷ []) [] c.incoming_message_queue,
        )

    early_next :
        (queue : List Bytes) (before now : ℕ) (bytes : Bytes)
        → IsEarly key (now, bytes)
        → handle_message y h now bytes (waiting y h key queue before c)
          ≡ (true, waiting y h key (queue ++ (bytes ∷ [])) now c)
    unfolding handle_message handle_queueing_message code
    early_next queue before now bytes (d, d', t, address, kind, other) =
        let o : (t == 2) ≡ false = ground (arith, ==_iff t 2) in
        rw (
          address,
          n.unconnected,
          n.unnamed,
          contains_key-insert_self key queue c.incoming_message_queue,
          address,
          kind,
          o,
          get-insert_self key queue c.incoming_message_queue,
          insert-insert key (queue ++ (bytes ∷ [])) queue c.incoming_message_queue,
        )

    last_time : ℕ → List (ℕ × Bytes) → ℕ
    last_time before [] = before
    last_time before ((now, bytes) ∷ frames) = last_time now frames

    early_run :
        (frames : List (ℕ × Bytes)) (queue : List Bytes) (before : ℕ)
        → All (IsEarly key) frames
        → run y h (map as_event frames) (waiting y h key queue before c)
          ≡ (true, waiting y h key (queue ++ map bytes_of frames) (last_time before frames) c)
    unfolding run last_time
    early_run [] queue before early = rw (append-nil queue)
    early_run ((now, bytes) ∷ frames) queue before early = rw (
      early_next queue before now bytes early.0,
      early_run frames (queue ++ (bytes ∷ [])) now early.1,
      append_assoc queue (bytes ∷ []) (map bytes_of frames),
    )

    -- The state that the early frames leave, told by what the next frame does.
    early_auth :
        (token : Str) (version : Option Str) (frames : List (ℕ × Bytes)) (now : ℕ) (bytes : Bytes)
        → All (IsEarly key) frames
        → IsAuthFrame key token version bytes
        → run y h (map as_event frames ++ (frame now bytes ∷ [])) c
          ≡ and_then y
              (ask y h key name token
                (asked_payload c.default_context version)
                (asking y h key (map bytes_of frames) now c))
              (run y h [])
    unfolding run last_time
    early_auth token version [] now bytes early f =
        rw (handle_message-auth y h key token version now bytes c f n)
    early_auth token version ((at, first) ∷ frames) now bytes early f = rw (
      early_first at first early.0,
      run-append (map as_event frames) (frame now bytes ∷ []) (waiting y h key (first ∷ []) at c),
      early_run frames (first ∷ []) at early.1,
      handle_message-auth_waiting y h key token version now bytes c f n
          (first ∷ map bytes_of frames) (last_time at frames),
    )

    module _ (token : Str) (version : Option Str) (a : Accepts token version c) where
      abbrev accepted : HookPayloadEntry
      accepted = authenticated (
          in_context a.new_context (in_context a.context (asked_payload c.default_context version)))

      -- The state in which the hooks have accepted the client.
      abbrev base : List Bytes → ℕ → Client y
      base queue now =
          let asked =
            call y (on_authenticate_call name token)
              (call y (on_connect_call name) (asking y h key queue now c)) in
          record (welcomed y h key name accepted asked) { asked = c.asked + 1 + 1 + 1 }

      abbrev session : Option Str
      session = (parse_routing_key key).1

      -- The state in which the connection is greeted, and the queue is taken out.
      abbrev ready : ℕ → Client y
      ready now =
          let e = entered y h key name session accepted a.document (base [] now) in
          let conn = made y h key name session accepted (base [] now) in
          record (put_peer y key a.document
            (Connection.init_awareness y (peer_of y a.document conn e)) e) {
              incoming_message_queue = remove key c.incoming_message_queue;
            }

      abbrev id_of : ℕ → Str
      id_of now = (made y h key name session accepted (base [] now)).id

      ask-accepted :
          (queue : List Bytes) (now : ℕ)
          → ask y h key name token
              (asked_payload c.default_context version)
              (asking y h key queue now c)
            ≡ finish_setup y (id_of now) (drain y key queue (ready now))
      unfolding setup_new_connection
      ask-accepted queue now = rw (
        a.connects,
        a.authenticates,
        get-insert_self key accepted (insert key (first_payload c.default_context) c.hook_payloads),
        a.creates,
        send-state,
        a.is_open,
        get-insert_self key queue c.incoming_message_queue,
        remove-insert key queue c.incoming_message_queue,
      )

      finished-alike :
          (id : Str) (r s : Bool × Client y)
          → AreAlike y h key r s
          → AreAlike y h key (and_then y (finish_setup y id r) (run y h [])) s
      unfolding run
      finished-alike id (true, d) (b, e) alike = (
        alike.0,
        record {
          connections = alike.1.connections;
          documents = alike.1.documents;
          sinks = alike.1.sinks;
          calls = alike.1.calls;
        },
      )
      finished-alike id (false, d) (b, e) alike = alike

      -- The early frames come out of the queue.
      drained-alike :
          (frames : List (ℕ × Bytes)) (now : ℕ)
          → All (IsEarly key) frames
          → AreAlike y h key
              (and_then y
                (ask y h key name token
                  (asked_payload c.default_context version)
                  (asking y h key (map bytes_of frames) now c))
                (run y h []))
              (and_then y
                (ask y h key name token
                  (asked_payload c.default_context version)
                  (asking y h key [] now c))
                (run y h (map as_event frames)))
      unfolding drain
      drained-alike frames now early =
          let conn = made y h key name session accepted (base [] now) in
          let e = entered y h key name session accepted a.document (base [] now) in
          let greeted = Connection.init_awareness y (peer_of y a.document conn e) in
          rw (ask-accepted (map bytes_of frames) now, ask-accepted [] now)
            (finished-alike (id_of now) (drain y key (map bytes_of frames) (ready now)) _ (
              drain-run y h key frames (ready now) (call y (connected_call (id_of now)) (ready now))
                early ((a.document, greeted.conn), get-insert_self key (a.document, greeted.conn) _)
                (record { connections = refl; documents = refl; sinks = refl; calls = refl })))

      -- Frames of other types that come before the authentication of their key are neither lost nor
      -- reordered. Where the socket knows nothing of the key when the first of them comes, the
      -- authentication is whole, with a provider version or without, the hooks accept the client, the
      -- document is created, and the socket is open: its connections, the documents, the sinks and the
      -- calls of the connections' callbacks are in the end what they would be had the same frames come
      -- behind the authentication, and both panic or neither.
      pub early_as_late :
          (frames : List (ℕ × Bytes)) (now : ℕ) (bytes : Bytes)
          → All (IsEarly key) frames
          → IsAuthFrame key token version bytes
          → AreAlike y h key
              (run y h (map as_event frames ++ (frame now bytes ∷ [])) c)
              (run y h (frame now bytes ∷ map as_event frames) c)
      unfolding run
      early_as_late frames now bytes early f =
          rw
            (
              early_auth token version frames now bytes early f,
              handle_message-auth y h key token version now bytes c f n,
            )
            (drained-alike frames now early)
