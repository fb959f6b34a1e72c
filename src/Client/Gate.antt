-- ===== src/Client/Gate.antt =====
-- Which connections a socket can have, whatever events it sends.
use hocuspocu_rs.Base.{
  All, ℕ, ◌≡◌, ◌≢◌, refl, ◌∙◌, ap, inl, inr, Bool, false, List, Option, none, some, Bytes, Str, get,
  All-get, Option-cases, arith, subst,
}
use hocuspocu_rs.Common.RoutingKey.{parse_routing_key}
use hocuspocu_rs.Connection
use hocuspocu_rs.Connection.{Connection, Peer, push_back}
use hocuspocu_rs.Connection.Frozen.{process_one-frozen, close-frozen, init_awareness-frozen}
use hocuspocu_rs.Connection.Queue
use hocuspocu_rs.Document.{Document}
use hocuspocu_rs.Sink.{Sinks}
use hocuspocu_rs.Types.{Context}
use hocuspocu_rs.Client.{HookPayloadEntry, Hooks, connection_for, new}
use hocuspocu_rs.Client.Entries.{IsKept}
use hocuspocu_rs.Client.Events.{SocketEvent, run}
use hocuspocu_rs.Client.Entries.Frames.{run-Holds}
use hocuspocu_rs.Yrs.{Yrs}

abbrev is_read_only : Connection → Bool
is_read_only conn = conn.read_only

module _ (y : Yrs) where
  -- Handling a frame does not change whether a connection may write.
  handled-read_only :
      (bytes : Bytes) (handled : Bool) (p q : Peer y)
      → Connection.handle_message y bytes p ≡ some (handled, q)
      → q.conn.read_only ≡ p.conn.read_only
  unfolding Queue.handle_all
  handled-read_only bytes handled p q e = elim (Queue.handle_message_cases y bytes p) [
    | inl (empty, r) ↦
        ground (arith, ap is_read_only (process_one-frozen y bytes (push_back y bytes p)))
    | inr (busy, r) ↦ ground arith
  ]

  module _ (h : Hooks) where
    -- Refused names are never connected.
    refused-IsKept :
        (name : Str)
        → ((n : ℕ) (token : Str) (p : HookPayloadEntry) (answer : Option Context)
            → h.on_authenticate n name token p ≢ inr answer)
        → IsKept y h
            (λ e. (parse_routing_key e.0).0 ≢ name)
            (λ p. Unit {0})
            (λ key. (parse_routing_key key).0 ≢ name)
    refused-IsKept name refuses = record {
      closes = λ key doc event p other. other;
      handles = λ key doc bytes handled p q other e. other;
      greets = λ key doc p other. other;
      admits = λ key token n p answer e same.
          refuses n token p answer (subst (λ k. h.on_authenticate n k token p ≡ inr answer) same e);
      enters = λ key doc id ws document_name socket session p other q. other;
      default_payload = λ context. tt;
      with_context = λ p context q. tt;
      with_provider = λ p version q. tt;
      with_authenticated = λ p q. tt;
    }

    -- Whatever happens to a socket, it gets no connection under any key of a document for which
    -- the authentication hook accepts no token.
    pub run-refused :
        (name : Str)
        → ((n : ℕ) (token : Str) (p : HookPayloadEntry) (answer : Option Context)
            → h.on_authenticate n name token p ≢ inr answer)
        → (events : List SocketEvent) (socket_id : Str) (ws : ℕ) (context : Context) (now : ℕ)
          (documents : ℕ → Document y) (sinks : Sinks) (key : Str)
        → (parse_routing_key key).0 ≡ name
        → get key
            (run y h events (new y socket_id ws context now documents sinks)).1.document_connections
          ≡ none
    unfolding new
    run-refused name refuses events socket_id ws context now documents sinks key same =
        let P : Str × (ℕ × Connection) → Type 0 = λ e. (parse_routing_key e.0).0 ≢ name in
        let start = new y socket_id ws context now documents sinks in
        let held =
          run-Holds y h P _ _ (refused-IsKept name refuses) events start
            (record { conns = tt; payloads = tt }) in
        elim (Option-cases (get key (run y h events start).1.document_connections)) [
          | inl absent ↦ absent
          | inr (entry, e) ↦ absurd (All-get P key entry _ held.conns e same)
        ]

    writable-IsKept :
        IsKept y h
          (λ e. e.1.1.read_only ≡ false)
          (λ p. p.connection_config.read_only ≡ false)
          (λ key. Unit {0})
    unfolding connection_for
    writable-IsKept = record {
      closes = λ key doc event p w. ap is_read_only (close-frozen y event p) ∙ w;
      handles = λ key doc bytes handled p q w e. handled-read_only bytes handled p q e ∙ w;
      greets = λ key doc p w. ap is_read_only (init_awareness-frozen y p) ∙ w;
      admits = λ key token n p answer e. tt;
      enters = λ key doc id ws document_name socket session p may w. w;
      default_payload = λ context. refl;
      with_context = λ p context w. w;
      with_provider = λ p version w. w;
      with_authenticated = λ p w. w;
    }

    -- No connection that a socket ever has is read-only, whatever its frames and events and whatever
    -- the hooks answer.
    pub run-writable :
        (events : List SocketEvent) (socket_id : Str) (ws : ℕ) (context : Context) (now : ℕ)
        (documents : ℕ → Document y) (sinks : Sinks)
        → All
            (λ e. e.1.1.read_only ≡ false)
            (run y h events (new y socket_id ws context now documents sinks)).1.document_connections
    unfolding new
    run-writable events socket_id ws context now documents sinks =
        (run-Holds y h (λ e. e.1.1.read_only ≡ false) _ _ writable-IsKept events
          (new y socket_id ws context now documents sinks)
          (record { conns = tt; payloads = tt })).conns
