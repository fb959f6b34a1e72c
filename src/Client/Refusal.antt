-- ===== src/Client/Refusal.antt =====
-- A client that a hook refuses: it is told why, and may try again.
use hocuspocu_rs.Base.{
  true, ℕ, ◌+◌, ◌≡◌, refl, ◌⊎◌, inl, inr, List, [], Option, none, Bytes, Str, HashMap, get, insert,
  remove, get-insert, get-remove, bytes_eq_iff, arith,
}
use hocuspocu_rs.Common.RoutingKey.{parse_routing_key}
use hocuspocu_rs.Message
use hocuspocu_rs.Message.{to_vec}
use hocuspocu_rs.Sink
use hocuspocu_rs.Types.{Context}
use hocuspocu_rs.Client.{
  HookPayloadEntry, Hooks, Client, ClientCall, or_denied, in_context, cleanup_document_state,
  denied,
}
use hocuspocu_rs.Client.Handshake.{handle_message, ask}
use hocuspocu_rs.Client.AuthFrame.{
  IsAuthFrame, IsNewKey, asking, first_payload, asked_payload, handle_message-auth,
}
use hocuspocu_rs.Yrs.{Yrs}

restored {ℓ} :
    {V : Type ℓ} (key other : Str) (v : V) (m : HashMap V)
    → get key m ≡ none
    → get other (remove key (insert key v m)) ≡ get other m
restored key other v m absent =
    ground (
      arith,
      get-remove key other (insert key v m),
      get-insert key other v m,
      bytes_eq_iff key other,
    )

-- The connect hook fails with the reason; or it passes and the authentication hook fails, with the
-- reason or with an empty one, for which the client is told "permission-denied".
abbrev pub Refuses : Hooks → ℕ → Str → Str → HookPayloadEntry → Str → Type 0
Refuses h n name token p reason =
    (h.on_connect n name p ≡ inl reason)
    ⊎ ((context : Option Context) × (raw : Str) × (h.on_connect n name p ≡ inr context)
        × (h.on_authenticate (n + 1) name token (in_context context p) ≡ inl raw)
        × (or_denied raw ≡ reason))

module _ (y : Yrs) (h : Hooks) (key token reason : Str) (version : Option Str) where
  -- Only the sink, the clock and the log of hooks differ: the sink by the one frame that denies the
  -- permission.
  pub record IsDenied (c c' : Client y) : Type 0 where
    pub connections : c'.document_connections ≡ c.document_connections
    pub documents : c'.documents ≡ c.documents
    pub queues :
        (other : Str) → get other c'.incoming_message_queue ≡ get other c.incoming_message_queue
    pub established :
        (other : Str)
        → get other c'.document_connections_established
          ≡ get other c.document_connections_established
    pub payloads : (other : Str) → get other c'.hook_payloads ≡ get other c.hook_payloads
    pub told :
        c'.sinks
        ≡ (Sink.send c.ws
            (to_vec (Message.write_permission_denied reason (Message.new key)))
            c.sinks).1

  module _ (now : ℕ) (c : Client y) (n : IsNewKey y h key c)
      (new : get key c.hook_payloads ≡ none) where
    denied-IsDenied :
        (asked : ℕ) (made : List ClientCall)
        → IsDenied c (
            denied y key reason
              (record (asking y h key [] now c) { asked = asked; hook_calls = made }))
    unfolding cleanup_document_state
    denied-IsDenied asked made = record {
      connections = refl;
      documents = refl;
      queues = λ other. restored key other [] c.incoming_message_queue n.unqueued;
      established =
          λ other. restored key other tt c.document_connections_established n.unestablished;
      payloads = λ other. restored key other (first_payload c.default_context) c.hook_payloads new;
      told = refl;
    }

    ask-IsDenied :
        Refuses h c.asked
          (parse_routing_key key).0
          token
          (asked_payload c.default_context version)
          reason
        → let r =
            ask y h key
              (parse_routing_key key).0
              token
              (asked_payload c.default_context version)
              (asking y h key [] now c) in
          (r.0 ≡ true) × IsDenied c r.1
    ask-IsDenied (inl connect) = rw connect (refl, denied-IsDenied _ _)
    ask-IsDenied (inr (context, raw, connect, authenticate, same)) =
        rw (connect, authenticate, same) (refl, denied-IsDenied _ _)

    -- A whole authentication frame, with a provider version or without, for a key of which the socket
    -- knows nothing, that a hook refuses: the client is sent one frame that denies the permission and
    -- gives the reason, and nothing closes the socket. The socket's connections, the documents and what
    -- is kept for any key are as they were, so the client may try again.
    pub handle_message-refused :
        (bytes : Bytes)
        → IsAuthFrame key token version bytes
        → Refuses h c.asked
            (parse_routing_key key).0
            token
            (asked_payload c.default_context version)
            reason
        → ((handle_message y h now bytes c).0 ≡ true)
          × IsDenied c (handle_message y h now bytes c).1
    handle_message-refused bytes f r =
        rw (handle_message-auth y h key token version now bytes c f n) (ask-IsDenied r)
