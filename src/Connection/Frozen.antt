-- ===== src/Connection/Frozen.antt =====
-- Handling a frame, closing and greeting change of the connection itself only whether it is closed.
use hocuspocu_rs.Base.{
  ◌⊎◌, ℕ, zero, suc, ◌≡◌, refl, true, Option, none, some, Bytes, Str, arith, bytes_eq, Bool-cases,
  inl, inr,
}
use hocuspocu_rs.Base.Outcome.{Outcome, ok, err, panic}
use hocuspocu_rs.Codec.{Decoder, IoError}
use hocuspocu_rs.Common.{CloseEvent}
use hocuspocu_rs.Common.RoutingKey.{parse_routing_key}
use hocuspocu_rs.Receiver.{Exchange, close_requested, stateless_prefix, token_sync_prefix}
use hocuspocu_rs.Document.{has_connection, has_awareness_states}
use hocuspocu_rs.Connection.{
  Connection, init_awareness, send_awareness, strip_prefix, Peer, send, close, run_on_close,
  on_error, call_token_sync, token_rejected, after_apply, after_hook, call_before, addressed,
  receive, process_one,
}
use hocuspocu_rs.Yrs.{Yrs}

module _ (y : Yrs) where
  -- A connection with its flag set.
  abbrev pub frozen : Peer y → Connection
  frozen p = record (p.conn) { closed = true }

  send-frozen : (bytes : Bytes) (p : Peer y) → frozen (send y bytes p) ≡ frozen p
  unfolding send
  send-frozen bytes p = ground arith

  calls-frozen :
      (n : ℕ) (event : Option CloseEvent) (p : Peer y)
      → frozen (run_on_close y n event p) ≡ frozen p
  unfolding run_on_close
  calls-frozen zero event p = refl
  calls-frozen (suc n) event p = calls-frozen n event _

  pub close-frozen : (event : Option CloseEvent) (p : Peer y) → frozen (close y event p) ≡ frozen p
  unfolding close
  close-frozen event p = elim (Bool-cases (has_connection y p.conn.id p.room.document)) [
    | inl known ↦ rw known (rw (send-frozen, calls-frozen))
    | inr unknown ↦ rw unknown
  ]

  rejected-frozen : (e : Option Str) (p : Peer y) → frozen (token_rejected y e p) ≡ frozen p
  rejected-frozen none p = refl
  rejected-frozen (some e) p = close-frozen _ p

  token-frozen :
      (callback : Option (Str → Option Str)) (token : Str) (p : Peer y)
      → frozen (call_token_sync y callback token p) ≡ frozen p
  token-frozen none token p = refl
  token-frozen (some callback) token p = rejected-frozen (callback token) _

  on_error-frozen :
      (e : Str) (payload token : Option Str) (p : Peer y)
      → frozen (on_error y e payload token p) ≡ frozen p
  on_error-frozen e (some payload) token p = ground arith
  on_error-frozen e none (some token) p = token-frozen p.conn.callbacks.token_sync token p
  on_error-frozen e none none p = elim (Bool-cases (bytes_eq e close_requested)) [
    | inl asked ↦ rw asked (close-frozen _ p)
    | inr other ↦ rw other (close-frozen _ p)
  ]

  apply-frozen :
      (p : Peer y) (r : Outcome Str (Unit {0}) × Exchange y)
      → frozen (after_apply y p r).1 ≡ frozen p
  apply-frozen p (ok u, x) = refl
  apply-frozen p (err e, x) =
      on_error-frozen e (strip_prefix stateless_prefix e) (strip_prefix token_sync_prefix e)
        (record p { room = x.room })
  apply-frozen p (panic, x) = refl

  receive-frozen : (raw : Bytes) (p : Peer y) → frozen (receive y raw p).1 ≡ frozen p
  unfolding receive
  receive-frozen raw p = apply-frozen p _

  hook-frozen :
      (raw : Bytes) (e : Option Str) (p : Peer y) → frozen (after_hook y raw e p).1 ≡ frozen p
  hook-frozen raw none p = receive-frozen raw p
  hook-frozen raw (some e) p = close-frozen _ p

  before-frozen :
      (raw : Bytes) (callback : Option (Str → Bytes → Option Str)) (p : Peer y)
      → frozen (call_before y raw callback p).1 ≡ frozen p
  before-frozen raw none p = receive-frozen raw p
  before-frozen raw (some callback) p = hook-frozen raw _ _

  addressed-frozen :
      (raw : Bytes) (r : Outcome IoError Str × Decoder) (p : Peer y)
      → frozen (addressed y raw r p).1 ≡ frozen p
  addressed-frozen raw (ok key, d) p =
      elim (Bool-cases (bytes_eq (parse_routing_key key).0 p.room.document.name)) [
        | inl mine ↦ rw mine (before-frozen raw p.conn.callbacks.before_handle_message p)
        | inr other ↦ rw other
      ]
  addressed-frozen raw (err e, d) p = refl
  addressed-frozen raw (panic, d) p = refl

  pub process_one-frozen : (raw : Bytes) (p : Peer y) → frozen (process_one y raw p).1 ≡ frozen p
  unfolding process_one
  process_one-frozen raw p = addressed-frozen raw _ p

  greeting-frozen : (u : Str ⊎ Bytes) (p : Peer y) → frozen (send_awareness y u p) ≡ frozen p
  greeting-frozen (inr u) p = send-frozen _ p
  greeting-frozen (inl e) p = refl

  pub init_awareness-frozen : (p : Peer y) → frozen (init_awareness y p) ≡ frozen p
  unfolding init_awareness
  init_awareness-frozen p = elim (Bool-cases (has_awareness_states y p.room.document)) [
    | inl some_states ↦ rw some_states (greeting-frozen _ p)
    | inr no_states ↦ rw no_states
  ]
