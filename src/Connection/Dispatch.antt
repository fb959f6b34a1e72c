-- ===== src/Connection/Dispatch.antt =====
-- What a connection makes of a frame: which frames it drops, and what a read-only connection keeps.
use hocuspocu_rs.Base.{
  ◌⊎◌, ℕ, zero, suc, ◌≡◌, ◌≢◌, refl, ◌∙◌, Bool, true, false, List, [], ◌∷◌, Option, none, some,
  Bytes, Str, arith, bytes_eq, bytes_eq_iff, Bool-cases, inl, inr, get,
}
use hocuspocu_rs.Base.Outcome.{Outcome, ok, err, panic}
use hocuspocu_rs.Codec
use hocuspocu_rs.Codec.{Decoder, IoError, read_var_string}
use hocuspocu_rs.Common.{CloseEvent}
use hocuspocu_rs.Common.RoutingKey.{parse_routing_key}
use hocuspocu_rs.Document.{
  remove_states, encode_awareness_update_clients, Room, ConnectionEntry, has_connection,
  remove_connection, drop_entry, depart, announce, broadcast_awareness_to_connections,
}
use hocuspocu_rs.Receiver.{
  BeforeSync, Exchange, MessageReceiver, apply, close_requested, stateless_prefix,
  token_sync_prefix,
}
use hocuspocu_rs.Receiver.ReadOnly.{apply-read_only}
use hocuspocu_rs.Connection.{
  strip_prefix, farewell, log, on_close_call, token_sync_call, before_handle_message_call, Peer,
  send, close, run_on_close, leave, on_error, call_token_sync, token_rejected, after_apply,
  after_hook, call_before, addressed, receive, process_one, pop_front, before_sync_of,
}
use hocuspocu_rs.Connection.Queue.{handle_all}
use hocuspocu_rs.Yrs.{Yrs}

module _ (y : Yrs) where
  -- What a read-only connection keeps.
  record Kept (p q : Peer y) : Type 0 where
    doc : q.room.document.doc ≡ p.room.document.doc
    updates : q.room.document.updates ≡ p.room.document.updates
    read_only : q.conn.read_only ≡ p.conn.read_only

  Kept-trans : {p q r : Peer y} → Kept p q → Kept q r → Kept p r
  Kept-trans a b = record {
    doc = b.doc ∙ a.doc;
    updates = b.updates ∙ a.updates;
    read_only = b.read_only ∙ a.read_only;
  }

  Kept-refl : (p : Peer y) → Kept p p
  Kept-refl p = record { doc = refl; updates = refl; read_only = refl }

  send-Kept : (bytes : Bytes) (p : Peer y) → Kept p (send y bytes p)
  unfolding send
  send-Kept bytes p = ground arith

  calls-Kept : (n : ℕ) (event : Option CloseEvent) (p : Peer y) → Kept p (run_on_close y n event p)
  unfolding run_on_close
  calls-Kept zero event p = Kept-refl p
  calls-Kept (suc n) event p = ground (arith, calls-Kept n event (log y (on_close_call event) p))

  abbrev RoomKept : Room y → Room y → Type 0
  RoomKept r s = (s.document.doc ≡ r.document.doc) × (s.document.updates ≡ r.document.updates)

  announce-Kept : (u : Str ⊎ Bytes) (r : Room y) → RoomKept r (announce y u r)
  unfolding broadcast_awareness_to_connections
  announce-Kept (inr u) r = (refl, refl)
  announce-Kept (inl e) r = (refl, refl)

  depart-Kept : (clients : List ℕ) (r : Room y) → RoomKept r (depart y clients r)
  depart-Kept [] r = (refl, refl)
  depart-Kept (c ∷ cs) r =
      let d = record (r.document) {
        awareness_state = remove_states y (c ∷ cs) r.document.awareness_state;
      } in
      announce-Kept (encode_awareness_update_clients y (c ∷ cs) d) (record r { document = d })

  drop-Kept : (c : Str) (r : Room y) (o : Option ConnectionEntry) → RoomKept r (drop_entry y c r o)
  drop-Kept c r none = (refl, refl)
  drop-Kept c r (some e) = depart-Kept e.clients _

  leave-Kept : (p : Peer y) → Kept p (leave y p)
  unfolding remove_connection
  leave-Kept p =
      let k = drop-Kept p.conn.id p.room (get p.conn.id p.room.document.connections) in
      record { doc = k.0; updates = k.1; read_only = refl }

  close-Kept : (event : Option CloseEvent) (p : Peer y) → Kept p (close y event p)
  unfolding close
  close-Kept event p = elim (Bool-cases (has_connection y p.conn.id p.room.document)) [
    | inl known ↦
        let left = leave y p in
        let called = run_on_close y p.conn.on_close_callbacks event left in
        let k =
          Kept-trans (leave-Kept p)
            (Kept-trans (calls-Kept _ event left) (send-Kept (farewell y event p) called)) in
        rw known (record { doc = k.doc; updates = k.updates; read_only = k.read_only })
    | inr unknown ↦ rw unknown (Kept-refl p)
  ]

  rejected-Kept : (e : Option Str) (p : Peer y) → Kept p (token_rejected y e p)
  rejected-Kept none p = Kept-refl p
  rejected-Kept (some e) p = close-Kept _ p

  token-Kept :
      (callback : Option (Str → Option Str)) (token : Str) (p : Peer y)
      → Kept p (call_token_sync y callback token p)
  token-Kept none token p = Kept-refl p
  token-Kept (some callback) token p =
      let k = rejected-Kept (callback token) (log y (token_sync_call token) p) in
      record { doc = k.doc; updates = k.updates; read_only = k.read_only }

  on_error-Kept :
      (e : Str) (payload token : Option Str) (p : Peer y) → Kept p (on_error y e payload token p)
  on_error-Kept e (some payload) token p = ground arith
  on_error-Kept e none (some token) p = token-Kept p.conn.callbacks.token_sync token p
  on_error-Kept e none none p = elim (Bool-cases (bytes_eq e close_requested)) [
    | inl asked ↦ rw asked (close-Kept _ p)
    | inr other ↦ rw other (close-Kept _ p)
  ]

  apply-Kept :
      (p : Peer y) (r : Outcome Str (Unit {0}) × Exchange y)
      → RoomKept p.room r.1.room
      → Kept p (after_apply y p r).1
  apply-Kept p (ok u, x) h = record { doc = h.0; updates = h.1; read_only = refl }
  apply-Kept p (err e, x) h =
      let q : Peer y = record p { room = x.room } in
      let k =
        on_error-Kept e (strip_prefix stateless_prefix e) (strip_prefix token_sync_prefix e) q in
      record { doc = k.doc ∙ h.0; updates = k.updates ∙ h.1; read_only = k.read_only }
  apply-Kept p (panic, x) h = record { doc = h.0; updates = h.1; read_only = refl }

  apply-RoomKept :
      (m : MessageReceiver y) (c : Option Str) (address : Str) (read_only : Bool) (b : BeforeSync y)
      (x : Exchange y)
      → read_only ≡ true
      → RoomKept x.room (apply y m c address read_only b x).1.room
  apply-RoomKept m c address true b x h = apply-read_only y m c address b x
  apply-RoomKept m c address false b x h = cc

  receive-Kept : (raw : Bytes) (p : Peer y) → p.conn.read_only ≡ true → Kept p (receive y raw p).1
  unfolding receive
  receive-Kept raw p h =
      apply-Kept p
        (apply y (record { bytes = raw; default_transaction_origin = none }) (some p.conn.id)
          p.conn.message_address p.conn.read_only
          (before_sync_of y p.conn.id p.conn.callbacks.before_sync)
          (record { room = p.room; replies = none }))
        (apply-RoomKept (record { bytes = raw; default_transaction_origin = none }) (some p.conn.id)
          p.conn.message_address p.conn.read_only
          (before_sync_of y p.conn.id p.conn.callbacks.before_sync)
          (record { room = p.room; replies = none }) h)

  hook-Kept :
      (raw : Bytes) (e : Option Str) (p : Peer y)
      → p.conn.read_only ≡ true
      → Kept p (after_hook y raw e p).1
  hook-Kept raw none p h = receive-Kept raw p h
  hook-Kept raw (some e) p h = close-Kept _ p

  before-Kept :
      (raw : Bytes) (callback : Option (Str → Bytes → Option Str)) (p : Peer y)
      → p.conn.read_only ≡ true
      → Kept p (call_before y raw callback p).1
  before-Kept raw none p h = receive-Kept raw p h
  before-Kept raw (some callback) p h =
      let k = hook-Kept raw (callback p.conn.id raw) (log y (before_handle_message_call raw) p) h in
      record { doc = k.doc; updates = k.updates; read_only = k.read_only }

  addressed-Kept :
      (raw : Bytes) (r : Outcome IoError Str × Decoder) (p : Peer y)
      → p.conn.read_only ≡ true
      → Kept p (addressed y raw r p).1
  addressed-Kept raw (ok key, d) p h =
      elim (Bool-cases (bytes_eq (parse_routing_key key).0 p.room.document.name)) [
        | inl mine ↦ rw mine (before-Kept raw p.conn.callbacks.before_handle_message p h)
        | inr other ↦ rw other (Kept-refl p)
      ]
  addressed-Kept raw (err e, d) p h = Kept-refl p
  addressed-Kept raw (panic, d) p h = Kept-refl p

  process_one-Kept :
      (raw : Bytes) (p : Peer y) → p.conn.read_only ≡ true → Kept p (process_one y raw p).1
  unfolding process_one
  process_one-Kept raw p h = addressed-Kept raw (read_var_string (Codec.new raw)) p h

  -- No sequence of frames, whatever their bytes and the decisions of the hooks, lets a read-only
  -- connection change its document or hand the observer an update; and it stays read-only.
  pub handle_all-read_only :
      (frames : List Bytes) (p : Peer y)
      → p.conn.read_only ≡ true
      → let q = (handle_all y frames p).1 in
        (q.room.document.doc ≡ p.room.document.doc)
        × (q.room.document.updates ≡ p.room.document.updates)
        × (q.conn.read_only ≡ true)
  unfolding handle_all
  handle_all-read_only [] p h = (refl, refl, h)
  handle_all-read_only (raw ∷ rest) p h = ground (
    arith,
    process_one-Kept raw p h,
    handle_all-read_only rest (pop_front y (process_one y raw p).1),
  )

  addressed_dropped :
      (raw : Bytes) (r : Outcome IoError Str × Decoder) (p : Peer y)
      → ((key : Str) → r.0 ≡ ok key → (parse_routing_key key).0 ≢ p.room.document.name)
      → r.0 ≢ panic
      → addressed y raw r p ≡ (true, p)
  addressed_dropped raw (ok key, d) p other safe =
      ground (arith, other key refl, bytes_eq_iff (parse_routing_key key).0 p.room.document.name)
  addressed_dropped raw (err e, d) p other safe = refl
  addressed_dropped raw (panic, d) p other safe = absurd (safe refl)

  -- A frame whose address names another document, or does not decode, is dropped and changes
  -- nothing, unless decoding it panics.
  process_one_dropped :
      (raw : Bytes) (p : Peer y)
      → ((key : Str)
          → (read_var_string (Codec.new raw)).0 ≡ ok key
          → (parse_routing_key key).0 ≢ p.room.document.name)
      → (read_var_string (Codec.new raw)).0 ≢ panic
      → process_one y raw p ≡ (true, p)
  unfolding process_one
  process_one_dropped raw p other safe =
      addressed_dropped raw (read_var_string (Codec.new raw)) p other safe
