-- ===== src/Receiver/ReadOnly.antt =====
-- A read-only client cannot change a document.
use hocuspocu_rs.Base.{
  ◌⊎◌, ℕ, Bool, true, false, ◌||◌, ◌≡◌, refl, ◌∙◌, List, Option, none, some, Bytes, Str, get, ◌==◌,
  inl, inr, Bool-cases, arith,
}
use hocuspocu_rs.Base.Outcome.{Outcome, ok, err, panic}
use hocuspocu_rs.Codec.{
  Decoder, IoError, read_var_uint, read_var_string, read_var_uint8_array, peek_var_uint8_array,
}
use hocuspocu_rs.Codec
use hocuspocu_rs.Common.{auth_code, token}
use hocuspocu_rs.Document.Awareness.{
  apply_awareness_update, own_entry, own, after_apply, apply_awareness_decoded, with_processed,
}
use hocuspocu_rs.Document.{
  Document, Room, send_to_connection, broadcast_stateless, broadcast_awareness_to_connections,
  encode_awareness_update_all, ConnectionEntry,
}
use hocuspocu_rs.Receiver.{
  MessageReceiver, Exchange, Act, BeforeSync, reading, read_sync_message, apply, answer,
  acknowledge, answer_query, auth_body, broadcast_body, answer_step1, after_hook, sync_body, handle,
  call_before_sync,
}
use hocuspocu_rs.Types.{
  MessageType, try_from, sync, sync_reply, awareness, query_awareness, stateless,
  broadcast_stateless as broadcast_type, auth, TransactionOrigin,
}
use hocuspocu_rs.Yrs.{Yrs}

module _ (y : Yrs) where
  -- The document and the updates that its observer has been told of.
  record Same (d d' : Document y) : Type 0 where
    same_doc : d'.doc ≡ d.doc
    same_updates : d'.updates ≡ d.updates

  abbrev Keeps {ℓ} : {A : Type ℓ} → Act y A → Type 0
  Keeps m = (x : Exchange y) → Same x.room.document (m x).1.room.document

  Keeps-reading {ℓ κ} :
      {A : Type ℓ} {B : Type κ} (r : Outcome IoError A × Decoder) (f : A → Decoder → Act y B)
      → ((a : A) (d : Decoder) → Keeps (f a d))
      → Keeps (reading y r f)
  Keeps-reading (ok a, d) f h x = h a d x
  Keeps-reading (err e, d) f h x = record { same_doc = refl; same_updates = refl }
  Keeps-reading (panic, d) f h x = record { same_doc = refl; same_updates = refl }

  pub send-document :
      (connection_id : Str) (bytes : Bytes) (r : Room y)
      → (send_to_connection y connection_id bytes r).document ≡ r.document
  unfolding send_to_connection
  send-document connection_id bytes r = ground arith

  answer-document :
      (connection_id : Option Str) (bytes : Bytes) (x : Exchange y)
      → (answer y connection_id bytes x).room.document ≡ x.room.document
  answer-document none bytes x = ground arith
  answer-document (some connection_id) bytes x = send-document connection_id bytes x.room

  acknowledge-document :
      (connection_id : Option Str) (bytes : Bytes) (x : Exchange y)
      → (acknowledge y connection_id bytes x).room.document ≡ x.room.document
  acknowledge-document none bytes x = refl
  acknowledge-document (some connection_id) bytes x = send-document connection_id bytes x.room

  Same-eq : {d d' : Document y} → d' ≡ d → Same d d'
  Same-eq {d} e = rw e (record { same_doc = refl; same_updates = refl })

  step1-Keeps :
      (address : Str) (connection_id : Option Str) (first : Bool) (sv : Str ⊎ y.StateVector)
      → Keeps (answer_step1 y address connection_id first sv)
  step1-Keeps address connection_id true (inr sv) x =
      Same-eq (answer-document connection_id _ _ ∙ answer-document connection_id _ x)
  step1-Keeps address connection_id false (inr sv) x = Same-eq (answer-document connection_id _ x)
  step1-Keeps address connection_id first (inl e) x = Same-eq refl

  hook-Keeps :
      (r : Outcome Str (Unit {0})) (k : Act y (Unit {0})) → Keeps k → Keeps (after_hook y r k)
  hook-Keeps (ok _) k h x = h x
  hook-Keeps (err e) k h x = Same-eq refl
  hook-Keeps panic k h x = Same-eq refl

  body-Keeps :
      (address : Str) (connection_id : Option Str) (first : Bool) (sync_type : ℕ) (d : Decoder)
      → Keeps (sync_body y address connection_id true first sync_type d)
  body-Keeps address connection_id first sync_type d x = elim (Bool-cases (sync_type == 0)) [
    | inl zero ↦ rw zero (
        Keeps-reading (read_var_uint8_array d) _
          (λ sv _. step1-Keeps address connection_id first (y.decode_sv sv)) x)
    | inr e ↦ elim (Bool-cases (sync_type == 1 || sync_type == 2)) [
      | inl write ↦
          rw (e, write)
            (Keeps-reading (read_var_uint8_array d) _
              (λ update _ x₁. Same-eq (acknowledge-document connection_id _ x₁)) x)
      | inr unknown ↦ rw (e, unknown) (Same-eq refl)
    ]
  ]

  sync-Keeps :
      (d : Decoder) (connection_id : Option Str) (address : Str) (first : Bool)
      (before : BeforeSync y)
      → Keeps (read_sync_message y d connection_id address true first before)
  unfolding read_sync_message
  sync-Keeps d connection_id address first before =
      Keeps-reading (read_var_uint d) _ (λ sync_type d₁.
        hook-Keeps (call_before_sync y before sync_type (peek_var_uint8_array d₁).0) _
          (body-Keeps address connection_id first sync_type d₁))

  broadcast_document :
      (bytes : Bytes) (r : Room y)
      → (broadcast_awareness_to_connections y bytes r).document ≡ r.document
  unfolding broadcast_awareness_to_connections
  broadcast_document bytes r = refl

  own_entry-Same :
      (c : Str) (added : List ℕ) (d : Document y) (o : Option ConnectionEntry)
      → Same d (own_entry y c added d o)
  own_entry-Same c added d none = Same-eq refl
  own_entry-Same c added d (some e) = record { same_doc = refl; same_updates = refl }

  own-Same : (c : Option Str) (added : List ℕ) (d : Document y) → Same d (own y c added d)
  own-Same none added d = Same-eq refl
  own-Same (some c) added d = own_entry-Same c added d (get c d.connections)

  after_apply-Same :
      (processed : Bytes) (c : Option Str) (added : List ℕ) (a : Outcome Str y.Awareness)
      (r : Room y)
      → Same r.document (after_apply y processed c added a r).1.document
  after_apply-Same processed c added (ok a) r = rw broadcast_document (
      let s = own-Same c added (record (r.document) { awareness_state = a }) in
      record { same_doc = s.same_doc; same_updates = s.same_updates })
  after_apply-Same processed c added (err e) r = Same-eq refl
  after_apply-Same processed c added panic r = Same-eq refl

  decoded-Same :
      (processed : Bytes) (c : Option Str) (u : Outcome Str y.AwarenessUpdate) (r : Room y)
      → Same r.document (apply_awareness_decoded y processed c u r).1.document
  decoded-Same processed c (ok u) r = after_apply-Same processed c _ _ r
  decoded-Same processed c (err e) r = Same-eq refl
  decoded-Same processed c panic r = Same-eq refl

  processed-Same :
      (c : Option Str) (p : Outcome Str Bytes) (r : Room y)
      → Same r.document (with_processed y c p r).1.document
  processed-Same c (ok processed) r = decoded-Same processed c (y.decode_awareness processed) r
  processed-Same c (err e) r = Same-eq refl
  processed-Same c panic r = Same-eq refl

  awareness-Same :
      (update : Bytes) (origin : Option TransactionOrigin) (connection_id : Option Str) (r : Room y)
      → Same r.document (apply_awareness_update y update origin connection_id r).1.document
  unfolding apply_awareness_update
  awareness-Same update origin connection_id r = processed-Same connection_id _ r

  query-Same :
      (address : Str) (u : Str ⊎ Bytes) (x : Exchange y)
      → Same x.room.document (answer_query y address u x).1.room.document
  query-Same address (inr u) x = Same-eq (answer-document none _ x)
  query-Same address (inl e) x = Same-eq refl

  auth-Keeps : (auth_type : ℕ) (d : Decoder) → Keeps (auth_body y auth_type d)
  auth-Keeps auth_type d x = elim (Bool-cases (auth_type == auth_code token)) [
    | inl is_token ↦
        rw is_token (Keeps-reading (read_var_string d) _ (λ token _ x₁. Same-eq refl) x)
    | inr other ↦ rw other (Same-eq refl)
  ]

  stateless_document :
      (payload : Str) (r : Room y) → (broadcast_stateless y payload none r).document ≡ r.document
  unfolding broadcast_stateless
  stateless_document payload r = refl

  broadcast-Keeps : (c : Option Str) (d : Decoder) → Keeps (broadcast_body y c d)
  broadcast-Keeps (some c) d x = Same-eq refl
  broadcast-Keeps none d x =
      Keeps-reading (read_var_string d) _
        (λ payload _ x₁. Same-eq (stateless_document payload x₁.room)) x

  handle-Keeps :
      (t : Option MessageType) (msg_type : ℕ) (origin : Option TransactionOrigin) (d : Decoder)
      (connection_id : Option Str) (address : Str) (before : BeforeSync y)
      → Keeps (handle y t msg_type origin d connection_id address true before)
  handle-Keeps (some sync) n origin d c address before = sync-Keeps d c address _ before
  handle-Keeps (some sync_reply) n origin d c address before = sync-Keeps d c address _ before
  handle-Keeps (some awareness) n origin d c address before =
      Keeps-reading (read_var_uint8_array d) _ (λ update _ x. awareness-Same update _ c x.room)
  handle-Keeps (some query_awareness) n origin d c address before =
      λ x. query-Same address (encode_awareness_update_all y x.room.document) x
  handle-Keeps (some stateless) n origin d c address before =
      Keeps-reading (read_var_string d) _ (λ payload _ x. Same-eq refl)
  handle-Keeps (some broadcast_type) n origin d c address before = broadcast-Keeps c d
  handle-Keeps (some auth) n origin d c address before =
      Keeps-reading (read_var_uint d) _ auth-Keeps
  handle-Keeps _ n origin d c address before = λ x. Same-eq refl

  -- Whatever bytes a read-only client sends, and whatever the hook decides, the document stays as it
  -- was and its observer is told of no update.
  pub apply-read_only :
      (m : MessageReceiver y) (connection_id : Option Str) (address : Str) (before : BeforeSync y)
      (x : Exchange y)
      → let d' = (apply y m connection_id address true before x).1.room.document in
        (d'.doc ≡ x.room.document.doc) × (d'.updates ≡ x.room.document.updates)
  unfolding apply
  apply-read_only m connection_id address before x =
      let s =
        Keeps-reading (read_var_string (Codec.new m.bytes)) _
          (λ _ d. Keeps-reading (read_var_uint d) _ (λ msg_type d₁.
            handle-Keeps (try_from msg_type) msg_type m.default_transaction_origin d₁ connection_id
              address before))
          x in
      (s.same_doc, s.same_updates)
