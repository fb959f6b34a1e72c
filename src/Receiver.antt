-- ===== src/Receiver.antt =====
-- hocuspocu-rs/src/message_receiver.rs: what one frame of a client does to its document.
use hocuspocu_rs.Base.{
  ℕ, zero, suc, ◌+◌, ◌/◌, ◌%◌, ◌⊎◌, inl, inr, ◌<◌, Bool, true, false, not, ◌||◌, List, [], ◌∷◌,
  ◌++◌, Option, none, some, Bytes, Str, text, ltb, ◌==◌, if◌then◌else◌,
}
use hocuspocu_rs.Base.Outcome.{Outcome, ok, err, panic}
use hocuspocu_rs.Codec
use hocuspocu_rs.Codec.{
  Decoder, IoError, read_var_uint, read_var_string, read_var_uint8_array, peek_var_uint8_array,
  unexpected_end, varuint_too_large, string_truncated, array_truncated, not_enough_data,
  invalid_utf8,
}
use hocuspocu_rs.Common.{auth_code, token}
use hocuspocu_rs.Document.Awareness.{apply_awareness_update}
use hocuspocu_rs.Document.{
  Document, Room, send_to_connection, encode_awareness_update_all, broadcast_stateless,
  apply_update, encode_state_vector,
}
use hocuspocu_rs.Message
use hocuspocu_rs.Message.{to_vec}
use hocuspocu_rs.Types.{
  MessageType, try_from, code, sync, sync_reply, awareness, query_awareness, stateless,
  broadcast_stateless as broadcast_stateless_type, close, auth, TransactionOrigin, connection,
}
use hocuspocu_rs.Yrs.{Yrs}
pub mod ReadOnly
pub mod Replies

-- `io::Error::to_string`; the one of a bad UTF-8 text is cut before the place it names.
unfoldable pub message : IoError → Str
message unexpected_end = text "unexpected end of data"
message varuint_too_large = text "varuint too large"
message string_truncated = text "string data truncated"
message array_truncated = text "array data truncated"
message not_enough_data = text "not enough data"
message invalid_utf8 = text "invalid utf-8 sequence"

abbrev pub stateless_prefix : Str
stateless_prefix = text "stateless:"

abbrev pub token_sync_prefix : Str
token_sync_prefix = text "token_sync:"

abbrev pub close_requested : Str
close_requested = text "close_requested"

abbrev pub broadcast_refused : Str
broadcast_refused =
    text "BroadcastStateless is a server-internal opcode and cannot be sent from a client"

-- A `u64` has twenty digits at most.
abbrev decimal : ℕ → ℕ → Str
decimal zero n = []
decimal (suc digits) n =
    let high = decimal digits (n / 10) in (if n / 10 == 0 then [] else high) ++ ((48 + n % 10) ∷ [])

abbrev pub unknown_sync_type : ℕ → Str
unknown_sync_type sync_type =
    text "Received a sync message with an unknown type: " ++ decimal 20 sync_type

module _ (y : Yrs) where
  -- A room, with what was handed to the reply function, if there is one.
  pub record Exchange : Type 0 where
    pub room : Room y
    pub replies : Option (List Bytes)

  abbrev pub Act {ℓ} : Type ℓ → Type ℓ
  Act A = Exchange → Outcome Str A × Exchange

  -- `decoder.read()?`, with the decoder that it leaves.
  abbrev pub reading {ℓ κ} :
      {A : Type ℓ} {B : Type κ} → Outcome IoError A × Decoder → (A → Decoder → Act B) → Act B
  reading (ok a, d) f x = f a d x
  reading (err e, d) f x = (err (message e), x)
  reading (panic, d) f x = (panic, x)

  abbrev pub done : Act (Unit {0})
  done x = (ok tt, x)

  abbrev pub on_room : (Room y → Room y) → Exchange → Exchange
  on_room f x = record x { room = f x.room }

  abbrev pub reply_fn : Bytes → Exchange → Option (List Bytes) → Exchange
  reply_fn bytes x none = x
  reply_fn bytes x (some sent) = record x { replies = some (sent ++ (bytes ∷ [])) }

  -- To the connection if there is one, else through the reply function.
  abbrev pub answer : Option Str → Bytes → Exchange → Exchange
  answer (some connection_id) bytes x = on_room (send_to_connection y connection_id bytes) x
  answer none bytes x = reply_fn bytes x x.replies

  -- To the connection if there is one, else nowhere.
  abbrev pub acknowledge : Option Str → Bytes → Exchange → Exchange
  acknowledge (some connection_id) bytes x = on_room (send_to_connection y connection_id bytes) x
  acknowledge none bytes x = x

  abbrev pub document : Exchange → Document y
  document x = x.room.document

  abbrev pub is_none {ℓ} : {A : Type ℓ} → Option A → Bool
  is_none none = true
  is_none (some _) = false

  pub step1_reply : Str → Option Str → Document y → Bytes
  step1_reply address connection_id d = to_vec (
      Message.write_first_sync_step_for (encode_state_vector y d) (
        if is_none connection_id
        then Message.create_sync_reply_message (Message.new address)
        else Message.create_sync_message (Message.new address)))

  pub step2_reply : Str → y.StateVector → Document y → Bytes
  step2_reply address remote_sv d = to_vec (
      Message.write_sync_step2 (y.encode_state_as_update d.doc remote_sv)
        (Message.create_sync_message (Message.new address)))

  abbrev pub answer_step1 : Str → Option Str → Bool → Str ⊎ y.StateVector → Act (Unit {0})
  answer_step1 address connection_id request_first_sync (inr remote_sv) x =
      let x₁ = answer connection_id (step2_reply address remote_sv (document x)) x in
      (
        ok tt,
        if request_first_sync
            then answer connection_id (step1_reply address connection_id (document x₁)) x₁
            else x₁,
      )
  answer_step1 address connection_id request_first_sync (inl e) x = (err e, x)

  pub status : Str → Bool → Bytes
  status address saved = to_vec (Message.write_sync_status saved (Message.new address))

  abbrev pub any_newer : y.StateVector → List (ℕ × ℕ) → Bool
  any_newer doc_sv [] = false
  any_newer doc_sv ((client, clock) ∷ entries) =
      ltb (y.sv_get doc_sv client) clock || any_newer doc_sv entries

  abbrev pub novel : Document y → Str ⊎ y.StateVector → Bool
  novel d (inr update_sv) = any_newer (y.state_vector d.doc) (y.sv_iter update_sv)
  novel d (inl _) = true

  abbrev pub decode_sv_bytes : Str ⊎ Bytes → Str ⊎ y.StateVector
  decode_sv_bytes (inr bytes) = y.decode_sv bytes
  decode_sv_bytes (inl e) = inl e

  -- Whether a read-only client's step 2 holds anything that the document lacks.
  pub contains_new : Document y → Bytes → Bool
  contains_new d update_data = novel d (decode_sv_bytes (y.sv_from_update update_data))

  abbrev pub refuse_update : Str → Option Str → Bool → Bytes → Act (Unit {0})
  refuse_update address connection_id is_update update_data x =
      let saved = if is_update then false else not (contains_new (document x) update_data) in
      (ok tt, acknowledge connection_id (status address saved) x)

  abbrev pub updated : Str → Option Str → Outcome Str (Unit {0}) × Document y → Act (Unit {0})
  updated address connection_id (ok _, d) x =
      let x₁ = record x { room = record (x.room) { document = d } } in
      (ok tt, acknowledge connection_id (status address true) x₁)
  updated address connection_id (err e, d) x =
      (err e, record x { room = record (x.room) { document = d } })
  updated address connection_id (panic, d) x =
      (panic, record x { room = record (x.room) { document = d } })

  abbrev pub accept_update : Str → Option Str → Bytes → Act (Unit {0})
  accept_update address connection_id update_data x =
      updated address connection_id (apply_update y update_data (document x)) x

  -- The `match sync_type`.
  abbrev pub sync_body : Str → Option Str → Bool → Bool → ℕ → Decoder → Act (Unit {0})
  sync_body address connection_id read_only request_first_sync sync_type d =
      if sync_type == 0
      then reading (read_var_uint8_array d) (λ remote_sv_data _.
        answer_step1 address connection_id request_first_sync (y.decode_sv remote_sv_data))
      else if sync_type == 1 || sync_type == 2
      then (if read_only
          then reading (read_var_uint8_array d)
              (λ update_data _. refuse_update address connection_id (sync_type == 2) update_data)
          else reading (read_var_uint8_array d)
              (λ update_data _. accept_update address connection_id update_data))
      else (λ x. (err (unknown_sync_type sync_type), x))

  -- The hook's decision: its error, or none.
  abbrev pub BeforeSync : Type 0
  BeforeSync = Option (ℕ → Bytes → Option Str)

  abbrev pub hook_result : Option Str → Outcome Str (Unit {0})
  hook_result none = ok tt
  hook_result (some e) = err e

  -- `unwrap_or_default`; a panic of the peek is one of the caller.
  abbrev pub call_before_sync : BeforeSync → ℕ → Outcome IoError Bytes → Outcome Str (Unit {0})
  call_before_sync none sync_type peeked = ok tt
  call_before_sync (some callback) sync_type (ok payload) = hook_result (callback sync_type payload)
  call_before_sync (some callback) sync_type (err _) = hook_result (callback sync_type [])
  call_before_sync (some callback) sync_type panic = panic

  abbrev pub after_hook : Outcome Str (Unit {0}) → Act (Unit {0}) → Act (Unit {0})
  after_hook (ok _) k x = k x
  after_hook (err e) k x = (err e, x)
  after_hook panic k x = (panic, x)

  unfoldable pub read_sync_message :
      Decoder → Option Str → Str → Bool → Bool → BeforeSync → Act (Unit {0})
  unfolding step1_reply step2_reply status contains_new
  read_sync_message d connection_id address read_only request_first_sync before_sync =
      reading (read_var_uint d) (λ sync_type d₁.
        after_hook (call_before_sync before_sync sync_type (peek_var_uint8_array d₁).0)
          (sync_body address connection_id read_only request_first_sync sync_type d₁))

  abbrev pub awareness_origin : Option Str → Option TransactionOrigin → Option TransactionOrigin
  awareness_origin (some connection_id) default_origin = some (connection connection_id)
  awareness_origin none default_origin = default_origin

  abbrev pub back : Exchange → Outcome Str (Unit {0}) × Room y → Outcome Str (Unit {0}) × Exchange
  back x (r, room) = (r, record x { room = room })

  abbrev pub answer_query : Str → Str ⊎ Bytes → Act (Unit {0})
  answer_query address (inr update_data) x = (
    ok tt,
    reply_fn (to_vec (Message.create_awareness_update_message update_data (Message.new address))) x
        x.replies,
  )
  answer_query address (inl _) x = (ok tt, x)

  abbrev pub auth_body : ℕ → Decoder → Act (Unit {0})
  auth_body auth_type d =
      if auth_type == auth_code token
      then reading (read_var_string d) (λ token _ x. (err (token_sync_prefix ++ token), x))
      else done

  abbrev pub broadcast_body : Option Str → Decoder → Act (Unit {0})
  broadcast_body (some _) d x = (err broadcast_refused, x)
  broadcast_body none d x =
      reading (read_var_string d)
        (λ payload _ x. (ok tt, on_room (broadcast_stateless y payload none) x)) x

  -- The `match` on the message type; an unknown type, or one with no handler, is only logged.
  abbrev pub handle :
      Option MessageType
      → ℕ
      → Option TransactionOrigin
      → Decoder
      → Option Str
      → Str
      → Bool
      → BeforeSync
      → Act (Unit {0})
  handle (some sync) msg_type origin d connection_id address read_only before_sync =
      read_sync_message d connection_id address read_only (not (msg_type == code sync_reply))
        before_sync
  handle (some sync_reply) msg_type origin d connection_id address read_only before_sync =
      read_sync_message d connection_id address read_only (not (msg_type == code sync_reply))
        before_sync
  handle (some awareness) msg_type origin d connection_id address read_only before_sync =
      reading (read_var_uint8_array d) (λ update _ x. back x (
        apply_awareness_update y update (awareness_origin connection_id origin) connection_id
          x.room))
  handle (some query_awareness) msg_type origin d connection_id address read_only before_sync =
      λ x. answer_query address (encode_awareness_update_all y (document x)) x
  handle (some stateless) msg_type origin d connection_id address read_only before_sync =
      reading (read_var_string d) (λ payload _ x. (err (stateless_prefix ++ payload), x))
  handle (some broadcast_stateless_type) msg_type origin d connection_id address read_only
        before_sync =
      broadcast_body connection_id d
  handle (some close) msg_type origin d connection_id address read_only before_sync =
      λ x. (err close_requested, x)
  handle (some auth) msg_type origin d connection_id address read_only before_sync =
      reading (read_var_uint d) auth_body
  handle _ msg_type origin d connection_id address read_only before_sync = done

  pub record MessageReceiver : Type 0 where
    pub bytes : Bytes
    pub default_transaction_origin : Option TransactionOrigin

  unfoldable pub apply : MessageReceiver → Option Str → Str → Bool → BeforeSync → Act (Unit {0})
  apply m connection_id address read_only before_sync =
      reading (read_var_string (Codec.new m.bytes)) (λ _ d.
        reading (read_var_uint d) (λ msg_type d₁.
          handle (try_from msg_type) msg_type m.default_transaction_origin d₁ connection_id address
            read_only before_sync))
