-- ===== src/Receiver/Replies.antt =====
-- What a sync frame of a client does, read from its bytes.
use hocuspocu_rs.Base.{
  ℕ, ◌≡◌, ◌∙◌, refl, Bool, true, false, not, [], All, ◌++◌, none, some, Bytes, Str, length, arith,
  append-nil, if◌then◌else◌, ◌⊎◌, inl, inr, ◌≤◌, ◌==◌,
}
use hocuspocu_rs.Base.Outcome.{ok, err}
use hocuspocu_rs.Codec
use hocuspocu_rs.Codec.{
  IsU64, Decoder, read_var_uint, read_var_string, read_var_uint8_array, peek_var_uint8_array,
  write_var_uint, write_var_string, write_var_uint8_array,
}
use hocuspocu_rs.Codec.Position.{
  At-new, At-step_over, step_over, read_var_uint-Yields, read_var_string-Yields,
  read_var_uint8_array-Yields,
}
use hocuspocu_rs.Codec.Utf8.{is_utf8}
use hocuspocu_rs.Document.{Document, send_to_connection, apply_update, encode_state_vector}
use hocuspocu_rs.Receiver.ReadOnly.{send-document}
use hocuspocu_rs.Receiver.{
  MessageReceiver, Exchange, BeforeSync, call_before_sync, apply, read_sync_message, status,
  accept_update, refuse_update, sync_body, step1_reply, step2_reply,
}
use hocuspocu_rs.Types.{try_from, code, sync, sync_reply}
use hocuspocu_rs.Message
use hocuspocu_rs.Message.{to_vec}
use hocuspocu_rs.Yrs.{Yrs}

-- A sync frame as a client sends it: the address, the message type, the step and its payload.
unfoldable pub sync_frame : Str → ℕ → ℕ → Bytes → Bytes
sync_frame key kind step payload =
    write_var_string [] key
    ++ (write_var_uint [] kind ++ (write_var_uint [] step ++ write_var_uint8_array [] payload))

-- The four readings of such a frame, and the decoder between them.
record Parsed (frame : Bytes) (key : Str) (kind step : ℕ) (payload : Bytes) : Type 0 where
  d₁ : Decoder
  d₂ : Decoder
  d₃ : Decoder
  d₄ : Decoder
  key_read : read_var_string (Codec.new frame) ≡ (ok key, d₁)
  kind_read : read_var_uint d₁ ≡ (ok kind, d₂)
  step_read : read_var_uint d₂ ≡ (ok step, d₃)
  payload_read : read_var_uint8_array d₃ ≡ (ok payload, d₄)

sync_frame-Parsed :
    (key : Str) (kind step : ℕ) (payload : Bytes)
    → is_utf8 key ≡ true
    → IsU64 kind
    → IsU64 step
    → IsU64 (length (sync_frame key kind step payload))
    → Parsed (sync_frame key kind step payload) key kind step payload
unfolding sync_frame
sync_frame-Parsed key kind step payload valid hk hs w =
    let n₀ = write_var_string [] key in
    let n₁ = write_var_uint [] kind in
    let n₂ = write_var_uint [] step in
    let n₃ = write_var_uint8_array [] payload in
    let e₀ = Codec.new (n₀ ++ (n₁ ++ (n₂ ++ n₃))) in
    let a₀ = At-new (n₀ ++ (n₁ ++ (n₂ ++ n₃))) w in
    let a₁ = At-step_over e₀ n₀ (n₁ ++ (n₂ ++ n₃)) a₀ in
    let a₂ = At-step_over (step_over e₀ n₀) n₁ (n₂ ++ n₃) a₁ in
    let a₃ = At-step_over (step_over (step_over e₀ n₀) n₁) n₂ n₃ a₂ in
    record {
      d₁ = step_over e₀ n₀;
      d₂ = step_over (step_over e₀ n₀) n₁;
      d₃ = step_over (step_over (step_over e₀ n₀) n₁) n₂;
      d₄ = step_over (step_over (step_over (step_over e₀ n₀) n₁) n₂) n₃;
      key_read = read_var_string-Yields key valid _ _ a₀;
      kind_read = read_var_uint-Yields kind hk _ _ a₁;
      step_read = read_var_uint-Yields step hs _ _ a₂;
      payload_read = read_var_uint8_array-Yields payload _ [] (rw (append-nil n₃) a₃);
    }

module _ (y : Yrs) where
  abbrev receiver : Bytes → MessageReceiver y
  receiver bytes = record { bytes = bytes; default_transaction_origin = none }

  abbrev IsWrite : ℕ → Type 0
  IsWrite step = (step ≡ 1) ⊎ (step ≡ 2)

  -- A message of either type is a sync message.
  abbrev pub IsSync : ℕ → Type 0
  IsSync kind = (kind ≡ code sync) ⊎ (kind ≡ code sync_reply)

  -- The callback of the connection, if there is one, lets the step and its payload pass.
  abbrev pub Permits : BeforeSync y → ℕ → Bytes → Type 0
  Permits none step payload = Unit
  Permits (some callback) step payload = callback step payload ≡ none

  permitted :
      (before : BeforeSync y) (step : ℕ) (payload : Bytes) (d e : Decoder)
      → Permits before step payload
      → read_var_uint8_array d ≡ (ok payload, e)
      → call_before_sync y before step (peek_var_uint8_array d).0 ≡ ok tt
  unfolding peek_var_uint8_array
  permitted none step payload d e permits r = refl
  permitted (some callback) step payload d e permits r = rw (r, permits) refl

  -- A sync message that the callback permits reaches its branch with the payload in hand.
  sync_frame-apply :
      (key : Str) (kind step : ℕ) (payload : Bytes) (c address : Str) (read_only : Bool)
      (before : BeforeSync y) (x : Exchange y)
      → is_utf8 key ≡ true
      → IsSync kind
      → step ≤ 2
      → IsU64 (length (sync_frame key kind step payload))
      → Permits before step payload
      → (d : Decoder) × (e : Decoder) × (read_var_uint8_array d ≡ (ok payload, e))
        × (apply y (receiver (sync_frame key kind step payload)) (some c) address read_only before x
            ≡ sync_body y address (some c) read_only (not (kind == code sync_reply)) step d x)
  unfolding apply read_sync_message try_from code
  sync_frame-apply key kind step payload c address read_only before x valid (inl s) h w permits =
      let p = sync_frame-Parsed key kind step payload valid (omega (arith, s)) (omega arith) w in
      let passes = permitted before step payload p.d₃ p.d₄ permits p.payload_read in
      (
        p.d₃,
        p.d₄,
        p.payload_read,
        rw p.key_read (rw p.kind_read (rw s (rw p.step_read (rw passes refl)))),
      )
  sync_frame-apply key kind step payload c address read_only before x valid (inr s) h w permits =
      let p = sync_frame-Parsed key kind step payload valid (omega (arith, s)) (omega arith) w in
      let passes = permitted before step payload p.d₃ p.d₄ permits p.payload_read in
      (
        p.d₃,
        p.d₄,
        p.payload_read,
        rw p.key_read (rw p.kind_read (rw s (rw p.step_read (rw passes refl)))),
      )

  write_body :
      (address c : Str) (read_only first : Bool) (step : ℕ) (payload : Bytes) (d e : Decoder)
      (x : Exchange y)
      → IsWrite step
      → read_var_uint8_array d ≡ (ok payload, e)
      → sync_body y address (some c) read_only first step d x ≡ (
          if read_only
          then refuse_update y address (some c) (step == 2) payload x
          else accept_update y address (some c) payload x)
  write_body address c true first step payload d e x (inl one) r = rw one (rw r)
  write_body address c true first step payload d e x (inr two) r = rw two (rw r)
  write_body address c false first step payload d e x (inl one) r = rw one (rw r)
  write_body address c false first step payload d e x (inr two) r = rw two (rw r)

  IsWrite-le : (step : ℕ) → IsWrite step → step ≤ 2
  IsWrite-le step h = omega arith

  -- The update holds no change that the document lacks: its state vector can be read, and the clock of
  -- none of its clients is beyond the document's.
  abbrev pub HoldsNothingNew : Document y → Bytes → Type 0
  HoldsNothingNew d payload =
      (bytes : Bytes) × (sv : y.StateVector) × (y.sv_from_update payload ≡ inr bytes)
      × (y.decode_sv bytes ≡ inr sv)
      × All (λ entry. entry.1 ≤ y.sv_get (y.state_vector d.doc) entry.0) (y.sv_iter sv)

  module _ (key : Str) (kind step : ℕ) (payload : Bytes) (c address : Str) (before : BeforeSync y)
      (x : Exchange y) (valid : is_utf8 key ≡ true) (s : IsSync kind) (h : IsWrite step)
      (w : IsU64 (length (sync_frame key kind step payload)))
      (permits : Permits before step payload) where
    write_apply :
        (read_only : Bool)
        → apply y (receiver (sync_frame key kind step payload)) (some c) address read_only before x
          ≡ (if read_only
              then refuse_update y address (some c) (step == 2) payload x
              else accept_update y address (some c) payload x)
    write_apply read_only =
        let (d, e, r, a) =
          sync_frame-apply key kind step payload c address read_only before x valid s
            (IsWrite-le step h) w permits in
        a ∙ write_body address c read_only (not (kind == code sync_reply)) step payload d e x h r

    -- A client's update (sync step 2, or update, in a message of either sync type) that the callback of
    -- the connection permits, if it has one, and whose bytes the document accepts: the document becomes
    -- what `apply_update` makes of it, the connection is sent a positive status, and nothing else is
    -- sent. The address is UTF-8 and the frame's length is within 64 bits.
    pub apply-update_accepted :
        (d' : Document y)
        → apply_update y payload x.room.document ≡ (ok tt, d')
        → apply y (receiver (sync_frame key kind step payload)) (some c) address false before x ≡ (
          ok tt,
          record x {
            room =
                send_to_connection y c
                  (to_vec (Message.write_sync_status true (Message.new address)))
                  (record (x.room) { document = d' });
          },
        )
    unfolding status
    apply-update_accepted d' a = write_apply false ∙ rw a

    -- An update that does not decode or apply is no acknowledgement: the error is returned, for the
    -- connection to close, and nothing is sent.
    apply-update_failed :
        (e : Str) (d' : Document y)
        → apply_update y payload x.room.document ≡ (err e, d')
        → apply y (receiver (sync_frame key kind step payload)) (some c) address false before x
          ≡ (err e, record x { room = record (x.room) { document = d' } })
    apply-update_failed e d' a = write_apply false ∙ rw a

  -- A first sync step is answered by step 2 with what the client lacks, then by the server's own step
  -- 1, both to that connection.
  apply-step1 :
      (key : Str) (payload : Bytes) (c address : Str) (read_only : Bool) (before : BeforeSync y)
      (x : Exchange y) (sv : y.StateVector)
      → is_utf8 key ≡ true
      → IsU64 (length (sync_frame key 0 0 payload))
      → Permits before 0 payload
      → y.decode_sv payload ≡ inr sv
      → let doc = x.room.document.doc in
        let step2 = to_vec (
          Message.write_sync_step2
            (y.encode_state_as_update doc sv)
            (Message.create_sync_message (Message.new address))) in
        let step1 = to_vec (
          Message.write_first_sync_step_for
            (y.encode_sv (y.state_vector doc))
            (Message.create_sync_message (Message.new address))) in
        apply y (receiver (sync_frame key 0 0 payload)) (some c) address read_only before x ≡ (
          ok tt,
          record x { room = send_to_connection y c step1 (send_to_connection y c step2 x.room) },
        )
  unfolding step1_reply step2_reply encode_state_vector code
  apply-step1 key payload c address read_only before x sv valid w permits h =
      let (d, e, r, a) =
        sync_frame-apply key 0 0 payload c address read_only before x valid (inl refl) (omega arith)
          w permits in
      a ∙ rw r (rw h (rw (send-document y c (step2_reply y address sv x.room.document) x.room)))
