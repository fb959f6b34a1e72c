-- ===== src/Message/RoundTrip.antt =====
-- Every frame that the builders make is read back by the client's reader.
use hocuspocu_rs.Base.{
  ℕ, ◌≡◌, refl, Bool, true, false, [], ◌++◌, Bytes, Str, text, length, append_assoc, append-nil,
  arith, if◌then◌else◌, bytes_eq,
}
use hocuspocu_rs.Base.Outcome.{ok}
use native.Mathlib.Nat.{zero-add}
use hocuspocu_rs.Codec
use hocuspocu_rs.Codec.{
  IsU64, Reader, write_var_uint, write_var_string, write_var_uint8_array, ◌>>=◌, read_var_uint,
  read_var_uint8_array, read_var_string,
}
use hocuspocu_rs.Codec.Position.{
  Yields, Yields-bind, At-new, read_var_uint-Yields, read_var_string-Yields,
  read_var_uint8_array-Yields,
}
use hocuspocu_rs.Common.{auth_code}
use hocuspocu_rs.Common.Auth
use hocuspocu_rs.Codec.Utf8.{is_utf8}
use hocuspocu_rs.Types.{code}
use hocuspocu_rs.Message.{
  OutgoingMessage, new, create_sync_message, create_sync_reply_message,
  create_awareness_update_message, write_query_awareness, write_token_sync_request,
  write_authenticated, write_permission_denied, write_first_sync_step_for, write_sync_step2,
  write_update, write_stateless, write_broadcast_stateless, write_sync_status, write_close_message,
  to_vec, scope,
}
use hocuspocu_rs.Message.Frame.{
  Frame, Step, step1, step2, update, step_code, sync_step, sync_reply_step, awareness_update,
  awareness_query, token_request, authenticated_frame, permission_denied_frame, stateless_frame,
  broadcast_stateless_frame, close_frame, sync_status_frame, other, give, read_payload, read_step,
  read_step_body, read_text, read_status, read_auth_body, read_body, read_kind, read_frame, IsText,
  IsProper,
}

abbrev write_step : Step → Bytes → OutgoingMessage → OutgoingMessage
write_step step1 = write_first_sync_step_for
write_step step2 = write_sync_step2
write_step update = write_update

-- The builders of each frame, in the order in which the server calls them.
unfoldable pub build : Str → Frame → OutgoingMessage
build address (sync_step s p) = write_step s p (create_sync_message (new address))
build address (sync_reply_step s p) = write_step s p (create_sync_reply_message (new address))
build address (awareness_update u) = create_awareness_update_message u (new address)
build address awareness_query = write_query_awareness (new address)
build address token_request = write_token_sync_request (new address)
build address (authenticated_frame read_only) = write_authenticated read_only (new address)
build address (permission_denied_frame reason) = write_permission_denied reason (new address)
build address (stateless_frame payload) = write_stateless payload (new address)
build address (broadcast_stateless_frame payload) = write_broadcast_stateless payload (new address)
build address (close_frame reason) = write_close_message reason (new address)
build address (sync_status_frame saved) = write_sync_status saved (new address)
build address (other _) = new address

abbrev num : ℕ → Bytes
num = write_var_uint []

abbrev str : Str → Bytes
str = write_var_string []

abbrev arr : Bytes → Bytes
arr = write_var_uint8_array []

-- The bytes behind the address.
abbrev body : Frame → Bytes
body (sync_step s p) = num 0 ++ (num (step_code s) ++ arr p)
body (sync_reply_step s p) = num 4 ++ (num (step_code s) ++ arr p)
body (awareness_update u) = num 1 ++ arr u
body awareness_query = num 3 ++ []
body token_request = num 2 ++ (num 0 ++ [])
body (authenticated_frame read_only) = num 2 ++ (num 2 ++ str (scope read_only))
body (permission_denied_frame reason) = num 2 ++ (num 1 ++ str reason)
body (stateless_frame payload) = num 5 ++ str payload
body (broadcast_stateless_frame payload) = num 6 ++ str payload
body (close_frame reason) = num 7 ++ str reason
body (sync_status_frame saved) = num 8 ++ num (if saved then 1 else 0)
body (other _) = []

build-body :
    (address : Str) (f : Frame) → IsProper f → to_vec (build address f) ≡ str address ++ body f
unfolding build new create_sync_message create_sync_reply_message create_awareness_update_message
    write_query_awareness write_token_sync_request write_authenticated write_permission_denied
    write_first_sync_step_for write_sync_step2 write_update write_stateless
    write_broadcast_stateless write_sync_status write_close_message to_vec write_var_uint
    write_var_string write_var_uint8_array code Auth.write_token_sync_request
    Auth.write_authenticated Auth.write_permission_denied auth_code
build-body address (sync_step step1 p) h = simp append_assoc
build-body address (sync_step step2 p) h = simp append_assoc
build-body address (sync_step update p) h = simp append_assoc
build-body address (sync_reply_step step1 p) h = simp append_assoc
build-body address (sync_reply_step step2 p) h = simp append_assoc
build-body address (sync_reply_step update p) h = simp append_assoc
build-body address (other _) h = elim h [ ]
build-body address awareness_query h = simp append-nil
build-body address token_request h = simp (append_assoc, append-nil)
build-body address _ h = simp append_assoc

Yields-give {ℓ} : {A : Type ℓ} (a : A) → Yields (give a) [] a
Yields-give a d rest at = ground arith

Yields-map {ℓ κ} :
    {A : Type ℓ} {B : Type κ} (m : Reader A) (g : A → B) (xs : Bytes) (a : A)
    → Yields m xs a
    → Yields (m >>= λ x. give (g x)) xs (g a)
Yields-map m g xs a y d rest at = rw (y d rest at)

payload-Yields : (g : Bytes → Frame) (p : Bytes) → Yields (read_payload g) (arr p) (g p)
payload-Yields g p = Yields-map read_var_uint8_array g (arr p) p (read_var_uint8_array-Yields p)

text-Yields : (g : Str → Frame) (s : Str) → IsText s → Yields (read_text g) (str s) (g s)
text-Yields g s h = Yields-map read_var_string g (str s) s (read_var_string-Yields s h)

-- A number, and what is read after it.
num-Yields {ℓ} :
    {A : Type ℓ} (v : ℕ) (k : ℕ → Reader A) (xs : Bytes) (a : A)
    → IsU64 v
    → Yields (k v) xs a
    → Yields (read_var_uint >>= k) (num v ++ xs) a
num-Yields v k xs a h y = Yields-bind read_var_uint k (num v) xs v a (read_var_uint-Yields v h) y

step-Yields :
    (g : Step → Bytes → Frame) (s : Step) (p : Bytes)
    → Yields (read_step g) (num (step_code s) ++ arr p) (g s p)
step-Yields g step1 p = num-Yields 0 (read_step_body g) (arr p) _ (omega arith) (payload-Yields _ p)
step-Yields g step2 p = num-Yields 1 (read_step_body g) (arr p) _ (omega arith) (payload-Yields _ p)
step-Yields g update p =
    num-Yields 2 (read_step_body g) (arr p) _ (omega arith) (payload-Yields _ p)

scope-Yields :
    (b : Bool)
    → Yields
        (read_text (λ s. authenticated_frame (bytes_eq s (text "readonly"))))
        (str (scope b))
        (authenticated_frame b)
unfolding bytes_eq is_utf8
scope-Yields true = text-Yields _ (text "readonly") refl
scope-Yields false = text-Yields _ (text "read-write") refl

status-Yields : (b : Bool) → Yields read_status (num (if b then 1 else 0)) (sync_status_frame b)
status-Yields true = Yields-map read_var_uint _ (num 1) 1 (read_var_uint-Yields 1 (omega arith))
status-Yields false = Yields-map read_var_uint _ (num 0) 0 (read_var_uint-Yields 0 (omega arith))

-- A frame behind its kind.
kind-Yields :
    (v : ℕ) (xs : Bytes) (f : Frame)
    → IsU64 v
    → Yields (read_body v) xs f
    → Yields (read_var_uint >>= read_body) (num v ++ xs) f
kind-Yields v xs f h y = num-Yields v read_body xs f h y

body-Yields : (f : Frame) → IsProper f → Yields (read_var_uint >>= read_body) (body f) f
body-Yields (sync_step s p) h = kind-Yields 0 _ _ (omega arith) (step-Yields sync_step s p)
body-Yields (sync_reply_step s p) h =
    kind-Yields 4 _ _ (omega arith) (step-Yields sync_reply_step s p)
body-Yields (awareness_update u) h =
    kind-Yields 1 _ _ (omega arith) (payload-Yields awareness_update u)
body-Yields awareness_query h = kind-Yields 3 _ _ (omega arith) (Yields-give awareness_query)
body-Yields token_request h =
    kind-Yields 2 _ _ (omega arith)
      (num-Yields 0 read_auth_body [] _ (omega arith) (Yields-give token_request))
body-Yields (authenticated_frame b) h =
    kind-Yields 2 _ _ (omega arith) (num-Yields 2 read_auth_body _ _ (omega arith) (scope-Yields b))
body-Yields (permission_denied_frame s) h =
    kind-Yields 2 _ _ (omega arith)
      (num-Yields 1 read_auth_body _ _ (omega arith) (text-Yields permission_denied_frame s h))
body-Yields (stateless_frame s) h =
    kind-Yields 5 _ _ (omega arith) (text-Yields stateless_frame s h)
body-Yields (broadcast_stateless_frame s) h =
    kind-Yields 6 _ _ (omega arith) (text-Yields broadcast_stateless_frame s h)
body-Yields (close_frame s) h = kind-Yields 7 _ _ (omega arith) (text-Yields close_frame s h)
body-Yields (sync_status_frame b) h = kind-Yields 8 _ _ (omega arith) (status-Yields b)
body-Yields (other k) h = elim h [ ]

frame-Yields :
    (address : Str) (f : Frame)
    → IsText address
    → IsProper f
    → Yields read_frame (str address ++ body f) (address, f)
unfolding read_frame
frame-Yields address f h p =
    Yields-bind read_var_string _ (str address) (body f) address (address, f)
      (read_var_string-Yields address h)
      (Yields-map read_kind (λ frame. (address, frame)) (body f) f (body-Yields f p))

-- A client reads back the address and the content of every frame that the server builds, and stands
-- behind the frame. The texts in it are well-formed UTF-8, as Rust's strings are.
pub read_frame-build :
    (address : Str) (f : Frame) (rest : Bytes)
    → IsText address
    → IsProper f
    → IsU64 (length (to_vec (build address f) ++ rest))
    → let out = to_vec (build address f) in
      read_frame (Codec.new (out ++ rest))
      ≡ (ok (address, f), record { bytes = out ++ rest; pos = length out })
unfolding Codec.new
read_frame-build address f rest h p w =
    let e = build-body address f p in
    rw e (
      rw zero-add at (
        frame-Yields address f h p (Codec.new ((str address ++ body f) ++ rest)) rest
          (At-new ((str address ++ body f) ++ rest) (rw e at w))))
