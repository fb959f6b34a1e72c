-- ===== src/Message/Frame.antt =====
-- The wire protocol as a client reads it: every frame of the server, and a reader for them that is
-- written from the protocol and does not look at the server's builders.
use hocuspocu_rs.Base.{ℕ, Bool, true, false, ◌≡◌, Bytes, Str, text, ◌==◌, if◌then◌else◌, bytes_eq}
use hocuspocu_rs.Base.Outcome.{ok}
use hocuspocu_rs.Codec.{Reader, ◌>>=◌, read_var_uint, read_var_string, read_var_uint8_array}
use hocuspocu_rs.Codec.Utf8.{is_utf8}

pub data Step : Type 0 where
  step1 step2 update : Step

abbrev pub step_code : Step → ℕ
step_code step1 = 0
step_code step2 = 1
step_code update = 2

pub data Frame : Type 0 where
  sync_step sync_reply_step : Step → Bytes → Frame
  awareness_update : Bytes → Frame
  awareness_query token_request : Frame
  authenticated_frame : Bool → Frame
  permission_denied_frame stateless_frame broadcast_stateless_frame close_frame : Str → Frame
  sync_status_frame : Bool → Frame
  other : ℕ → Frame

abbrev pub give {ℓ} : {A : Type ℓ} → A → Reader A
give a d = (ok a, d)

abbrev pub read_payload : (Bytes → Frame) → Reader Frame
read_payload f = do payload ← read_var_uint8_array; give (f payload)

abbrev pub read_step_body : (Step → Bytes → Frame) → ℕ → Reader Frame
read_step_body f step =
    if step == 0
    then read_payload (f step1)
    else if step == 1
    then read_payload (f step2)
    else if step == 2
    then read_payload (f update)
    else give (other step)

abbrev pub read_step : (Step → Bytes → Frame) → Reader Frame
read_step f = do step ← read_var_uint; read_step_body f step

abbrev pub read_text : (Str → Frame) → Reader Frame
read_text f = do s ← read_var_string; give (f s)

abbrev pub read_status : Reader Frame
read_status = do
  saved ← read_var_uint
  give (sync_status_frame (if saved == 0 then false else true))

abbrev pub read_auth_body : ℕ → Reader Frame
read_auth_body kind =
    if kind == 0
    then give token_request
    else if kind == 1
    then read_text permission_denied_frame
    else read_text (λ s. authenticated_frame (bytes_eq s (text "readonly")))

abbrev pub read_auth : Reader Frame
read_auth = do kind ← read_var_uint; read_auth_body kind

abbrev pub read_body : ℕ → Reader Frame
read_body kind =
    if kind == 0
    then read_step sync_step
    else if kind == 1
    then read_payload awareness_update
    else if kind == 2
    then read_auth
    else if kind == 3
    then give awareness_query
    else if kind == 4
    then read_step sync_reply_step
    else if kind == 5
    then read_text stateless_frame
    else if kind == 6
    then read_text broadcast_stateless_frame
    else if kind == 7
    then read_text close_frame
    else if kind == 8
    then read_status
    else give (other kind)

abbrev pub read_kind : Reader Frame
read_kind = do kind ← read_var_uint; read_body kind

-- The address, and the frame behind it.
unfoldable pub read_frame : Reader (Str × Frame)
read_frame = do address ← read_var_string; frame ← read_kind; give (address, frame)

-- The texts of a frame are Rust strings.
abbrev pub IsText : Str → Type 0
IsText s = is_utf8 s ≡ true

abbrev pub IsProper : Frame → Type 0
IsProper (permission_denied_frame s) = IsText s
IsProper (stateless_frame s) = IsText s
IsProper (broadcast_stateless_frame s) = IsText s
IsProper (close_frame s) = IsText s
IsProper (other _) = ⊥
IsProper _ = Unit {0}
