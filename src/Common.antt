-- ===== src/Common.antt =====
-- hocuspocu-rs-common/src/close_events.rs, types.rs and auth.rs: the types that the server shares
-- with its clients. The writers and readers of auth.rs are in Common/Auth.antt.
use hocuspocu_rs.Base.{ℕ, Str, Option, none, some, text, ◌==◌, if◌then◌else◌}
pub mod RoutingKey
pub mod Auth
pub mod Awareness

pub data WsReadyState : Type 0 where
  connecting open_ closing closed : WsReadyState

pub record CloseEvent : Type 0 where
  pub code : ℕ
  pub reason : Str

unfoldable pub message_too_big : CloseEvent
message_too_big = record { code = 1009; reason = text "Message Too Big" }

unfoldable pub reset_connection : CloseEvent
reset_connection = record { code = 4205; reason = text "Reset Connection" }

unfoldable pub unauthorized : CloseEvent
unauthorized = record { code = 4401; reason = text "Unauthorized" }

unfoldable pub forbidden : CloseEvent
forbidden = record { code = 4403; reason = text "Forbidden" }

unfoldable pub connection_timeout : CloseEvent
connection_timeout = record { code = 4408; reason = text "Connection Timeout" }

-- `CloseEvent::new`, which drops the reason that it is given.
pub close_event : ℕ → Str → CloseEvent
close_event code _ = record { code = code; reason = text "" }

pub data AuthMessageType : Type 0 where
  token permission_denied authenticated : AuthMessageType

-- `as u64`.
unfoldable pub auth_code : AuthMessageType → ℕ
auth_code token = 0
auth_code permission_denied = 1
auth_code authenticated = 2

pub auth_try_from : ℕ → Option AuthMessageType
auth_try_from value =
    if value == 0
    then some token
    else if value == 1
    then some permission_denied
    else if value == 2
    then some authenticated
    else none
