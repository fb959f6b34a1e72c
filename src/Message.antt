-- ===== src/Message.antt =====
-- hocuspocu-rs/src/outgoing_message.rs and incoming_message.rs: the frames the server builds, and
-- the reader and writer pair that wraps the decoder.
use hocuspocu_rs.Base.{ℕ, Bool, [], ◌++◌, Option, none, some, Bytes, Str, text, if◌then◌else◌}
use hocuspocu_rs.Base.Outcome.{Outcome}
use hocuspocu_rs.Codec
use hocuspocu_rs.Codec.{Decoder, IoError, write_var_uint, write_var_string, write_var_uint8_array}
use hocuspocu_rs.Common.Auth
use hocuspocu_rs.Types.{
  MessageType, code, sync, sync_reply, awareness, query_awareness, auth, stateless,
  broadcast_stateless, sync_status, close,
}
pub mod Frame
pub mod RoundTrip

pub record OutgoingMessage : Type 0 where
  pub encoder : Bytes
  pub message_type : Option MessageType
  pub category : Option Str

unfoldable pub new : Str → OutgoingMessage
new document_name = record {
  encoder = write_var_string [] document_name;
  message_type = none;
  category = none;
}

unfoldable pub create_sync_message : OutgoingMessage → OutgoingMessage
create_sync_message m = record m {
  message_type = some sync;
  encoder = write_var_uint m.encoder (code sync);
}

unfoldable pub create_sync_reply_message : OutgoingMessage → OutgoingMessage
create_sync_reply_message m = record m {
  message_type = some sync_reply;
  encoder = write_var_uint m.encoder (code sync_reply);
}

unfoldable pub create_awareness_update_message : Bytes → OutgoingMessage → OutgoingMessage
create_awareness_update_message update_data m = record m {
  message_type = some awareness;
  category = some (text "Update");
  encoder = write_var_uint8_array (write_var_uint m.encoder (code awareness)) update_data;
}

unfoldable pub write_query_awareness : OutgoingMessage → OutgoingMessage
write_query_awareness m = record m {
  message_type = some query_awareness;
  category = some (text "Update");
  encoder = write_var_uint m.encoder (code query_awareness);
}

unfoldable pub write_token_sync_request : OutgoingMessage → OutgoingMessage
write_token_sync_request m = record m {
  message_type = some auth;
  category = some (text "TokenSync");
  encoder = Auth.write_token_sync_request (write_var_uint m.encoder (code auth));
}

abbrev pub scope : Bool → Str
scope read_only = if read_only then text "readonly" else text "read-write"

unfoldable pub write_authenticated : Bool → OutgoingMessage → OutgoingMessage
write_authenticated read_only m = record m {
  message_type = some auth;
  category = some (text "Authenticated");
  encoder = Auth.write_authenticated (write_var_uint m.encoder (code auth)) (scope read_only);
}

unfoldable pub write_permission_denied : Str → OutgoingMessage → OutgoingMessage
write_permission_denied reason m = record m {
  message_type = some auth;
  category = some (text "PermissionDenied");
  encoder = Auth.write_permission_denied (write_var_uint m.encoder (code auth)) reason;
}

-- The step of the sync protocol, then its payload.
unfoldable pub write_first_sync_step_for : Bytes → OutgoingMessage → OutgoingMessage
write_first_sync_step_for state_vector m = record m {
  category = some (text "SyncStep1");
  encoder = write_var_uint8_array (write_var_uint m.encoder 0) state_vector;
}

unfoldable pub write_sync_step2 : Bytes → OutgoingMessage → OutgoingMessage
write_sync_step2 update m = record m {
  category = some (text "SyncStep2");
  encoder = write_var_uint8_array (write_var_uint m.encoder 1) update;
}

unfoldable pub write_update : Bytes → OutgoingMessage → OutgoingMessage
write_update update m = record m {
  category = some (text "Update");
  encoder = write_var_uint8_array (write_var_uint m.encoder 2) update;
}

unfoldable pub write_stateless : Str → OutgoingMessage → OutgoingMessage
write_stateless payload m = record m {
  category = some (text "Stateless");
  encoder = write_var_string (write_var_uint m.encoder (code stateless)) payload;
}

unfoldable pub write_broadcast_stateless : Str → OutgoingMessage → OutgoingMessage
write_broadcast_stateless payload m = record m {
  category = some (text "Stateless");
  encoder = write_var_string (write_var_uint m.encoder (code broadcast_stateless)) payload;
}

unfoldable pub write_sync_status : Bool → OutgoingMessage → OutgoingMessage
write_sync_status update_saved m = record m {
  category = some (text "SyncStatus");
  encoder =
      write_var_uint (write_var_uint m.encoder (code sync_status)) (if update_saved then 1 else 0);
}

unfoldable pub write_close_message : Str → OutgoingMessage → OutgoingMessage
write_close_message reason m = record m {
  message_type = some close;
  encoder = write_var_string (write_var_uint m.encoder (code close)) reason;
}

unfoldable pub to_vec : OutgoingMessage → Bytes
to_vec m = m.encoder

pub record IncomingMessage : Type 0 where
  pub decoder : Decoder
  pub encoder : Bytes

unfoldable pub new_incoming : Bytes → IncomingMessage
new_incoming bytes = record { decoder = Codec.new bytes; encoder = [] }

-- A method that hands its work to the decoder.
abbrev on_decoder {ℓ} :
    {A : Type ℓ}
    → (Decoder → Outcome IoError A × Decoder)
    → IncomingMessage
    → Outcome IoError A × IncomingMessage
on_decoder m i = let (r, d) = m i.decoder in (r, record i { decoder = d })

unfoldable pub read_var_uint : IncomingMessage → Outcome IoError ℕ × IncomingMessage
read_var_uint = on_decoder Codec.read_var_uint

unfoldable pub read_var_string : IncomingMessage → Outcome IoError Str × IncomingMessage
read_var_string = on_decoder Codec.read_var_string

unfoldable pub read_var_uint8_array : IncomingMessage → Outcome IoError Bytes × IncomingMessage
read_var_uint8_array = on_decoder Codec.read_var_uint8_array

unfoldable pub peek_var_uint8_array : IncomingMessage → Outcome IoError Bytes × IncomingMessage
peek_var_uint8_array = on_decoder Codec.peek_var_uint8_array

unfoldable pub write_reply_uint : ℕ → IncomingMessage → IncomingMessage
write_reply_uint value i = record i { encoder = write_var_uint i.encoder value }

unfoldable pub write_reply_string : Str → IncomingMessage → IncomingMessage
write_reply_string s i = record i { encoder = write_var_string i.encoder s }
