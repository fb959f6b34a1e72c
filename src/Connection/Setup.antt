-- ===== src/Connection/Setup.antt =====
-- connection.rs: the callbacks that a connection is given after it was made.
use hocuspocu_rs.Base.{ℕ, ◌+◌, true, Option, some, Bytes, Str}
use hocuspocu_rs.Connection.{Connection}

-- A close callback is called with every close: how many there are is what matters.
abbrev pub on_close : Connection → Connection
on_close c = record c { on_close_callbacks = c.on_close_callbacks + 1 }

abbrev pub set_stateless_callback : Connection → Connection
set_stateless_callback c = record c { callbacks = record (c.callbacks) { stateless = true } }

abbrev pub set_before_handle_message : (Str → Bytes → Option Str) → Connection → Connection
set_before_handle_message callback c = record c {
  callbacks = record (c.callbacks) { before_handle_message = some callback };
}

abbrev pub set_before_sync : (Str → ℕ → Bytes → Option Str) → Connection → Connection
set_before_sync callback c = record c {
  callbacks = record (c.callbacks) { before_sync = some callback };
}

abbrev pub set_token_sync_callback : (Str → Option Str) → Connection → Connection
set_token_sync_callback callback c = record c {
  callbacks = record (c.callbacks) { token_sync = some callback };
}
