-- ===== src/Sink.antt =====
-- hocuspocu-rs/src/server.rs, `TungsteniteWebSocketSink` and its writer task: the one sink behind
-- all the connections of a client. A sink is shared, so it lives in a store under a number.
use hocuspocu_rs.Base.{
  ℕ, Bool, true, false, ◌||◌, List, [], ◌∷◌, ◌++◌, Bytes, Str, ◌==◌, if◌then◌else◌,
}
use hocuspocu_rs.Common.{WsReadyState, closing, closed}
pub mod Laws

pub data WriterCmd : Type 0 where
  send_cmd : Bytes → WriterCmd
  close_cmd : ℕ → Str → WriterCmd

-- `tx` holds the commands that the writer task has not taken yet; `alive` tells whether the task
-- still holds the receiving end.
pub record Sink : Type 0 where
  pub tx : List WriterCmd
  pub state : WsReadyState
  pub alive : Bool

abbrev pub is_closing : WsReadyState → Bool
is_closing closing = true
is_closing closed = true
is_closing _ = false

-- `tx.send`: fails if the writer is gone.
abbrev push : WriterCmd → Sink → Bool × Sink
push cmd s = if s.alive then (true, record s { tx = s.tx ++ (cmd ∷ []) }) else (false, s)

-- `false` is the error "websocket writer task closed".
unfoldable pub send_sink : Bytes → Sink → Bool × Sink
send_sink bytes s = if is_closing s.state then (true, s) else push (send_cmd bytes) s

unfoldable pub close_sink : ℕ → Str → Sink → Sink
close_sink code reason s = (push (close_cmd code reason) (record s { state = closing })).1

-- The store of the sinks.
abbrev pub Sinks : Type 0
Sinks = ℕ → Sink

unfoldable pub set_sink : Sinks → ℕ → Sink → Sinks
set_sink sinks k s j = if k == j then s else sinks j

unfoldable pub send : ℕ → Bytes → Sinks → Bool × Sinks
send k bytes sinks = let (sent, s) = send_sink bytes (sinks k) in (sent, set_sink sinks k s)

unfoldable pub close : ℕ → ℕ → Str → Sinks → Sinks
close k code reason sinks = set_sink sinks k (close_sink code reason (sinks k))

-- The state, behind the loop that reads the socket.
unfoldable pub set_closed : ℕ → Sinks → Sinks
set_closed k sinks = set_sink sinks k (record (sinks k) { state = closed })

-- What the writer task has put on the wire.
pub data Wire : Type 0 where
  binary : Bytes → Wire
  close_frame : ℕ → Str → Wire

pub record Writer : Type 0 where
  pub wire : List Wire
  pub sink : Sink

-- One command taken by the writer task, whose feed, flush and send succeed: a close command ends the
-- task, and the state is closed. `fails` is an I/O error of the feed, which ends the task as well.
abbrev stop : Sink → Sink
stop s = record s { state = closed; alive = false; tx = [] }

abbrev write_cmd : Bool → WriterCmd → List WriterCmd → Writer → Writer
write_cmd fails (send_cmd bytes) rest w =
    if fails
    then record w { sink = stop w.sink }
    else record w { wire = w.wire ++ (binary bytes ∷ []); sink = record (w.sink) { tx = rest } }
write_cmd fails (close_cmd code reason) rest w = record w {
  wire = w.wire ++ (close_frame code reason ∷ []);
  sink = stop w.sink;
}

abbrev write_next : Bool → List WriterCmd → Writer → Writer
write_next fails [] w = w
write_next fails (cmd ∷ rest) w = write_cmd fails cmd rest w

unfoldable pub writer_step : Bool → Writer → Writer
writer_step fails w = if w.sink.alive then write_next fails w.sink.tx w else w
