-- ===== src/Client/Events.antt =====
-- What happens to a socket, one after the other: the loop of server.rs awaits each frame, and the
-- tasks that client_connection.rs spawns come between two frames.
use hocuspocu_rs.Base.{ℕ, Bool, true, List, [], ◌∷◌, Option, Bytes, Str}
use hocuspocu_rs.Common.{CloseEvent}
use hocuspocu_rs.Client.{Hooks, Client, handle_close, ping_round, finish_close, and_then}
use hocuspocu_rs.Client.Handshake.{handle_message}
use hocuspocu_rs.Sink
use hocuspocu_rs.Yrs.{Yrs}

-- A frame with its time; the end of the socket, behind which its sink is closed; a round of the timeout's task with the timeout and
-- the time; the task of a connection's close callback with the key and the document's name.
pub data SocketEvent : Type 0 where
  frame : ℕ → Bytes → SocketEvent
  end_of_socket : Option CloseEvent → SocketEvent
  timer : ℕ → ℕ → SocketEvent
  callback : Str → Str → SocketEvent

module _ (y : Yrs) (h : Hooks) where
  abbrev pub behind_loop : Client y → Client y
  behind_loop c = record c { sinks = Sink.set_closed c.ws c.sinks }

  abbrev pub on_event : SocketEvent → Client y → Bool × Client y
  on_event (frame now bytes) c = handle_message y h now bytes c
  on_event (end_of_socket event) c = (true, behind_loop (handle_close y event c))
  on_event (timer timeout_ms now) c = (true, ping_round y timeout_ms now c)
  on_event (callback raw_key document_name) c = (true, finish_close y raw_key document_name c)

  -- Up to a frame that panics.
  unfoldable pub run : List SocketEvent → Client y → Bool × Client y
  run [] c = (true, c)
  run (event ∷ events) c = and_then y (on_event event c) (run events)
