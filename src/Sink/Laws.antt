-- ===== src/Sink/Laws.antt =====
-- What reaches the wire of a sink whatever is asked of it.
use hocuspocu_rs.Base.{
  ℕ, zero, suc, ◌≡◌, refl, sym, ap, ◌∙◌, true, false, List, [], ◌∷◌, ◌++◌, Bytes, Str, length,
  append-nil, append_assoc, arith,
}
use hocuspocu_rs.Common.{WsReadyState, open_, closing, closed}
use hocuspocu_rs.Sink.{
  WriterCmd, send_cmd, close_cmd, Sink, send_sink, close_sink, Wire, binary, close_frame, Writer,
  writer_step,
}

pub data Request : Type 0 where
  send_request : Bytes → Request
  close_request : ℕ → Str → Request

pub ask : Request → Sink → Sink
ask (send_request bytes) s = (send_sink bytes s).1
ask (close_request code reason) s = close_sink code reason s

pub ask_all : List Request → Sink → Sink
ask_all [] s = s
ask_all (r ∷ rs) s = ask_all rs (ask r s)

-- A sink whose writer task has just started.
pub fresh : Sink
fresh = record { tx = []; state = open_; alive = true }

pub run_writer : ℕ → Writer → Writer
run_writer zero w = w
run_writer (suc n) w = run_writer n (writer_step false w)

-- What the client should see of some requests: the data up to the first close, and that close.
pub delivered : List Request → List Wire
delivered [] = []
delivered (send_request bytes ∷ rs) = binary bytes ∷ delivered rs
delivered (close_request code reason ∷ rs) = close_frame code reason ∷ []

-- The commands that an open sink, and a closing one, queue for some requests.
closing_commands : List Request → List WriterCmd
closing_commands [] = []
closing_commands (send_request bytes ∷ rs) = closing_commands rs
closing_commands (close_request code reason ∷ rs) = close_cmd code reason ∷ closing_commands rs

commands : List Request → List WriterCmd
commands [] = []
commands (send_request bytes ∷ rs) = send_cmd bytes ∷ commands rs
commands (close_request code reason ∷ rs) = close_cmd code reason ∷ closing_commands rs

abbrev in_state : WsReadyState → List WriterCmd → Sink
in_state state tx = record { tx = tx; state = state; alive = true }

ask_all_closing :
    (rs : List Request) (tx : List WriterCmd)
    → ask_all rs (in_state closing tx) ≡ in_state closing (tx ++ closing_commands rs)
unfolding ask_all ask closing_commands send_sink close_sink
ask_all_closing [] tx = rw append-nil refl
ask_all_closing (send_request bytes ∷ rs) tx = ask_all_closing rs tx
ask_all_closing (close_request code reason ∷ rs) tx =
    ask_all_closing rs (tx ++ (close_cmd code reason ∷ [])) ∙ rw append_assoc refl

ask_all_tx :
    (rs : List Request) (tx : List WriterCmd)
    → (ask_all rs (in_state open_ tx)).tx ≡ tx ++ commands rs
unfolding ask_all ask commands send_sink close_sink
ask_all_tx [] tx = rw append-nil refl
ask_all_tx (send_request bytes ∷ rs) tx =
    ask_all_tx rs (tx ++ (send_cmd bytes ∷ [])) ∙ rw append_assoc refl
ask_all_tx (close_request code reason ∷ rs) tx =
    ap (λ (s : Sink). s.tx) (ask_all_closing rs (tx ++ (close_cmd code reason ∷ [])))
    ∙ rw append_assoc refl

ask_alive : (r : Request) (s : Sink) → s.alive ≡ true → (ask r s).alive ≡ true
unfolding ask send_sink close_sink
ask_alive (send_request bytes) s h = ground arith
ask_alive (close_request code reason) s h = ground arith

ask_all_alive : (rs : List Request) (s : Sink) → s.alive ≡ true → (ask_all rs s).alive ≡ true
unfolding ask_all
ask_all_alive [] s h = h
ask_all_alive (r ∷ rs) s h = ask_all_alive rs (ask r s) (ask_alive r s h)

-- A writer that has stopped stays as it is.
run_writer_stopped :
    (n : ℕ) (wire : List Wire) (state : WsReadyState) (tx : List WriterCmd)
    → let w : Writer = record {
      wire = wire;
      sink = record { tx = tx; state = state; alive = false };
    } in
      run_writer n w ≡ w
unfolding run_writer writer_step
run_writer_stopped zero wire state tx = refl
run_writer_stopped (suc n) wire state tx = run_writer_stopped n wire state tx

run_writer-commands :
    (rs : List Request) (wire : List Wire) (state : WsReadyState)
    → (run_writer
        (length (commands rs))
        (record { wire = wire; sink = in_state state (commands rs) })).wire
      ≡ wire ++ delivered rs
unfolding commands run_writer writer_step delivered
run_writer-commands [] wire state = sym (append-nil wire)
run_writer-commands (send_request bytes ∷ rs) wire state =
    run_writer-commands rs (wire ++ (binary bytes ∷ [])) state
    ∙ append_assoc wire (binary bytes ∷ []) (delivered rs)
run_writer-commands (close_request code reason ∷ rs) wire state =
    ap (λ (w : Writer). w.wire)
      (run_writer_stopped (length (closing_commands rs)) (wire ++ (close_frame code reason ∷ []))
        closed [])

in_state_lem :
    (s : Sink) (tx : List WriterCmd) → s.alive ≡ true → s.tx ≡ tx → s ≡ in_state s.state tx
in_state_lem s tx h e = ground arith

-- Whatever is asked of a new sink, its writer, given one step for each command in its queue and no
-- I/O error, puts on the wire the data asked for before the first close, in order and once each, then
-- that close, and nothing behind it.
pub ask_all-delivered :
    (rs : List Request)
    → let s = ask_all rs fresh in
      (run_writer (length s.tx) (record { wire = []; sink = s })).wire ≡ delivered rs
unfolding fresh
ask_all-delivered rs =
    let s = ask_all rs fresh in
    ap (λ (t : Sink). (run_writer (length t.tx) (record { wire = []; sink = t })).wire)
      (in_state_lem s (commands rs) (ask_all_alive rs fresh refl) (ask_all_tx rs []))
    ∙ run_writer-commands rs [] s.state
