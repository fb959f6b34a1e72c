-- ===== src/Document/Broadcast.antt =====
-- What a document sends to its connections: which sinks, in which order, and in which frames.
use hocuspocu_rs.Base.{
  ℕ, ◌≡◌, refl, sym, List, [], ◌∷◌, ◌++◌, Bytes, Str, HashMap, arith, ◌==◌, ==_iff, if◌then◌else◌,
  append-nil, append_assoc, Bool-cases, inl, inr,
}
use hocuspocu_rs.Document.{
  ConnectionEntry, send_each, awareness_frame, update_frame, stateless_frame,
}
use hocuspocu_rs.Message
use hocuspocu_rs.Message.{to_vec}
use hocuspocu_rs.Sink
use hocuspocu_rs.Sink.{WriterCmd, send_cmd, Sink, Sinks, send_sink, set_sink, is_closing}
use hocuspocu_rs.Yrs.{Yrs}

-- The three frames that document.rs writes byte by byte are those of the builders of
-- outgoing_message.rs.
frames-builders :
    (address payload : Str) (update : Bytes)
    → (awareness_frame address update
        ≡ to_vec (Message.create_awareness_update_message update (Message.new address)))
      × (update_frame address update
          ≡ to_vec
              (Message.write_update update (Message.create_sync_message (Message.new address))))
      × (stateless_frame address payload
          ≡ to_vec (Message.write_stateless payload (Message.new address)))
unfolding awareness_frame update_frame stateless_frame to_vec
    Message.create_awareness_update_message Message.write_update Message.create_sync_message
    Message.write_stateless Message.new
frames-builders address payload update = (refl, refl, refl)

-- The frames meant for the sink `k`, in the order of the connections.
pub frames_for : ℕ → (ConnectionEntry → Bytes) → HashMap ConnectionEntry → List WriterCmd
frames_for k frame [] = []
frames_for k frame ((_, e) ∷ conns) =
    let rest = frames_for k frame conns in if e.ws == k then send_cmd (frame e) ∷ rest else rest

-- A sink that is open and whose writer is there takes the commands; any other stays as it was.
pub queue_all : List WriterCmd → Sink → Sink
queue_all cmds s =
    if is_closing s.state then s else if s.alive then record s { tx = s.tx ++ cmds } else s

queue_all_nil : (s : Sink) → queue_all [] s ≡ s
unfolding queue_all
queue_all_nil s = ground (arith, append-nil s.tx)

send_sink-queue_all :
    (bytes : Bytes) (cmds : List WriterCmd) (s : Sink)
    → queue_all cmds (send_sink bytes s).1 ≡ queue_all (send_cmd bytes ∷ cmds) s
unfolding queue_all send_sink
send_sink-queue_all bytes cmds s = ground (arith, append_assoc s.tx (send_cmd bytes ∷ []) cmds)

send-at :
    (w : ℕ) (bytes : Bytes) (sinks : Sinks) (k : ℕ)
    → (Sink.send w bytes sinks).1 k ≡ (if w == k then (send_sink bytes (sinks k)).1 else sinks k)
unfolding Sink.send set_sink
send-at w bytes sinks k = elim (Bool-cases (w == k)) [
  | inl same ↦ let e : w ≡ k = (==_iff w k).0 same in rw (same, e) refl
  | inr other ↦ rw other refl
]

module _ (y : Yrs) where
  -- A broadcast queues on every sink that is open the frames of the connections behind that sink, one
  -- for each and in their order, and nothing else; a sink that is closing, or whose writer is gone,
  -- stays as it was and stops no other.
  pub send_each-frames_for :
      (frame : ConnectionEntry → Bytes) (conns : HashMap ConnectionEntry) (sinks : Sinks) (k : ℕ)
      → send_each y frame conns sinks k ≡ queue_all (frames_for k frame conns) (sinks k)
  unfolding send_each frames_for
  send_each-frames_for frame [] sinks k = sym (queue_all_nil (sinks k))
  send_each-frames_for frame ((_, e) ∷ conns) sinks k = ground (
    arith,
    send_each-frames_for frame conns (Sink.send e.ws (frame e) sinks).1 k,
    send-at e.ws (frame e) sinks k,
    send_sink-queue_all (frame e) (frames_for k frame conns) (sinks k),
  )
