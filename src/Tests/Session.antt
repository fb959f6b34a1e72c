-- ===== src/Tests/Session.antt =====
-- Documents, connections and sinks on concrete frames.
use hocuspocu_rs.Base.{
  ◌≡◌, refl, inl, inr, text, if◌then◌else◌, true, false, [], ◌∷◌, none, some, Bytes, Str, length,
  arith, ◌==◌,
}
use hocuspocu_rs.Base.Outcome.{Outcome, ok, err, panic}
use hocuspocu_rs.Codec
use hocuspocu_rs.Codec.{
  write_var_uint, write_var_string, write_var_uint8_array, IoError, unexpected_end, read_var_string,
}
use hocuspocu_rs.Codec.Utf8.{is_utf8}
use hocuspocu_rs.Common.{reset_connection}
use hocuspocu_rs.Document.{
  apply_update, send_to_connection, has_connection, send_each, awareness_frame,
}
use hocuspocu_rs.Document.Broadcast.{frames_for, queue_all, send_each-frames_for}
use hocuspocu_rs.Message
use hocuspocu_rs.Types
use hocuspocu_rs.Message.{to_vec}
use hocuspocu_rs.Receiver.{BeforeSync, apply}
use hocuspocu_rs.Receiver.Replies.{sync_frame, apply-update_accepted}
use hocuspocu_rs.Connection.{close, process_messages}
use hocuspocu_rs.Connection.Closing.{close-close}
use hocuspocu_rs.Connection.Queue.{handle_all, process_messages-handle_all}
use hocuspocu_rs.Connection.Dispatch.{handle_all-read_only}
use hocuspocu_rs.Sink.Laws.{
  send_request, close_request, ask_all, fresh, run_writer, delivered, ask_all-delivered,
}
use hocuspocu_rs.Tests.{toy, notes, alice, entry, open_sinks, document, room, exchange, peer}

-- An update frame of the client, with one byte for the document.
abbrev update_bytes : Bytes
update_bytes = sync_frame notes 0 2 (5 ∷ [])

handle_all-read_only_example :
    let q = (handle_all toy (update_bytes ∷ []) (peer true [])).1 in
    (q.room.document.doc ≡ (peer true []).room.document.doc)
    × (q.room.document.updates ≡ (peer true []).room.document.updates)
    × (q.conn.read_only ≡ true)
handle_all-read_only_example = handle_all-read_only toy (update_bytes ∷ []) (peer true []) refl

process_messages-handle_all_example :
    process_messages toy (peer false (update_bytes ∷ []))
    ≡ some (handle_all toy (update_bytes ∷ []) (peer false (update_bytes ∷ [])))
process_messages-handle_all_example =
    process_messages-handle_all toy (peer false (update_bytes ∷ []))

-- A callback that lets every step but the first pass.
abbrev passing : BeforeSync toy
passing = some (λ step payload. if step == 0 then some (text "no") else none)

apply-update_accepted_example :
    apply toy
      (record { bytes = sync_frame notes 0 2 (5 ∷ []); default_transaction_origin = none })
      (some alice)
      notes
      false
      passing
      (exchange false)
    ≡ (
      ok tt,
      record (exchange false) {
        room =
            send_to_connection toy alice
              (to_vec (Message.write_sync_status true (Message.new notes)))
              (record (room false) {
                document = record (document false) { doc = 1 ∷ 5 ∷ []; updates = (5 ∷ []) ∷ [] };
              });
      },
    )
unfolding is_utf8 sync_frame write_var_string write_var_uint Codec.var_uint_bytes
    write_var_uint8_array apply_update Types.code
apply-update_accepted_example =
    apply-update_accepted toy notes 0 2 (5 ∷ []) alice notes passing (exchange false) refl
      (inl refl) (inr refl) (omega arith) refl
      (record (document false) { doc = 1 ∷ 5 ∷ []; updates = (5 ∷ []) ∷ [] }) refl

close-close_example :
    (has_connection toy alice (close toy none (peer false [])).room.document ≡ false)
    × (close toy (some reset_connection) (close toy none (peer false []))
        ≡ close toy none (peer false []))
close-close_example = close-close toy none (some reset_connection) (peer false [])

ask_all-delivered_example :
    let s =
      ask_all (send_request (1 ∷ []) ∷ close_request 1000 [] ∷ send_request (2 ∷ []) ∷ []) fresh in
    (run_writer (length s.tx) (record { wire = []; sink = s })).wire
    ≡ delivered (send_request (1 ∷ []) ∷ close_request 1000 [] ∷ send_request (2 ∷ []) ∷ [])
ask_all-delivered_example =
    ask_all-delivered (send_request (1 ∷ []) ∷ close_request 1000 [] ∷ send_request (2 ∷ []) ∷ [])

send_each-frames_for_example :
    send_each toy
      (λ e. awareness_frame e.message_address (7 ∷ []))
      ((alice, entry false) ∷ [])
      open_sinks
      0
    ≡ queue_all
        (frames_for 0 (λ e. awareness_frame e.message_address (7 ∷ [])) ((alice, entry false) ∷ []))
        (open_sinks 0)
send_each-frames_for_example =
    send_each-frames_for toy (λ e. awareness_frame e.message_address (7 ∷ []))
      ((alice, entry false) ∷ []) open_sinks 0

err≢ok : {r : Outcome IoError Str} {e : IoError} {s : Str} → r ≡ err e → r ≡ ok s → ⊥
err≢ok e f = ground (arith, e, f)

err≢panic : {r : Outcome IoError Str} {e : IoError} → r ≡ err e → r ≡ panic → ⊥
err≢panic e f = ground (arith, e, f)

empty_frame : (read_var_string (Codec.new [])).0 ≡ err unexpected_end
unfolding read_var_string Codec.read_var_uint Codec.read_groups Codec.new
empty_frame = refl
