-- ===== src/Document/Access.antt =====
-- document.rs: what other parts read of a document's connections, what they send to all of them, and
-- the documents that are merged into it.
use hocuspocu_rs.Base.{ℕ, Bool, true, List, [], ◌∷◌, map, Option, none, some, Bytes, Str, get}
use hocuspocu_rs.Base.Outcome.{Outcome, ok, err, panic}
use hocuspocu_rs.Document.{Document, ConnectionEntry, Room, send_each, apply_update}
use hocuspocu_rs.Types.{TransactionOrigin}
use hocuspocu_rs.Yrs.{Yrs}

abbrev pub info_of : Option ConnectionEntry → Option (Str × Bool × Str × ℕ)
info_of none = none
info_of (some e) = some (e.socket_id, e.read_only, e.message_address, e.ws)

module _ (y : Yrs) where
  unfoldable pub get_connection_ids : Document y → List Str
  get_connection_ids d = map (λ c. c.0) d.connections

  unfoldable pub get_connection_info : Str → Document y → Option (Str × Bool × Str × ℕ)
  get_connection_info connection_id d = info_of (get connection_id d.connections)

  -- The observer exists as long as its subscription is kept.
  abbrev pub store_update_subscription : Document y → Document y
  store_update_subscription d = record d { has_update_subscription = true }

  abbrev pub set_before_handle_awareness :
      (Bytes → Option TransactionOrigin → Outcome Str Bytes) → Document y → Document y
  set_before_handle_awareness callback d = record d { before_handle_awareness = some callback }

  unfoldable pub send_to_all_connections : (Str → Bytes) → Room y → Room y
  send_to_all_connections data_fn r = record r {
    sinks = send_each y (λ e. data_fn e.message_address) r.document.connections r.sinks;
  }

  -- Up to the first document that is refused.
  unfoldable pub merge : List y.Doc → Document y → Outcome Str (Unit {0}) × Document y
  merge [] d = (ok tt, d)
  merge (doc ∷ documents) d =
      let (applied, d') = apply_update y (y.encode_state_as_update doc y.sv_default) d in
      let rest = merge documents d' in
      elim applied [ ok done ↦ rest | err e ↦ (err e, d') | panic ↦ (panic, d') ]
