-- ===== src/Document/Awareness.antt =====
-- `Document::apply_awareness_update`: a client's awareness update, applied and passed on.
use hocuspocu_rs.Base.{ℕ, List, [], ◌∷◌, Option, none, some, Bytes, Str, if◌then◌else◌, get, insert}
use hocuspocu_rs.Base.Outcome.{Outcome, ok, err, panic}
use hocuspocu_rs.Document.{
  Document, Room, ConnectionEntry, add_client, broadcast_awareness_to_connections,
}
use hocuspocu_rs.Types.{TransactionOrigin}
use hocuspocu_rs.Yrs.{Yrs}

abbrev pub add_clients : List ℕ → List ℕ → List ℕ
add_clients [] xs = xs
add_clients (k ∷ ks) xs = add_clients ks (add_client k xs)

module _ (y : Yrs) where
  abbrev pub run_before :
      Option (Bytes → Option TransactionOrigin → Outcome Str Bytes)
      → Bytes
      → Option TransactionOrigin
      → Outcome Str Bytes
  run_before none update_data origin = ok update_data
  run_before (some callback) update_data origin = callback update_data origin

  -- The clients that the awareness has not heard of.
  pub unheard : y.Awareness → List ℕ → List ℕ
  unheard a [] = []
  unheard a (k ∷ ks) = let rest = unheard a ks in if y.meta_is_none a k then k ∷ rest else rest

  abbrev pub own_entry : Str → List ℕ → Document y → Option ConnectionEntry → Document y
  own_entry connection_id added d none = d
  own_entry connection_id added d (some e) = record d {
    connections =
        insert connection_id (record e { clients = add_clients added e.clients }) d.connections;
  }

  abbrev pub own : Option Str → List ℕ → Document y → Document y
  own none added d = d
  own (some connection_id) added d =
      own_entry connection_id added d (get connection_id d.connections)

  abbrev pub after_apply :
      Bytes
      → Option Str
      → List ℕ
      → Outcome Str y.Awareness
      → Room y
      → Outcome Str (Unit {0}) × Room y
  after_apply processed connection_id added (ok a) r = (
    ok tt,
    broadcast_awareness_to_connections y processed (record r {
      document = own connection_id added (record (r.document) { awareness_state = a });
    }),
  )
  after_apply processed connection_id added (err e) r = (err e, r)
  after_apply processed connection_id added panic r = (panic, r)

  abbrev pub apply_awareness_decoded :
      Bytes → Option Str → Outcome Str y.AwarenessUpdate → Room y → Outcome Str (Unit {0}) × Room y
  apply_awareness_decoded processed connection_id (ok u) r =
      let a = r.document.awareness_state in
      after_apply processed connection_id (unheard a (y.update_clients u)) (y.apply_awareness a u) r
  apply_awareness_decoded processed connection_id (err e) r = (err e, r)
  apply_awareness_decoded processed connection_id panic r = (panic, r)

  abbrev pub with_processed :
      Option Str → Outcome Str Bytes → Room y → Outcome Str (Unit {0}) × Room y
  with_processed connection_id (ok processed) r =
      apply_awareness_decoded processed connection_id (y.decode_awareness processed) r
  with_processed connection_id (err e) r = (err e, r)
  with_processed connection_id panic r = (panic, r)

  unfoldable pub apply_awareness_update :
      Bytes → Option TransactionOrigin → Option Str → Room y → Outcome Str (Unit {0}) × Room y
  unfolding unheard
  apply_awareness_update update_data origin connection_id r =
      with_processed connection_id
        (run_before r.document.before_handle_awareness update_data origin) r
