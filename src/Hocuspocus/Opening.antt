-- ===== src/Hocuspocus/Opening.antt =====
-- hocuspocu-rs/src/hocuspocus.rs: load_document, and the observer that it sets up.
use hocuspocu_rs.Base.{
  ℕ, ◌⊎◌, inl, inr, Bool, false, List, [], ◌∷◌, Option, none, some, Str, Bytes, if◌then◌else◌, ◌==◌,
}
use hocuspocu_rs.Base.Outcome.{Outcome, ok, err, panic}
use hocuspocu_rs.Document
use hocuspocu_rs.Document.Access.{set_before_handle_awareness, store_update_subscription}
use hocuspocu_rs.Document.{Document, apply_update}
use hocuspocu_rs.Hocuspocus.Storing.{
  Hocuspocus, close_connections, unload_document, handle_document_update,
}
use hocuspocu_rs.Types.{TransactionOrigin}
use hocuspocu_rs.Yrs.{Yrs}

-- What an extension answers to the loading of a document: an error, nothing, or an update.
abbrev pub LoadAnswer : Type 0
LoadAnswer = Str ⊎ Option Bytes

module _ (y : Yrs) where
  -- An update that does not decode or apply is logged; a panic ends the task.
  abbrev pub after_update :
      Outcome Str (Unit {0}) × Document y
      → Outcome Str (Unit {0}) × Document y
      → Outcome Str (Unit {0}) × Document y
  after_update (panic, d) rest = (panic, d)
  after_update _ rest = rest

  unfoldable pub load_with : List LoadAnswer → Document y → Outcome Str (Unit {0}) × Document y
  load_with [] d = (ok tt, d)
  load_with (inl e ∷ answers) d = (err e, d)
  load_with (inr none ∷ answers) d = load_with answers d
  load_with (inr (some update) ∷ answers) d =
      let r = apply_update y update d in let rest = load_with answers r.1 in after_update r rest

  -- It asks the hooks and does not heed their answer.
  abbrev pub before_handle_awareness_callback : Bytes → Option TransactionOrigin → Outcome Str Bytes
  before_handle_awareness_callback update_data origin = ok update_data

  abbrev pub set_up : Document y → Document y
  set_up d =
      set_before_handle_awareness y before_handle_awareness_callback
        (store_update_subscription y (record d { is_loading = false }))

  abbrev pub put_document : ℕ → Document y → Hocuspocus y → Hocuspocus y
  put_document doc d s = record s { docs = λ k. if doc == k then d else s.docs k }

  abbrev pub after_load :
      (Hocuspocus y → Bool × Hocuspocus y)
      → ℕ
      → Str
      → Outcome Str (Unit {0}) × Document y
      → Hocuspocus y
      → Outcome Str ℕ × Hocuspocus y
  after_load hook doc name (ok _, d) s = (ok doc, put_document doc (set_up d) s)
  after_load hook doc name (err e, d) s =
      (err e, unload_document y hook doc (close_connections y (some name) (put_document doc d s)))
  after_load hook doc name (panic, d) s = (panic, s)

  -- `doc` is the number that the document gets, `hook` that of the unloading after an error.
  unfoldable pub load_document :
      (Hocuspocus y → Bool × Hocuspocus y)
      → ℕ
      → Str
      → List LoadAnswer
      → Hocuspocus y
      → Outcome Str ℕ × Hocuspocus y
  load_document hook doc name answers s =
      after_load hook doc name (load_with answers (Document.new y name)) s

  -- The time of the change, by the clock of the server's timers.
  abbrev pub set_last_change_time : ℕ → Hocuspocus y → Hocuspocus y
  set_last_change_time doc s = record s {
    last_change_time = λ k. if doc == k then s.debouncer.now else s.last_change_time k;
  }

  -- The task of the observer: the time, the broadcast, then the server's handler, with no origin.
  unfoldable pub on_update : ℕ → Bytes → Hocuspocus y → Hocuspocus y
  on_update doc update s =
      let s₁ = set_last_change_time doc s in
      let r =
        Document.handle_update y update (record { document = s₁.docs doc; sinks = s₁.sinks }) in
      handle_document_update y doc none update (record s₁ { sinks = r.sinks })
