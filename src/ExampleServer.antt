-- ===== src/ExampleServer.antt =====
-- hocuspocu-rs/examples/server.rs: the example server, and the extension that keeps documents in memory.
use hocuspocu_rs.Base.{
  ℕ, ◌*◌, ◌%◌, ◌^◌, ◌≡◌, refl, ap, inr, max, Bool, true, false, [], ◌∷◌, ◌++◌, Option, none, some,
  Bytes, Str, text, HashMap, get, insert, bytes_eq, get-insert, Option-cases, inl, ◌∙◌,
  get-insert_self, if◌then◌else◌, ==_iff, ◌==◌,
}
use hocuspocu_rs.Base.Outcome.{ok}
use hocuspocu_rs.Document
use hocuspocu_rs.Document.{Document, apply_update}
use hocuspocu_rs.Hocuspocus.Configuring.{default_configuration}
use hocuspocu_rs.Hocuspocus.Hooks.{Extension}
use hocuspocu_rs.Hocuspocus.Opening.{LoadAnswer, load_document, load_with}
use hocuspocu_rs.Hocuspocus.Storing.{Hocuspocus}
use hocuspocu_rs.Server.Listening.{ServerConfiguration}
use hocuspocu_rs.Yrs.{Yrs}

-- The store of `InMemoryPersistence`: the full state of each document, under its name.
abbrev pub InMemoryPersistence : Type 0
InMemoryPersistence = HashMap Bytes

abbrev pub answer_of : Option Bytes → LoadAnswer
answer_of none = inr none
answer_of (some update) = inr (some update)

unfoldable pub on_load_document : Str → InMemoryPersistence → LoadAnswer
on_load_document name store = answer_of (get name store)

abbrev pub or_value : ℕ → Option ℕ → ℕ
or_value value none = value
or_value value (some given) = given

-- `HP_PORT` and `HP_DEBOUNCE` as they parse, and whether `HP_PERSIST` and `HP_LOG` are set.
unfoldable pub main_configuration :
    Option ℕ → Option ℕ → Bool → Bool → Extension → Extension → ServerConfiguration
main_configuration hp_port hp_debounce hp_persist hp_log persistence logger =
    let debounce = or_value 200 hp_debounce in
    record {
      port = or_value 8088 hp_port;
      address = text "127.0.0.1";
      stop_on_signals = true;
      config = record default_configuration {
        debounce = debounce;
        max_debounce = max debounce 1 * 5 % 2 ^ 64;
        extensions =
            (if hp_persist then persistence ∷ [] else []) ++ (if hp_log then logger ∷ [] else []);
      };
    }

module _ (y : Yrs) where
  unfoldable pub on_store_document : Str → Document y → InMemoryPersistence → InMemoryPersistence
  on_store_document name d store = insert name (Document.encode_state_as_update y d) store

  -- The full state of a document, as an update of an empty one, gives the document again: so the yrs
  -- crate documents `encode_state_as_update_v1` and `apply_update`.
  pub record Restores (content : y.Doc) : Type 0 where
    pub update : y.Update
    pub event : Option Bytes
    pub decoded : y.decode_update (y.encode_state_as_update content y.sv_default) ≡ ok update
    pub applied : y.apply y.doc_new update ≡ (ok tt, content, event)

  restored :
      (name : Str) (content : y.Doc)
      → Restores content
      → (d' : Document y) × (load_with y
            (inr (some (y.encode_state_as_update content y.sv_default)) ∷ [])
            (Document.new y name)
          ≡ (ok tt, d'))
        × (d'.doc ≡ content)
  unfolding load_with apply_update Document.new
  restored name content r = elim (Option-cases r.event) [
    | inl quiet ↦ (
      record (Document.new y name) { doc = content },
      rw (r.decoded, r.applied, quiet) refl,
      refl,
    )
    | inr (event, seen) ↦
        (record (Document.new y name) { doc = content }, rw (r.decoded, r.applied, seen) refl, refl)
  ]

  stored_answer :
      (name : Str) (d : Document y) (store : InMemoryPersistence)
      → on_load_document name (on_store_document name d store)
        ≡ inr (some (y.encode_state_as_update d.doc y.sv_default))
  unfolding on_load_document on_store_document Document.encode_state_as_update
  stored_answer name d store =
      ap answer_of (get-insert_self name (y.encode_state_as_update d.doc y.sv_default) store)

  other_answer :
      (name other : Str) (d : Document y) (store : InMemoryPersistence)
      → bytes_eq name other ≡ false
      → on_load_document other (on_store_document name d store) ≡ on_load_document other store
  unfolding on_load_document on_store_document
  other_answer name other d store apart =
      ap answer_of
        (get-insert name other (Document.encode_state_as_update y d) store ∙ rw apart refl)

  restored_load :
      (hook : Hocuspocus y → Bool × Hocuspocus y) (doc : ℕ) (name : Str) (content : y.Doc)
      (s : Hocuspocus y)
      → Restores content
      → let answer : LoadAnswer = inr (some (y.encode_state_as_update content y.sv_default)) in
        let (result, s') = load_document y hook doc name (answer ∷ []) s in
        (result ≡ ok doc) × ((s'.docs doc).doc ≡ content) × ((s'.docs doc).is_loading ≡ false)
  unfolding load_document
  restored_load hook doc name content s r =
      let (d', loaded, same) = restored name content r in
      let own : (doc == doc) ≡ true = (==_iff doc doc).1 refl in rw (loaded, own) (refl, same, refl)

  -- A document that was stored is loaded again with its content, and the store keeps what it has of
  -- other names. The condition on the yrs crate is that the state of the document restores it.
  pub on_load_document-on_store_document :
      (hook : Hocuspocus y → Bool × Hocuspocus y) (doc : ℕ) (name other : Str) (d : Document y)
      (store : InMemoryPersistence) (s : Hocuspocus y)
      → Restores d.doc
      → bytes_eq name other ≡ false
      → let store' = on_store_document name d store in
        let (r, s') = load_document y hook doc name (on_load_document name store' ∷ []) s in
        (r ≡ ok doc)
        × ((s'.docs doc).doc ≡ d.doc)
        × ((s'.docs doc).is_loading ≡ false)
        × (on_load_document other store' ≡ on_load_document other store)
  on_load_document-on_store_document hook doc name other d store s r apart =
      let (result, content, ready) = restored_load hook doc name d.doc s r in
      rw (stored_answer name d store)
        (result, content, ready, other_answer name other d store apart)
