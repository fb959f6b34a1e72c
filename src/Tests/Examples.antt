-- ===== src/Tests/Examples.antt =====
-- The example server on concrete inputs.
use hocuspocu_rs.Base.{◌≡◌, refl, Bool, true, false, [], ◌∷◌, some, bytes_eq}
use hocuspocu_rs.Base.Outcome.{ok}
use hocuspocu_rs.Debounce
use hocuspocu_rs.Document
use hocuspocu_rs.Document.{Document}
use hocuspocu_rs.ExampleServer.{
  Restores, on_load_document, on_store_document, on_load_document-on_store_document,
}
use hocuspocu_rs.Hocuspocus.Opening.{load_document}
use hocuspocu_rs.Hocuspocus.Storing.{Hocuspocus}
use hocuspocu_rs.Tests.{toy, notes, alice, document, open_sinks}

-- A server that has just been started again.
abbrev empty_server : Hocuspocus toy
empty_server = record {
  debounce_ms = 200;
  max_debounce_ms = 1000;
  last_change_time = λ k. 0;
  documents = [];
  docs = λ k. Document.new toy [];
  unloading_documents = [];
  debouncer = Debounce.new 0;
  stores = [];
  sinks = open_sinks;
  calls = [];
}

abbrev let_go : Hocuspocus toy → Bool × Hocuspocus toy
let_go s = (true, s)

document-Restores : Restores toy (document false).doc
document-Restores = record {
  update = 1 ∷ [];
  event = some (1 ∷ []);
  decoded = refl;
  applied = refl;
}

on_load_document-on_store_document_example :
    let store' = on_store_document toy notes (document false) ((alice, 6 ∷ []) ∷ []) in
    let (r, s') =
      load_document toy let_go 3 notes (on_load_document notes store' ∷ []) empty_server in
    (r ≡ ok 3)
    × ((s'.docs 3).doc ≡ (document false).doc)
    × ((s'.docs 3).is_loading ≡ false)
    × (on_load_document alice store' ≡ on_load_document alice ((alice, 6 ∷ []) ∷ []))
unfolding bytes_eq
on_load_document-on_store_document_example =
    on_load_document-on_store_document toy let_go 3 notes alice (document false)
      ((alice, 6 ∷ []) ∷ []) empty_server document-Restores refl
