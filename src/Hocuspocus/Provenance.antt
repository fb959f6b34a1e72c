-- ===== src/Hocuspocus/Provenance.antt =====
-- Where the documents that `create_document` returns come from.
use hocuspocu_rs.Base.{
  ℕ, ◌+◌, ◌≡◌, ◌≢◌, ◌≤◌, ◌<◌, ◌⊎◌, ◌∙◌, inr, List, [], ◌∷◌, Str, ◌==◌, if◌then◌else◌,
}
use hocuspocu_rs.Hocuspocus.Loading.{load, Server, Event, move, unload, step}
pub mod Turns
pub mod Runs

-- In the course of the schedule, a call that loads the name is given the document.
abbrev pub WasLoaded : Str → ℕ → List Event → Server → Type 0
WasLoaded name doc [] s = ⊥
WasLoaded name doc (move i result ∷ schedule) s =
    ((lock : ℕ) × (s.calls i ≡ load name lock) × (result ≡ inr doc))
    ⊎ WasLoaded name doc schedule (step (move i result) s)
WasLoaded name doc (unload other ∷ schedule) s = WasLoaded name doc schedule (step (unload other) s)
