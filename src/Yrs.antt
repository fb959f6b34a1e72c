-- ===== src/Yrs.antt =====
-- What the server uses of the `yrs` crate: documents, state vectors, updates and awareness. All of it
-- is third-party code, so it is a parameter of the model: types, and functions on their values. The
-- functions that mutate a document return the new one. Errors are their texts. An
-- `Outcome` may also be a panic.
use hocuspocu_rs.Base.{ℕ, Bool, List, Option, Bytes, Str, ◌⊎◌}
use hocuspocu_rs.Base.Outcome.{Outcome}

pub record Yrs : Type 1 where
  pub Doc : Type 0
  pub StateVector : Type 0
  pub Update : Type 0
  pub Awareness : Type 0
  pub AwarenessUpdate : Type 0
  pub doc_new : Doc
  -- `StateVector::decode_v1`, `encode_v1`, `default`, `iter`, `get`.
  pub decode_sv : Bytes → Str ⊎ StateVector
  pub encode_sv : StateVector → Bytes
  pub sv_default : StateVector
  pub sv_iter : StateVector → List (ℕ × ℕ)
  pub sv_get : StateVector → ℕ → ℕ
  -- `txn.state_vector`, `txn.encode_state_as_update_v1`, `encode_state_vector_from_update_v1`.
  pub state_vector : Doc → StateVector
  pub encode_state_as_update : Doc → StateVector → Bytes
  pub sv_from_update : Bytes → Str ⊎ Bytes
  -- `Update::decode_v1`; `txn.apply_update`, with the document that it leaves, also behind an error, and
  -- the event that the commit hands to the observers.
  pub decode_update : Bytes → Outcome Str Update
  pub apply : Doc → Update → Outcome Str (Unit {0}) × Doc × Option Bytes
  -- Awareness: `new`, `iter().any`, `update`, `update_with_clients` (both encoded), `remove_state`,
  -- `AwarenessUpdate::decode_v1`, its client ids, `meta(id).is_none()`, `apply_update`.
  pub awareness_new : Awareness
  pub has_states : Awareness → Bool
  pub awareness_all : Awareness → Str ⊎ Bytes
  pub awareness_clients : Awareness → List ℕ → Str ⊎ Bytes
  pub remove_state : Awareness → ℕ → Awareness
  pub decode_awareness : Bytes → Outcome Str AwarenessUpdate
  pub update_clients : AwarenessUpdate → List ℕ
  pub meta_is_none : Awareness → ℕ → Bool
  pub apply_awareness : Awareness → AwarenessUpdate → Outcome Str Awareness
