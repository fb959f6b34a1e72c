-- ===== src/Hocuspocus/Hooks.antt =====
-- hocuspocus.rs: `configure` orders the extensions, and the `hooks_...` methods run them.
use hocuspocu_rs.Base.{ℕ, ◌⊎◌, inl, inr, List, [], ◌∷◌, Option, none, some, Str, leb, if◌then◌else◌}
pub mod Ordering
pub mod Running
pub mod Default

pub data Hook : Type 0 where
  on_configure on_listen on_upgrade on_connect connected on_authenticate on_token_sync : Hook
  on_create_document on_load_document after_load_document before_handle_message : Hook
  before_handle_awareness before_sync before_broadcast_stateless on_stateless on_change : Hook
  on_store_document after_store_document on_awareness_update on_request on_disconnect : Hook
  before_unload_document after_unload_document on_destroy : Hook

-- `Ok(None)`, `Ok(Some(_))` with a context or a loaded update, which a number names, or an error.
abbrev pub Answer : Type 0
Answer = Str ⊎ Option ℕ

-- An extension and what it answers to the payload at hand. A priority is an `i32`, counted from the
-- least one.
pub record Extension : Type 0 where
  pub name : ℕ
  pub priority : ℕ
  pub answer : Hook → Answer

-- `sort_by` with `two.cmp(&one)`, which is stable: an extension goes before the first of a lower
-- priority.
unfoldable pub insert_sorted : Extension → List Extension → List Extension
insert_sorted e [] = e ∷ []
insert_sorted e (f ∷ fs) =
    let rest = insert_sorted e fs in if leb e.priority f.priority then f ∷ rest else e ∷ f ∷ fs

pub sort_onto : List Extension → List Extension → List Extension
sort_onto sorted [] = sorted
sort_onto sorted (e ∷ es) = sort_onto (insert_sorted e sorted) es

unfoldable pub configure : List Extension → List Extension
unfolding sort_onto
configure extensions = sort_onto [] extensions

-- The names of the extensions that were called, and what the method returns.
pub record Ran : Type 0 where
  pub called : List ℕ
  pub result : Answer

abbrev pub calling : ℕ → Ran → Ran
calling name r = record r { called = name ∷ r.called }

-- Every extension in turn, up to the first that fails.
abbrev pub after_answer : ℕ → Answer → Ran → Ran
after_answer name (inl e) rest = record { called = name ∷ []; result = inl e }
after_answer name (inr _) rest = calling name rest

pub run_all : Hook → List Extension → Ran
run_all hook [] = record { called = []; result = inr none }
run_all hook (e ∷ es) = after_answer e.name (e.answer hook) (run_all hook es)

-- The same, with the last value that was given.
abbrev pub latest : Option ℕ → Option ℕ → Option ℕ
latest last none = last
latest last (some value) = some value

pub run_last : Hook → Option ℕ → List Extension → Ran
run_last hook last [] = record { called = []; result = inr last }
run_last hook last (e ∷ es) = elim (e.answer hook) [
  | inl err ↦ record { called = e.name ∷ []; result = inl err }
  | inr value ↦ calling e.name (run_last hook (latest last value) es)
]

unfoldable pub hooks : Hook → List Extension → Ran
unfolding run_all run_last
hooks on_connect es = run_last on_connect none es
hooks on_authenticate es = run_last on_authenticate none es
hooks on_token_sync es = run_last on_token_sync none es
hooks on_load_document es = run_last on_load_document none es
hooks on_configure es = run_all on_configure es
hooks on_listen es = run_all on_listen es
hooks on_upgrade es = run_all on_upgrade es
hooks connected es = run_all connected es
hooks on_create_document es = run_all on_create_document es
hooks after_load_document es = run_all after_load_document es
hooks before_handle_message es = run_all before_handle_message es
hooks before_handle_awareness es = run_all before_handle_awareness es
hooks before_sync es = run_all before_sync es
hooks before_broadcast_stateless es = run_all before_broadcast_stateless es
hooks on_stateless es = run_all on_stateless es
hooks on_change es = run_all on_change es
hooks on_store_document es = run_all on_store_document es
hooks after_store_document es = run_all after_store_document es
hooks on_awareness_update es = run_all on_awareness_update es
hooks on_request es = run_all on_request es
hooks on_disconnect es = run_all on_disconnect es
hooks before_unload_document es = run_all before_unload_document es
hooks after_unload_document es = run_all after_unload_document es
hooks on_destroy es = run_all on_destroy es
