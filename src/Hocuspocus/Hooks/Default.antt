-- ===== src/Hocuspocus/Hooks/Default.antt =====
-- types.rs: the methods that an extension does not override.
use hocuspocu_rs.Base.{ℕ, ◌+◌, ◌^◌, ◌≡◌, refl, inl, inr, List, [], ◌∷◌, ◌++◌, Option, none}
use hocuspocu_rs.Hocuspocus.Hooks.Running.{split_answer}
use hocuspocu_rs.Hocuspocus.Hooks.{
  Hook, Extension, run_all, run_last, latest, hooks, on_connect, on_authenticate, on_token_sync,
  on_load_document,
}

-- `priority` is 100, and every hook answers `Ok(None)`.
abbrev pub default_extension : ℕ → Extension
default_extension name = record { name = name; priority = 2 ^ 31 + 100; answer = λ hook. inr none }

module _ (name : ℕ) (behind : List Extension) where
  -- The extensions with one that overrides nothing among them.
  abbrev among : List Extension → List Extension
  among before = before ++ (default_extension name ∷ behind)

  run_all-default :
      (hook : Hook) (before : List Extension)
      → (run_all hook (among before)).result ≡ (run_all hook (before ++ behind)).result
  unfolding run_all
  run_all-default hook [] = refl
  run_all-default hook (e ∷ before) = elim (split_answer (e.answer hook)) [
    | inl (reason, answer) ↦ rw answer refl
    | inr (value, answer) ↦ rw answer (run_all-default hook before)
  ]

  run_last-default :
      (hook : Hook) (last : Option ℕ) (before : List Extension)
      → (run_last hook last (among before)).result ≡ (run_last hook last (before ++ behind)).result
  unfolding run_last
  run_last-default hook last [] = refl
  run_last-default hook last (e ∷ before) = elim (split_answer (e.answer hook)) [
    | inl (reason, answer) ↦ rw answer refl
    | inr (value, answer) ↦ rw answer (run_last-default hook (latest last value) before)
  ]

  -- An extension that overrides no method changes the result of no run of a hook, wherever it stands
  -- among the others.
  hooks-default :
      (hook : Hook) (before : List Extension)
      → (hooks hook (among before)).result ≡ (hooks hook (before ++ behind)).result
  unfolding hooks
  hooks-default on_connect before = run_last-default on_connect none before
  hooks-default on_authenticate before = run_last-default on_authenticate none before
  hooks-default on_token_sync before = run_last-default on_token_sync none before
  hooks-default on_load_document before = run_last-default on_load_document none before
  hooks-default hook before = run_all-default hook before
