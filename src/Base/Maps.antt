-- ===== src/Base/Maps.antt =====
-- A `HashMap<String, V>` as an association list, in the order of its iteration. `HashMap` leaves
-- that order open; no theorem rests on it.

use mathlib.Core.Path.{◌≡◌, refl, sym, ◌∙◌}
use mathlib.Core.Logic.{inl, inr}
use mathlib.Core.Bool.{Bool, true, false, false≢true}
use mathlib.Core.Option.{Option, none, some}
use mathlib.Core.List.{List, [], ◌∷◌}
use native.Mathlib.Omega.{arith}
use hocuspocu_rs.Base.Tests.{if◌then◌else◌, Option-cases, Bool-cases}
use hocuspocu_rs.Base.Lists.{All, Str, bytes_eq, bytes_eq_iff}

abbrev pub HashMap {ℓ} : Type ℓ → Type ℓ
HashMap V = List (Str × V)

module _ {ℓ} {V : Type ℓ} where
  unfoldable pub get : Str → HashMap V → Option V
  get k [] = none
  get k ((j, v) ∷ m) = if bytes_eq j k then some v else get k m

  unfoldable pub remove : Str → HashMap V → HashMap V
  remove k [] = []
  remove k ((j, v) ∷ m) = let rest = remove k m in if bytes_eq j k then rest else (j, v) ∷ rest

  -- The entry is put where the old one stood, or last.
  unfoldable pub insert : Str → V → HashMap V → HashMap V
  insert k v [] = (k, v) ∷ []
  insert k v ((j, w) ∷ m) =
      let rest = insert k v m in if bytes_eq j k then (k, v) ∷ m else (j, w) ∷ rest

  pub get-remove :
      (k j : Str) (m : HashMap V) → get j (remove k m) ≡ (if bytes_eq k j then none else get j m)
  unfolding get remove
  get-remove k j [] = ground arith
  get-remove k j ((i, v) ∷ m) =
      ground (arith, get-remove k j m, bytes_eq_iff i k, bytes_eq_iff i j, bytes_eq_iff k j)

  pub get-insert :
      (k j : Str) (v : V) (m : HashMap V)
      → get j (insert k v m) ≡ (if bytes_eq k j then some v else get j m)
  unfolding get insert
  get-insert k j v [] = refl
  get-insert k j v ((i, w) ∷ m) =
      ground (arith, get-insert k j v m, bytes_eq_iff i k, bytes_eq_iff i j, bytes_eq_iff k j)

  unfoldable pub contains_key : Str → HashMap V → Bool
  contains_key k m = elim (get k m) [ none ↦ false | some v ↦ true ]

  pub contains_key_of_none : (k : Str) (m : HashMap V) → get k m ≡ none → contains_key k m ≡ false
  unfolding contains_key
  contains_key_of_none k m e = ground arith

  pub contains_key_of_some :
      (k : Str) (m : HashMap V) {v : V} → get k m ≡ some v → contains_key k m ≡ true
  unfolding contains_key
  contains_key_of_some k m e = ground arith

  pub get_of_contains_key :
      (k : Str) (m : HashMap V) → contains_key k m ≡ true → (v : V) × (get k m ≡ some v)
  unfolding contains_key
  get_of_contains_key k m h = elim (Option-cases (get k m)) [
    | inl e ↦ absurd (false≢true (sym (contains_key_of_none k m e) ∙ h))
    | inr found ↦ found
  ]

-- A predicate of the entries of a map.
module _ {ℓ κ} {V : Type ℓ} (P : Str × V → Type κ) where
  pub All-insert : (k : Str) (v : V) (m : HashMap V) → P (k, v) → All P m → All P (insert k v m)
  unfolding insert
  All-insert k v [] p h = (p, tt)
  All-insert k v ((j, w) ∷ m) p h = elim (Bool-cases (bytes_eq j k)) [
    | inl same ↦ rw same (p, h.1)
    | inr other ↦ rw other (h.0, All-insert k v m p h.1)
  ]

  pub All-remove : (k : Str) (m : HashMap V) → All P m → All P (remove k m)
  unfolding remove
  All-remove k [] h = tt
  All-remove k ((j, w) ∷ m) h = elim (Bool-cases (bytes_eq j k)) [
    | inl same ↦ rw same (All-remove k m h.1)
    | inr other ↦ rw other (h.0, All-remove k m h.1)
  ]

  pub All-get : (k : Str) (v : V) (m : HashMap V) → All P m → get k m ≡ some v → P (k, v)
  unfolding get
  All-get k v [] h e = cc
  All-get k v ((j, w) ∷ m) h e = elim (Bool-cases (bytes_eq j k)) [
    | inl same ↦
        let key : j ≡ k = (bytes_eq_iff j k).0 same in
        let value : w ≡ v = ground arith in rw (← key, ← value) h.0
    | inr other ↦ All-get k v m h.1 (rw other at e)
  ]

pub bytes_eq_refl : (k : Str) → bytes_eq k k ≡ true
bytes_eq_refl k = (bytes_eq_iff k k).1 refl

module _ {ℓ} {V : Type ℓ} (k : Str) (v : V) (m : HashMap V) where
  pub get-insert_self : get k (insert k v m) ≡ some v
  get-insert_self = get-insert k k v m ∙ rw bytes_eq_refl

  pub contains_key-insert_self : contains_key k (insert k v m) ≡ true
  contains_key-insert_self = contains_key_of_some k (insert k v m) get-insert_self

module _ {ℓ} {V : Type ℓ} (k : Str) (v : V) where
  -- What an entry held before does not matter, to a removal or to a new value.
  pub remove-insert : (m : HashMap V) → remove k (insert k v m) ≡ remove k m
  unfolding insert remove
  remove-insert [] = rw bytes_eq_refl
  remove-insert ((j, w) ∷ m) = elim (Bool-cases (bytes_eq j k)) [
    | inl same ↦ rw (same, bytes_eq_refl)
    | inr other ↦ rw (other, other, remove-insert m)
  ]

  pub insert-insert : (w : V) (m : HashMap V) → insert k v (insert k w m) ≡ insert k v m
  unfolding insert
  insert-insert w [] = rw bytes_eq_refl
  insert-insert w ((j, u) ∷ m) = elim (Bool-cases (bytes_eq j k)) [
    | inl same ↦ rw (same, bytes_eq_refl)
    | inr other ↦ rw (other, other, insert-insert w m)
  ]

module _ {ℓ} {V : Type ℓ} where
  -- The pairs are put in one after another, so that of one key the last stays.
  unfoldable pub collect : HashMap V → List (Str × V) → HashMap V
  collect m [] = m
  collect m ((k, v) ∷ pairs) = collect (insert k v m) pairs

  abbrev pub or_else : Option V → Option V → Option V
  or_else (some v) other = some v
  or_else none other = other

  -- What the last pair of the key gives.
  pub last_of : Str → List (Str × V) → Option V
  last_of k [] = none
  last_of k ((j, v) ∷ pairs) =
      let rest = last_of k pairs in or_else rest (if bytes_eq j k then some v else none)

  pub get-collect :
      (k : Str) (m : HashMap V) (pairs : List (Str × V))
      → get k (collect m pairs) ≡ or_else (last_of k pairs) (get k m)
  unfolding collect last_of
  get-collect k m [] = refl
  get-collect k m ((j, v) ∷ pairs) =
      ground (arith, get-collect k (insert j v m) pairs, get-insert j k v m)
