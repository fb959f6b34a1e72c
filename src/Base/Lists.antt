-- ===== src/Base/Lists.antt =====
-- Lists measured and cut by native numbers, byte strings, and their equality test.
use Prim.Native.Nat.{ℕ, zero, suc, ◌+◌, ◌-◌, ◌≤◌, ◌<◌}
use Prim.Native.Char.{code}
use Prim.Native.String.{String}
use mathlib.Core.Path.{◌≡◌, refl, sym, ap}
use mathlib.Core.Logic.{◌↔◌, ◌⊎◌, inl, inr}
use mathlib.Core.Bool.{Bool, true, false, ◌&&◌}
use mathlib.Core.Option.{Option, none, some}
use mathlib.Core.List.{List, [], ◌∷◌, ◌++◌}
use native.Mathlib.Omega.{arith}
use hocuspocu_rs.Base.Tests.{◌==◌}

-- `Vec<u8>` and `&[u8]`.
abbrev pub Bytes : Type 0
Bytes = List ℕ

-- `String` and `&str`: the UTF-8 bytes.
abbrev pub Str : Type 0
Str = List ℕ

-- The bytes of an ASCII literal.
abbrev pub text : String → Str
text String.[] = []
text (String.◌∷◌ c s) = code c ∷ text s

unfoldable pub bytes_eq : List ℕ → List ℕ → Bool
bytes_eq [] [] = true
bytes_eq (x ∷ xs) (y ∷ ys) = x == y && bytes_eq xs ys
bytes_eq _ _ = false

pub bytes_eq_iff : (xs ys : List ℕ) → (bytes_eq xs ys ≡ true) ↔ (xs ≡ ys)
unfolding bytes_eq
bytes_eq_iff [] [] = (λ _. refl, λ _. refl)
bytes_eq_iff [] (y ∷ ys) = (λ e. cc, λ e. cc)
bytes_eq_iff (x ∷ xs) [] = (λ e. cc, λ e. cc)
bytes_eq_iff (x ∷ xs) (y ∷ ys) = ground (arith, bytes_eq_iff xs ys)

module _ {ℓ} {A : Type ℓ} where
  abbrev pub length : List A → ℕ
  length [] = 0
  length (x ∷ xs) = suc (length xs)

  abbrev pub take : ℕ → List A → List A
  take zero xs = []
  take (suc n) [] = []
  take (suc n) (x ∷ xs) = x ∷ take n xs

  abbrev pub drop : ℕ → List A → List A
  drop zero xs = xs
  drop (suc n) [] = []
  drop (suc n) (x ∷ xs) = drop n xs

  abbrev pub get_elem? : List A → ℕ → Option A
  get_elem? [] i = none
  get_elem? (x ∷ xs) zero = some x
  get_elem? (x ∷ xs) (suc i) = get_elem? xs i

  pub length-append : (xs ys : List A) → length (xs ++ ys) ≡ length xs + length ys
  length-append [] ys = omega arith
  length-append (x ∷ xs) ys = omega (arith, length-append xs ys)

  pub get_elem?-append_left :
      (xs ys : List A) (i : ℕ) (x : A) → get_elem? xs i ≡ some x → get_elem? (xs ++ ys) i ≡ some x
  get_elem?-append_left [] ys i x e = cc
  get_elem?-append_left (z ∷ xs) ys zero x e = e
  get_elem?-append_left (z ∷ xs) ys (suc i) x e = get_elem?-append_left xs ys i x e

  pub get_elem?-append_length :
      (xs ys : List A) (x : A) → get_elem? (xs ++ (x ∷ ys)) (length xs) ≡ some x
  get_elem?-append_length [] ys x = refl
  get_elem?-append_length (z ∷ xs) ys x = get_elem?-append_length xs ys x

  -- What stands in a list with an element behind it.
  pub get_elem?-append_last :
      (xs : List A) (x z : A) (i : ℕ)
      → get_elem? (xs ++ (x ∷ [])) i ≡ some z
      → ((i < length xs) × (get_elem? xs i ≡ some z)) ⊎ ((i ≡ length xs) × (z ≡ x))
  get_elem?-append_last [] x z zero e = inr (refl, cc)
  get_elem?-append_last [] x z (suc i) e = cc
  get_elem?-append_last (w ∷ xs) x z zero e = inl (omega arith, e)
  get_elem?-append_last (w ∷ xs) x z (suc i) e = elim (get_elem?-append_last xs x z i e) [
    | inl found ↦ inl (omega (arith, found.0), found.1)
    | inr last ↦ inr (omega (arith, last.0), last.1)
  ]

  pub length-drop : (n : ℕ) (xs : List A) → length (drop n xs) ≡ length xs - n
  length-drop zero xs = omega arith
  length-drop (suc n) [] = omega arith
  length-drop (suc n) (x ∷ xs) = omega (arith, length-drop n xs)

  pub drop-append : (xs ys : List A) → drop (length xs) (xs ++ ys) ≡ ys
  drop-append [] ys = refl
  drop-append (x ∷ xs) ys = drop-append xs ys

  pub take-append : (xs ys : List A) → take (length xs) (xs ++ ys) ≡ xs
  take-append [] ys = refl
  take-append (x ∷ xs) ys = ap (◌∷◌ x) (take-append xs ys)

  drop-nil : (n : ℕ) → drop n (let xs : List A = [] in xs) ≡ []
  drop-nil zero = refl
  drop-nil (suc n) = refl

  nil-parts : (xs ys : List A) → [] ≡ xs ++ ys → ys ≡ []
  nil-parts [] ys e = sym e
  nil-parts (x ∷ xs) ys e = cc

  -- What is left behind a part that stands at `n`.
  pub drop_past :
      (n m : ℕ) (dat xs ys : List A) → m ≡ n + length xs → drop n dat ≡ xs ++ ys → drop m dat ≡ ys
  drop_past zero m dat xs ys h e =
      let k : m ≡ length xs = omega arith in rw (k, e) (drop-append xs ys)
  drop_past (suc n) m [] xs ys h e = rw (nil-parts xs ys e) (drop-nil m)
  drop_past (suc n) zero (x ∷ dat) xs ys h e = absurd (omega arith)
  drop_past (suc n) (suc m) (x ∷ dat) xs ys h e = drop_past n m dat xs ys (omega arith) e

  pub length-parts :
      (n : ℕ) (dat xs ys : List A)
      → drop n dat ≡ xs ++ ys
      → n ≤ length dat
      → length dat ≡ n + length xs + length ys
  length-parts n dat xs ys e h = omega (arith, ap length e, length-drop n dat, length-append xs ys)

module _ {ℓ κ} {A : Type ℓ} where
  abbrev pub All : (A → Type κ) → List A → Type κ
  All P [] = Unit
  All P (x ∷ xs) = P x × All P xs
