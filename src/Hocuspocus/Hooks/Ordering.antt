-- ===== src/Hocuspocus/Hooks/Ordering.antt =====
-- The order of the extensions behind `configure`.
use hocuspocu_rs.Base.{
  ℕ, suc, ◌≡◌, ◌≤◌, refl, List, [], ◌∷◌, ◌++◌, All, leb, ◌==◌, ==_iff, if◌then◌else◌, arith,
  Bool-cases, inl, inr, append_assoc, append-nil,
}
use hocuspocu_rs.Hocuspocus.Hooks.{Extension, insert_sorted, sort_onto, configure}

-- The extensions of one priority, in their order.
pub of_priority : ℕ → List Extension → List Extension
of_priority p [] = []
of_priority p (e ∷ es) = let rest = of_priority p es in if e.priority == p then e ∷ rest else rest

-- No extension has a higher priority than one before it.
abbrev pub IsDescending : List Extension → Type 0
IsDescending [] = Unit
IsDescending (e ∷ es) = All (λ f. f.priority ≤ e.priority) es × IsDescending es

insert_sorted-All :
    (bound : ℕ) (e : Extension) (es : List Extension)
    → e.priority ≤ bound
    → All (λ f. f.priority ≤ bound) es
    → All (λ f. f.priority ≤ bound) (insert_sorted e es)
unfolding insert_sorted
insert_sorted-All bound e [] le all = (le, tt)
insert_sorted-All bound e (f ∷ fs) le all = elim (Bool-cases (leb e.priority f.priority)) [
  | inl below ↦ rw below (all.0, insert_sorted-All bound e fs le all.1)
  | inr above ↦ rw above (le, all)
]

All-le :
    (low high : ℕ) (es : List Extension)
    → low ≤ high
    → All (λ f. f.priority ≤ low) es
    → All (λ f. f.priority ≤ high) es
All-le low high [] le all = tt
All-le low high (e ∷ es) le all = (omega (arith, all.0), All-le low high es le all.1)

insert_sorted-IsDescending :
    (e : Extension) (es : List Extension) → IsDescending es → IsDescending (insert_sorted e es)
unfolding insert_sorted
insert_sorted-IsDescending e [] d = (tt, tt)
insert_sorted-IsDescending e (f ∷ fs) d = elim (Bool-cases (leb e.priority f.priority)) [
  | inl below ↦
      rw below
        (insert_sorted-All f.priority e fs (ground arith) d.0, insert_sorted-IsDescending e fs d.1)
  | inr above ↦
      let le : f.priority ≤ e.priority = ground arith in
      rw above ((le, All-le f.priority e.priority fs le d.0), d)
]

none_of :
    (p : ℕ) (es : List Extension)
    → All (λ f. f.priority ≤ p) es
    → (q : ℕ) → suc p ≤ q
    → of_priority q es ≡ []
unfolding of_priority
none_of p [] all q lt = refl
none_of p (e ∷ es) all q lt = ground (arith, ==_iff e.priority q, none_of p es all.1 q lt)

-- A new extension comes behind those of its priority.
of_priority-insert_sorted :
    (p : ℕ) (e : Extension) (es : List Extension)
    → IsDescending es
    → of_priority p (insert_sorted e es) ≡ of_priority p es ++ of_priority p (e ∷ [])
unfolding insert_sorted of_priority
of_priority-insert_sorted p e [] d = refl
of_priority-insert_sorted p e (f ∷ fs) d = ground (
  arith,
  ==_iff e.priority p,
  ==_iff f.priority p,
  of_priority-insert_sorted p e fs d.1,
  none_of f.priority fs d.0 p,
  append-nil (of_priority p fs),
)

of_priority-cons :
    (p : ℕ) (e : Extension) (es : List Extension)
    → of_priority p (e ∷ []) ++ of_priority p es ≡ of_priority p (e ∷ es)
unfolding of_priority
of_priority-cons p e es = ground arith

sort_onto-IsDescending :
    (sorted es : List Extension) → IsDescending sorted → IsDescending (sort_onto sorted es)
unfolding sort_onto
sort_onto-IsDescending sorted [] d = d
sort_onto-IsDescending sorted (e ∷ es) d =
    sort_onto-IsDescending (insert_sorted e sorted) es (insert_sorted-IsDescending e sorted d)

sort_onto-of_priority :
    (p : ℕ) (sorted es : List Extension)
    → IsDescending sorted
    → of_priority p (sort_onto sorted es) ≡ of_priority p sorted ++ of_priority p es
unfolding sort_onto
sort_onto-of_priority p sorted [] d = unfold of_priority in rw append-nil
sort_onto-of_priority p sorted (e ∷ es) d = rw (
  sort_onto-of_priority p (insert_sorted e sorted) es (insert_sorted-IsDescending e sorted d),
  of_priority-insert_sorted p e sorted d,
  append_assoc (of_priority p sorted) (of_priority p (e ∷ [])) (of_priority p es),
  of_priority-cons p e es,
)

-- `configure` puts the extensions into the descending order of their priorities, keeps those of one
-- priority in the order in which they were given, and neither drops nor repeats any.
pub configure-stable :
    (es : List Extension)
    → IsDescending (configure es) × ((p : ℕ) → of_priority p (configure es) ≡ of_priority p es)
unfolding configure of_priority
configure-stable es = (sort_onto-IsDescending [] es tt, λ p. sort_onto-of_priority p [] es tt)
