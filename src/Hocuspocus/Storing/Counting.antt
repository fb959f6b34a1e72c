-- ===== src/Hocuspocus/Storing/Counting.antt =====
-- What get_connections_count counts, whatever the order in which the maps are read.
use hocuspocu_rs.Base.{
  ℕ, ◌+◌, ◌≡◌, ◌≤◌, ◌∙◌, refl, sym, ap, inl, inr, Bool, true, false, ◌||◌, List, [], ◌∷◌, Str,
  length, HashMap, bytes_eq, bytes_eq_iff, bytes_eq_refl, if◌then◌else◌, arith, Bool-cases,
  false≢true,
}
use hocuspocu_rs.Document.{get_connection_socket_ids}
use hocuspocu_rs.Hocuspocus.Storing.{
  Hocuspocus, contains_text, insert_all, count_each, get_connections_count,
}
use hocuspocu_rs.Yrs.{Yrs}

abbrev pub Distinct : List Str → Type 0
Distinct [] = Unit
Distinct (s ∷ ss) = (contains_text s ss ≡ false) × Distinct ss

abbrev one_more : Str → List Str → List Str
one_more s ids = if contains_text s ids then ids else s ∷ ids

contains_text-one_more :
    (id s : Str) (ids : List Str)
    → contains_text id (one_more s ids) ≡ bytes_eq s id || contains_text id ids
contains_text-one_more id s ids = elim (Bool-cases (contains_text s ids)) [
  | inl seen ↦ elim (Bool-cases (bytes_eq s id)) [
    | inl same ↦ let key : s ≡ id = (bytes_eq_iff s id).0 same in rw (seen, same) (rw key at seen)
    | inr other ↦ rw (seen, other) refl
  ]
  | inr unseen ↦ rw unseen refl
]

one_more-Distinct : (s : Str) (ids : List Str) → Distinct ids → Distinct (one_more s ids)
one_more-Distinct s ids d = elim (Bool-cases (contains_text s ids)) [
  | inl seen ↦ rw seen d
  | inr unseen ↦ rw unseen (unseen, d)
]

contains_text-insert_all :
    (id : Str) (more ids : List Str)
    → contains_text id (insert_all more ids) ≡ contains_text id more || contains_text id ids
contains_text-insert_all id [] ids = refl
contains_text-insert_all id (s ∷ more) ids =
    ground
      (arith, contains_text-insert_all id more (one_more s ids), contains_text-one_more id s ids)

insert_all-Distinct : (more ids : List Str) → Distinct ids → Distinct (insert_all more ids)
insert_all-Distinct [] ids d = d
insert_all-Distinct (s ∷ more) ids d =
    insert_all-Distinct more (one_more s ids) (one_more-Distinct s ids d)

-- Every copy of a text goes.
drop_text : Str → List Str → List Str
drop_text s [] = []
drop_text s (t ∷ ts) = let rest = drop_text s ts in if bytes_eq t s then rest else t ∷ rest

contains_text-drop_text :
    (id s : Str) (ts : List Str)
    → bytes_eq s id ≡ false
    → contains_text id (drop_text s ts) ≡ contains_text id ts
unfolding drop_text
contains_text-drop_text id s [] other = refl
contains_text-drop_text id s (t ∷ ts) other = elim (Bool-cases (bytes_eq t s)) [
  | inl same ↦
      let key : t ≡ s = (bytes_eq_iff t s).0 same in
      rw (same, key, other) (contains_text-drop_text id s ts other)
  | inr kept ↦ rw (kept, contains_text-drop_text id s ts other) refl
]

length-drop_text :
    (s : Str) (ts : List Str)
    → (length (drop_text s ts) ≤ length ts)
      × (contains_text s ts ≡ true → length (drop_text s ts) + 1 ≤ length ts)
unfolding drop_text
length-drop_text s [] = (omega arith, λ e. absurd (false≢true e))
length-drop_text s (t ∷ ts) = elim (Bool-cases (bytes_eq t s)) [
  | inl same ↦
      rw same
        (omega (arith, (length-drop_text s ts).0), λ e. omega (arith, (length-drop_text s ts).0))
  | inr other ↦
      rw other
        (omega (arith, (length-drop_text s ts).0), λ e. omega (arith, (length-drop_text s ts).1 e))
]

-- Distinct texts that are all in another list are no more than those.
Distinct-length :
    (xs ys : List Str)
    → Distinct xs
    → ((id : Str) → contains_text id xs ≡ true → contains_text id ys ≡ true)
    → length xs ≤ length ys
Distinct-length [] ys d within = omega arith
Distinct-length (x ∷ xs) ys d within = omega (
  arith,
  (length-drop_text x ys).1 (within x (ground (arith, bytes_eq_refl x))),
  Distinct-length xs (drop_text x ys) d.1 still,
)
  where
    still : (id : Str) → contains_text id xs ≡ true → contains_text id (drop_text x ys) ≡ true
    still id there = elim (Bool-cases (bytes_eq x id)) [
      | inl same ↦
          let key : x ≡ id = (bytes_eq_iff x id).0 same in
          absurd (false≢true (sym d.0 ∙ ap (λ k. contains_text k xs) key ∙ there))
      | inr other ↦ contains_text-drop_text id x ys other ∙ within id (ground (arith, there))
    ]

module _ (y : Yrs) (s : Hocuspocus y) where
  abbrev sockets : ℕ → List Str
  sockets doc = get_connection_socket_ids y (s.docs doc)

  -- A connection of one of the documents stands behind the socket.
  unfoldable pub is_connected : Str → HashMap ℕ → Bool
  is_connected id [] = false
  is_connected id ((_, doc) ∷ rest) = contains_text id (sockets doc) || is_connected id rest

  unfoldable pub total_direct : HashMap ℕ → ℕ
  total_direct [] = 0
  total_direct ((_, doc) ∷ rest) = (s.docs doc).direct_connections_count + total_direct rest

  -- The set that the loop collects.
  gathered : HashMap ℕ → List Str → List Str
  gathered [] ids = ids
  gathered ((_, doc) ∷ rest) ids = gathered rest (insert_all (sockets doc) ids)

  count_each-gathered :
      (docs : HashMap ℕ) (ids : List Str) (direct : ℕ)
      → count_each y docs ids direct s ≡ length (gathered docs ids) + (direct + total_direct docs)
  unfolding count_each gathered total_direct
  count_each-gathered [] ids direct = omega arith
  count_each-gathered ((name, doc) ∷ rest) ids direct =
      omega (arith, count_each-gathered rest (insert_all (sockets doc) ids) _)

  gathered-Distinct :
      (docs : HashMap ℕ) (ids : List Str) → Distinct ids → Distinct (gathered docs ids)
  unfolding gathered
  gathered-Distinct [] ids d = d
  gathered-Distinct ((name, doc) ∷ rest) ids d =
      gathered-Distinct rest (insert_all (sockets doc) ids)
        (insert_all-Distinct (sockets doc) ids d)

  contains_text-gathered :
      (id : Str) (docs : HashMap ℕ) (ids : List Str)
      → contains_text id (gathered docs ids) ≡ is_connected id docs || contains_text id ids
  unfolding gathered is_connected
  contains_text-gathered id [] ids = refl
  contains_text-gathered id ((name, doc) ∷ rest) ids = ground (
    arith,
    contains_text-gathered id rest (insert_all (sockets doc) ids),
    contains_text-insert_all id (sockets doc) ids,
  )

  -- The count is the number of sockets that have a connection to some document, each once however many
  -- connections it has, and of all direct connections: for any list of distinct sockets that are those,
  -- in whatever order.
  pub get_connections_count-counts :
      (distinct : List Str)
      → Distinct distinct
      → ((id : Str) → contains_text id distinct ≡ is_connected id s.documents)
      → get_connections_count y s ≡ length distinct + total_direct s.documents
  unfolding get_connections_count
  get_connections_count-counts distinct d those =
      let ids = gathered s.documents [] in
      let same : (id : Str) → contains_text id ids ≡ contains_text id distinct =
        λ id. ground (arith, contains_text-gathered id s.documents [], those id) in
      omega (
        arith,
        count_each-gathered s.documents [] 0,
        Distinct-length ids distinct (gathered-Distinct s.documents [] tt)
            (λ id e. sym (same id) ∙ e),
        Distinct-length distinct ids d (λ id e. same id ∙ e),
      )
