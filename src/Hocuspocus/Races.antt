-- ===== src/Hocuspocus/Races.antt =====
-- What the interleaving of two calls of `create_document` for one name can end in.
use hocuspocu_rs.Base.{
  ℕ, zero, suc, ◌≡◌, ◌≢◌, inl, inr, false, some, List, [], ◌∷◌, ◌++◌, Str, get, remove, insert,
  ==_iff, bytes_eq_refl, arith,
}
use hocuspocu_rs.Hocuspocus.Blank.{is_blank}
use hocuspocu_rs.Hocuspocus.Loading.{
  returned, Event, move, Loaded, advance, step, run, initial, failed_concurrently, load,
}

-- `n` turns of call `i`.
abbrev pub goes : ℕ → ℕ → Loaded → List Event
goes zero i r = []
goes (suc n) i r = move i r ∷ goes n i r

-- A document is asked for a second time while its first load is under way: the second call does not
-- wait for the load, but returns an error.
pub second_caller_fails :
    (names : ℕ → Str) (i j : ℕ) (r : Loaded)
    → i ≢ j
    → names j ≡ names i
    → is_blank (names i) ≡ false
    → let s = run (goes 3 i r ++ goes 7 j r) (initial names) in
      (s.calls i ≡ load (names i) 0) × (s.calls j ≡ returned (inl failed_concurrently))
unfolding run step advance initial get insert
second_caller_fails names i j r h e b =
    ground (arith, ==_iff i j, ==_iff j i, ==_iff i i, ==_iff j j, bytes_eq_refl (names i))

-- Two calls see neither the document nor a load of it; one of them loads it to its end before the
-- other takes its lock. Then the other loads it again, and its document replaces the first, which
-- the first caller holds.
pub second_load_replaces :
    (names : ℕ → Str) (i j d1 d2 : ℕ)
    → i ≢ j
    → names j ≡ names i
    → is_blank (names i) ≡ false
    → let s = run (goes 2 j (inr d2) ++ goes 7 i (inr d1) ++ goes 5 j (inr d2)) (initial names) in
      (s.calls i ≡ returned (inr d1))
      × (s.calls j ≡ returned (inr d2))
      × (get (names i) s.tables.documents ≡ some d2)
unfolding run step advance initial get insert remove
second_load_replaces names i j d1 d2 h e b =
    ground (arith, ==_iff i j, ==_iff j i, ==_iff i i, ==_iff j j, bytes_eq_refl (names i))
