-- ===== src/Server.antt =====
-- hocuspocu-rs/src/server.rs: the end of a server.
use hocuspocu_rs.Base.{
  ℕ, zero, suc, ◌≡◌, ◌≤◌, ◌⊎◌, inl, inr, refl, none, ◌==◌, ==_iff, arith, Bool-cases, if◌then◌else◌,
}
use hocuspocu_rs.Hocuspocus.Storing.{
  Hocuspocus, log, on_destroy_call, get_documents_count, close_connections, flush_pending_stores,
}
use hocuspocu_rs.Yrs.{Yrs}
pub mod Listening

module _ (y : Yrs) (meanwhile sleep : ℕ → Hocuspocus y → Hocuspocus y) where
  -- `meanwhile` is what everything does until a flushed store has run, `sleep` what it does in a sleep
  -- of 50 ms. The number counts the attempts
  -- that are left, of 100; with the state comes the number of sleeps.
  pub wait : ℕ → Hocuspocus y → ℕ × Hocuspocus y
  wait zero s = (0, s)
  wait (suc left) s =
      let (attempts, s') = wait left (sleep left s) in
      if get_documents_count y s == 0 then (0, s) else (suc attempts, s')

  abbrev pub ended : Hocuspocus y → Hocuspocus y
  ended s = log y on_destroy_call s

  unfoldable pub destroy : Hocuspocus y → ℕ × Hocuspocus y
  unfolding wait
  destroy s =
      let (attempts, s') =
        wait 100 (flush_pending_stores y meanwhile (close_connections y none s)) in
      if get_documents_count y s == 0 then (0, ended s) else (attempts, ended s')

  wait_ends :
      (left : ℕ) (s : Hocuspocus y)
      → let (attempts, s') = wait left s in
        (attempts ≤ left) × ((get_documents_count y s' ≡ 0) ⊎ (attempts ≡ left))
  unfolding wait
  wait_ends zero s = (omega arith, inr refl)
  wait_ends (suc left) s = elim (Bool-cases (get_documents_count y s == 0)) [
    | inl empty ↦ rw empty (omega arith, inl (ground (arith, ==_iff (get_documents_count y s) 0)))
    | inr held ↦
        let (few, last) = wait_ends left (sleep left s) in
        rw held (
          omega (arith, few),
          elim last [ inl none_left ↦ inl none_left | inr all ↦ inr (omega (arith, all)) ],
        )
  ]

  -- `destroy` sleeps at most 100 times and then calls the `on_destroy` hooks, whose call is the last;
  -- before it, no document is left or it has slept 100 times.
  pub destroy_ends :
      (s : Hocuspocus y)
      → let (attempts, s') = destroy s in
        (attempts ≤ 100)
        × (before : Hocuspocus y) × (s' ≡ ended before)
        × ((get_documents_count y before ≡ 0) ⊎ (attempts ≡ 100))
  unfolding destroy
  destroy_ends s = elim (Bool-cases (get_documents_count y s == 0)) [
    | inl empty ↦
        rw empty (omega arith, s, refl, inl (ground (arith, ==_iff (get_documents_count y s) 0)))
    | inr held ↦
        let flushed = flush_pending_stores y meanwhile (close_connections y none s) in
        let (few, last) = wait_ends 100 flushed in rw held (few, (wait 100 flushed).1, refl, last)
  ]
