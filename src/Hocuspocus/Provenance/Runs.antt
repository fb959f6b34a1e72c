-- ===== src/Hocuspocus/Provenance/Runs.antt =====
-- What a schedule keeps, and so where a document comes from.
use hocuspocu_rs.Base.{
  ℕ, ◌≡◌, ◌≤◌, ◌<◌, ◌⊎◌, ◌∙◌, refl, subst, inl, inr, List, [], ◌∷◌, some, Str, get, get-remove,
  ◌==◌, ==_iff, arith, Bool-cases,
}
use hocuspocu_rs.Hocuspocus.Loading.{
  Call, check, seek, await_other, check_again, start, await_racer, check_racer, load, settle, found,
  publish, clear, returned, Server, Event, move, unload, Loaded, advance, step, run, initial,
}
use hocuspocu_rs.Hocuspocus.Provenance.{WasLoaded}
use hocuspocu_rs.Hocuspocus.Provenance.Turns.{CallFits, Locks, TablesFit, advance_fits}

module _ (Given : Str → ℕ → Type 0) where
  -- The invariant: `names` gives the document that each call asks for.
  record IsTraced (names : ℕ → Str) (s : Server) : Type 0 where
    owner : ℕ → Str
    calls : (i : ℕ) → CallFits Given owner s.tables.next_lock (names i) (s.calls i)
    tables : TablesFit Given owner s.tables

  -- Locks Given made since do not touch the locks of a call.
  later_lock :
      (owner owner' : ℕ → Str) (next next' : ℕ) (name : Str) (lock : ℕ)
      → ((l : ℕ) → l < next → owner' l ≡ owner l)
      → next ≤ next'
      → Locks Given owner next name lock
      → Locks Given owner' next' name lock
  later_lock owner owner' next next' name lock same more (own, lt) =
      (same lock lt ∙ own, omega arith)

  call_later :
      (owner owner' : ℕ → Str) (next next' : ℕ) (wanted : Str) (c : Call)
      → ((l : ℕ) → l < next → owner' l ≡ owner l)
      → next ≤ next'
      → CallFits Given owner next wanted c
      → CallFits Given owner' next' wanted c
  call_later o o' n n' wanted (check name) same more h = h
  call_later o o' n n' wanted (seek name) same more h = h
  call_later o o' n n' wanted (check_again name) same more h = h
  call_later o o' n n' wanted (start name) same more h = h
  call_later o o' n n' wanted (check_racer name lock) same more h = h
  call_later o o' n n' wanted (await_other name lock) same more h =
      (h.0, later_lock o o' n n' name lock same more h.1)
  call_later o o' n n' wanted (await_racer name lock) same more h =
      (h.0, later_lock o o' n n' name lock same more h.1)
  call_later o o' n n' wanted (load name lock) same more h =
      (h.0, later_lock o o' n n' name lock same more h.1)
  call_later o o' n n' wanted (settle name lock r) same more h =
      (h.0, later_lock o o' n n' name lock same more h.1, h.2)
  call_later o o' n n' wanted (publish name doc) same more h = h
  call_later o o' n n' wanted (clear name r) same more h = h
  call_later o o' n n' wanted (returned r) same more h = h

  move-IsTraced :
      (names : ℕ → Str) (i : ℕ) (r : Loaded) (s : Server)
      → IsTraced names s
      → ((name : Str) (lock doc : ℕ) → s.calls i ≡ load name lock → r ≡ inr doc → Given name doc)
      → IsTraced names (step (move i r) s)
  unfolding step
  move-IsTraced names i r s inv gives =
      let turn =
        advance_fits Given inv.owner s.tables inv.tables (names i) r (s.calls i) (inv.calls i)
          gives in
      record {
        owner = turn.owner';
        calls = λ j. elim (Bool-cases (i == j)) [
          | inl same ↦
              let key : i ≡ j = (==_iff i j).0 same in
              rw same (
                subst
                  (λ k.
                    CallFits Given turn.owner' (step (move i r) s).tables.next_lock (names k)
                      (advance r (s.calls i) s.tables).0)
                  key turn.call)
          | inr other ↦ rw other (
              call_later inv.owner turn.owner' s.tables.next_lock _ (names j) (s.calls j) turn.same
                turn.more (inv.calls j))
        ];
        tables = turn.tables;
      }

  unload-IsTraced :
      (names : ℕ → Str) (name : Str) (s : Server)
      → IsTraced names s
      → IsTraced names (step (unload name) s)
  unfolding step
  unload-IsTraced names name s inv = record {
    owner = inv.owner;
    calls = inv.calls;
    tables = record {
      documents = λ other doc found.
          inv.tables.documents other doc (ground (arith, get-remove name other s.tables.documents));
      loading = inv.tables.loading;
      locks = inv.tables.locks;
    };
  }

  run-IsTraced :
      (names : ℕ → Str) (schedule : List Event) (s : Server)
      → IsTraced names s
      → ((name : Str) (doc : ℕ) → WasLoaded name doc schedule s → Given name doc)
      → IsTraced names (run schedule s)
  unfolding run
  run-IsTraced names [] s inv gives = inv
  run-IsTraced names (move i r ∷ schedule) s inv gives =
      run-IsTraced names schedule (step (move i r) s)
        (move-IsTraced names i r s inv
          (λ name lock doc at given. gives name doc (inl (lock, at, given))))
        (λ name doc later. gives name doc (inr later))
  run-IsTraced names (unload name ∷ schedule) s inv gives =
      run-IsTraced names schedule (step (unload name) s) (unload-IsTraced names name s inv) gives

  initial-IsTraced : (names : ℕ → Str) → IsTraced names (initial names)
  unfolding initial get
  initial-IsTraced names = record {
    owner = λ lock. [];
    calls = λ i. refl;
    tables = record {
      documents = λ name doc found. cc;
      loading = λ name lock found. cc;
      locks = λ lock r found. cc;
    };
  }

-- However the calls interleave with one another and with unloading, a document that a call returns was
-- loaded for the name that this call asked for, by a call in the course of the schedule; and so was
-- every document that the server holds under a name.
pub run-provenance :
    (names : ℕ → Str) (schedule : List Event) (i doc : ℕ) (name : Str)
    → ((run schedule (initial names)).calls i ≡ returned (inr doc)) × (name ≡ names i)
      ⊎ (get name (run schedule (initial names)).tables.documents ≡ some doc)
    → WasLoaded name doc schedule (initial names)
run-provenance names schedule i doc name claim =
    let given = λ (n : Str) (d : ℕ). WasLoaded n d schedule (initial names) in
    let inv =
      run-IsTraced given names schedule (initial names) (initial-IsTraced given names)
        (λ n d was. was) in
    elim claim [
      | inl (at, same) ↦ rw same (
          subst (CallFits given inv.owner (run schedule (initial names)).tables.next_lock (names i))
            at (inv.calls i))
      | inr found ↦ inv.tables.documents name doc found
    ]
