-- ===== src/Hocuspocus/SingleFlight.antt =====
-- Loads of one document do not overlap, whatever the schedule.
use hocuspocu_rs.Base.{
  ℕ, ◌≡◌, ◌≢◌, Bool-cases, refl, inl, inr, List, [], ◌∷◌, Option, none, some, Str, get, get-insert,
  get-remove, bytes_eq, bytes_eq_iff, ==_iff, if◌then◌else◌, arith,
}
use hocuspocu_rs.Hocuspocus.Loading.{
  Call, check, seek, await_other, check_again, start, await_racer, check_racer, load, settle,
  publish, clear, returned, Tables, Server, Event, move, unload, Loaded, begin, raced, after_settle,
  advance, step, run, initial, put,
}

-- The document that a call is loading: it has entered its lock and not removed it yet.
abbrev pub holding : Call → Option Str
holding (load name _) = some name
holding (settle name _ _) = some name
holding (publish name _) = some name
holding (clear name _) = some name
holding _ = none

-- Every load has its entry in `loading_documents`, and no two calls load one document.
record IsExclusive (s : Server) : Type 0 where
  entered :
      (i : ℕ) (name : Str) → holding (s.calls i) ≡ some name → get name s.tables.loading ≢ none
  alone :
      (i j : ℕ) (name : Str)
      → holding (s.calls i) ≡ some name
      → holding (s.calls j) ≡ some name
      → i ≡ j

-- What a step of a call may do to its hold, and to `loading_documents`.
data Change (before after : Call) (t u : Tables) : Type 0 where
  keeps : holding after ≡ holding before → u.loading ≡ t.loading → Change before after t u
  begins :
      (name : Str)
      → holding before ≡ none
      → holding after ≡ some name
      → get name t.loading ≡ none
      → ((other : Str)
          → get other u.loading
            ≡ (if bytes_eq name other then some t.next_lock else get other t.loading))
      → Change before after t u
  ends :
      (name : Str)
      → holding before ≡ some name
      → holding after ≡ none
      → ((other : Str)
          → get other u.loading ≡ (if bytes_eq name other then none else get other t.loading))
      → Change before after t u

begin-Change :
    (r : Loaded) (name : Str) (t : Tables) (o : Option ℕ)
    → get name t.loading ≡ o
    → Change (start name) (begin name t o).0 t (begin name t o).1
begin-Change r name t none e = begins name refl refl e (λ other. get-insert name other _ _)
begin-Change r name t (some lock) e = keeps refl refl

raced-Change :
    (name : Str) (lock : ℕ) (t : Tables) (o : Option Loaded)
    → Change (await_racer name lock) (raced name lock t o).0 t (raced name lock t o).1
raced-Change name lock t none = keeps refl refl
raced-Change name lock t (some result) = keeps refl refl

settled-holding : (name : Str) (r : Loaded) → holding (after_settle name r) ≡ some name
settled-holding name (inl e) = refl
settled-holding name (inr doc) = refl

advance-Change :
    (r : Loaded) (c : Call) (t : Tables) → Change c (advance r c t).0 t (advance r c t).1
unfolding advance
advance-Change r (check name) t = keeps (ground arith) refl
advance-Change r (seek name) t = keeps (ground arith) refl
advance-Change r (await_other name lock) t = elim (Bool-cases (t.held lock)) [
  | inl busy ↦ rw busy (keeps refl refl)
  | inr free ↦ rw free (keeps (ground arith) refl)
]
advance-Change r (check_again name) t = keeps (ground arith) refl
advance-Change r (start name) t = begin-Change r name t _ refl
advance-Change r (await_racer name lock) t = elim (Bool-cases (t.held lock)) [
  | inl busy ↦ rw busy (keeps refl refl)
  | inr free ↦ rw free (raced-Change name lock t (t.locks lock))
]
advance-Change r (check_racer name lock) t = keeps (ground arith) refl
advance-Change r (load name lock) t = keeps refl refl
advance-Change r (settle name lock result) t = elim (Bool-cases (t.held lock)) [
  | inl busy ↦ rw busy (keeps refl refl)
  | inr free ↦ rw free (keeps (settled-holding name result) refl)
]
advance-Change r (publish name doc) t = keeps refl refl
advance-Change r (clear name result) t = ends name refl refl (λ other. get-remove name other _)
advance-Change r (returned result) t = keeps refl refl

module _ (s : Server) (i : ℕ) (c : Call) (t : Tables) (inv : IsExclusive s) where
  put-entered :
      (k : ℕ) (name : Str)
      → Change (s.calls i) c s.tables t
      → holding ((put i s (c, t)).calls k) ≡ some name
      → get name t.loading ≢ none
  put-entered k name (keeps e l) h =
      ground (arith, ==_iff i k, inv.entered i name, inv.entered k name)
  put-entered k name (begins new e e' free l) h =
      ground (arith, ==_iff i k, l name, bytes_eq_iff new name, inv.entered k name)
  put-entered k name (ends old e e' l) h =
      ground
        (arith, ==_iff i k, l name, bytes_eq_iff old name, inv.entered k name, inv.alone i k name)

  put-alone :
      (k j : ℕ) (name : Str)
      → Change (s.calls i) c s.tables t
      → holding ((put i s (c, t)).calls k) ≡ some name
      → holding ((put i s (c, t)).calls j) ≡ some name
      → k ≡ j
  put-alone k j name (keeps e l) h g =
      ground
        (arith, ==_iff i k, ==_iff i j, inv.alone k j name, inv.alone i j name, inv.alone k i name)
  put-alone k j name (begins new e e' free l) h g =
      ground
        (arith, ==_iff i k, ==_iff i j, inv.alone k j name, inv.entered k name, inv.entered j name)
  put-alone k j name (ends old e e' l) h g =
      ground (arith, ==_iff i k, ==_iff i j, inv.alone k j name)

step-IsExclusive : (e : Event) (s : Server) → IsExclusive s → IsExclusive (step e s)
unfolding step
step-IsExclusive (move i r) s inv =
    let change = advance-Change r (s.calls i) s.tables in
    record {
      entered = λ k name. put-entered s i _ _ inv k name change;
      alone = λ k j name. put-alone s i _ _ inv k j name change;
    }
step-IsExclusive (unload name) s inv = record { entered = inv.entered; alone = inv.alone }

run-IsExclusive :
    (schedule : List Event) (s : Server) → IsExclusive s → IsExclusive (run schedule s)
unfolding run
run-IsExclusive [] s inv = inv
run-IsExclusive (e ∷ schedule) s inv =
    run-IsExclusive schedule (step e s) (step-IsExclusive e s inv)

initial-IsExclusive : (names : ℕ → Str) → IsExclusive (initial names)
unfolding initial
initial-IsExclusive names = record { entered = λ i name h. cc; alone = λ i j name h g. cc }

-- Whatever the calls ask for and however they interleave with one another and with unloading, a
-- document that one call is loading is not being loaded by another.
pub run-single_flight :
    (names : ℕ → Str) (schedule : List Event) (i j : ℕ) (name : Str)
    → i ≢ j
    → holding ((run schedule (initial names)).calls i) ≡ some name
    → holding ((run schedule (initial names)).calls j) ≢ some name
run-single_flight names schedule i j name apart hi hj =
    let inv = run-IsExclusive schedule (initial names) (initial-IsExclusive names) in
    apart (inv.alone i j name hi hj)
