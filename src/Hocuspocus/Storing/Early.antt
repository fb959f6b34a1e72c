-- ===== src/Hocuspocus/Storing/Early.antt =====
-- The task that a store spawns may come too early.
use hocuspocu_rs.Base.{
  ℕ, ◌<◌, ◌≡◌, ◌≢◌, Bool, Bool-cases, inl, inr, refl, true, false, List, [], ◌∷◌, Str, Bytes,
  length, get, insert, remove, bytes_eq_refl, contains_key, ==_iff, arith,
}
use hocuspocu_rs.Debounce
use hocuspocu_rs.Debounce.{
  Debouncer, Event, call_debounce, tick, move, ended, debounce, is_currently_executing,
  is_debounced,
}
use hocuspocu_rs.Document
use hocuspocu_rs.Hocuspocus.Opening.{on_update}
use hocuspocu_rs.Hocuspocus.Persisting as Persisting
use hocuspocu_rs.Hocuspocus.Persisting.{changed, passed, turn_of}
use hocuspocu_rs.Hocuspocus.Storing.{
  Hocuspocus, id_of, should_unload_document, try_unload, handle_document_update,
  store_document_hooks,
}
use hocuspocu_rs.Types.{should_skip_store_hooks}
use hocuspocu_rs.Yrs.{Yrs}

-- A call whose timer has run its function, and has one turn left.
abbrev executed_once : Str → ℕ → ℕ → ℕ → List Event
executed_once id func delay max =
    call_debounce id func delay max ∷ tick delay ∷ move 0 ∷ move 0 ∷ move 0 ∷ move 0 ∷ []

-- The function has run, and only the debouncer's record of the execution is left.
record IsLeaving (id : Str) (func : ℕ) (d : Debouncer) : Type 0 where
  ran : d.executed ≡ func ∷ []
  running : is_currently_executing id d ≡ true

-- Nothing is left to be done for the id, nor any task.
record IsIdle (id : Str) (d : Debouncer) : Type 0 where
  unarmed : is_debounced id d ≡ false
  unused : is_currently_executing id d ≡ false
  over : (k : ℕ) → d.tasks k ≡ ended

module _ (id : Str) (func delay max now : ℕ) (waits : delay ≢ 0) (positive : 0 < max) where
  executed_once-IsLeaving :
      IsLeaving id func (Debounce.run (executed_once id func delay max) (Debounce.new now))
  unfolding Debounce.run Debounce.step debounce Debounce.new get insert remove
      is_currently_executing contains_key
  executed_once-IsLeaving = record {
    ran = ground (arith, bytes_eq_refl id, ==_iff delay 0);
    running = ground (arith, bytes_eq_refl id, ==_iff delay 0);
  }

  executed_once-IsIdle :
      IsIdle id
        (Debounce.step (move 0) (Debounce.run (executed_once id func delay max) (Debounce.new now)))
  unfolding Debounce.run Debounce.step debounce Debounce.new get insert remove
      is_currently_executing is_debounced contains_key
  executed_once-IsIdle = record {
    unarmed = ground (arith, bytes_eq_refl id, ==_iff delay 0);
    unused = ground (arith, bytes_eq_refl id, ==_iff delay 0);
    over = λ k. ground (arith, bytes_eq_refl id, ==_iff delay 0, ==_iff 0 k);
  }

module _ (y : Yrs) (hook : Hocuspocus y → Bool × Hocuspocus y) (doc : ℕ) where
  busy_waits :
      (s : Hocuspocus y)
      → is_currently_executing (id_of y doc s) s.debouncer ≡ true
      → try_unload y hook doc s ≡ s
  unfolding try_unload should_unload_document
  busy_waits s running = elim (Bool-cases (is_debounced (id_of y doc s) s.debouncer)) [
    | inl armed ↦ rw armed refl
    | inr unarmed ↦ rw (unarmed, running) refl
  ]

  -- On a server whose debouncer is new and puts stores off, a document that nobody is connected to and
  -- nobody saves changes, the delay passes, and the task of its timer runs the function that stores it.
  -- If the task that the function spawns to unload the document comes before the last turn of the
  -- timer's task, it does nothing, whatever the hooks would answer. One turn later the document is to
  -- be unloaded, and no task of the debouncer is left.
  pub try_unload_early :
      (s : Hocuspocus y) (now : ℕ) (update : Bytes)
      → s.debouncer ≡ Debounce.new now
      → s.debounce_ms ≢ 0
      → 0 < s.max_debounce_ms
      → (s.docs doc).save_mutex ≡ false
      → Document.get_connections_count y (s.docs doc) ≡ 0
      → let s₁ =
          Persisting.run y
            (changed doc update
              ∷ passed s.debounce_ms
              ∷ turn_of 0
              ∷ turn_of 0
              ∷ turn_of 0
              ∷ turn_of 0
              ∷ [])
            s in
        let s₂ = Persisting.step y (turn_of 0) s₁ in
        (s₁.debouncer.executed ≡ length s.stores ∷ [])
        × (try_unload y hook doc s₁ ≡ s₁)
        × (should_unload_document y doc s₂ ≡ true)
        × ((k : ℕ) → s₂.debouncer.tasks k ≡ ended)
  unfolding Persisting.run Persisting.step on_update handle_document_update store_document_hooks
      should_skip_store_hooks should_unload_document Debounce.run Debounce.step
  try_unload_early s now update fresh waits positive unlocked unconnected =
      let id = id_of y doc s in
      let func = length s.stores in
      let delay = s.debounce_ms in
      let max = s.max_debounce_ms in
      let leaving = executed_once-IsLeaving id func delay max now waits positive in
      let idle = executed_once-IsIdle id func delay max now waits positive in
      rw fresh (
        leaving.ran,
        busy_waits _ leaving.running,
        rw (unconnected, idle.unarmed, idle.unused, unlocked) refl,
        idle.over,
      )
