-- ===== src/Hocuspocus/Persisting/Stored.antt =====
-- The changes of a document are stored in the end.
use hocuspocu_rs.Base.{
  ℕ, ◌*◌, ◌≤◌, ◌≡◌, ◌∙◌, refl, sym, ap, subst, not, ◌&&◌, List, [], ◌∷◌, ◌++◌, Bytes, length, All,
  Bool-cases, inl, inr,
}
use hocuspocu_rs.Debounce
use hocuspocu_rs.Debounce.{
  Debouncer, Event, call_debounce, call_execute_now, move, tick, is_debounced,
}
use hocuspocu_rs.Debounce.Holding.{IsHeld, run-IsHeld}
use hocuspocu_rs.Debounce.Matching.{Matches, run-Matches}
use hocuspocu_rs.Debounce.Settling.{IsDue}
use hocuspocu_rs.Debounce.Settling.Rounds.{Covers, run_rounds, kept_runs}
use hocuspocu_rs.DirectConnection.{change}
use hocuspocu_rs.Document
use hocuspocu_rs.Hocuspocus.Opening.{on_update}
use hocuspocu_rs.Hocuspocus.Persisting.{
  ServerEvent, changed, left, flushed, turn_of, passed, IsExecuted, step, run, IsApart,
}
use hocuspocu_rs.Hocuspocus.Persisting.Changes.{change-lasts}
use hocuspocu_rs.Hocuspocus.Storing.{
  Hocuspocus, id_of, flush_one, store_document_hooks, handle_document_update,
}
use hocuspocu_rs.Types.{should_skip_store_hooks}
use hocuspocu_rs.Yrs.{Yrs}

-- What the debouncer has come to is what some events of its own bring it to.
abbrev Reaches : Debouncer → Debouncer → Type 0
Reaches d d' = (events : List Event) × (d' ≡ Debounce.run events d)

Reaches-step : (event : Event) (d d' : Debouncer) → d' ≡ Debounce.step event d → Reaches d d'
unfolding Debounce.run
Reaches-step event d d' e = (event ∷ [], e)

run-append :
    (first more : List Event) (d : Debouncer)
    → Debounce.run (first ++ more) d ≡ Debounce.run more (Debounce.run first d)
unfolding Debounce.run
run-append [] more d = refl
run-append (event ∷ first) more d = run-append first more (Debounce.step event d)

Reaches-trans : (d d' d'' : Debouncer) → Reaches d d' → Reaches d' d'' → Reaches d d''
Reaches-trans d d' d'' (first, e) (more, e') =
    (first ++ more, e' ∙ ap (Debounce.run more) e ∙ sym (run-append first more d))

module _ (y : Yrs) where
  update-Reaches :
      (doc : ℕ) (update : Bytes) (s : Hocuspocus y)
      → Reaches s.debouncer (on_update y doc update s).debouncer
  unfolding on_update handle_document_update should_skip_store_hooks store_document_hooks
      Debounce.step
  update-Reaches doc update s =
      Reaches-step (call_debounce (id_of y doc s) (length s.stores) s.debounce_ms s.max_debounce_ms)
        s.debouncer _ refl

  step-Reaches :
      (event : ServerEvent) (s : Hocuspocus y) → Reaches s.debouncer (step y event s).debouncer
  unfolding step flush_one store_document_hooks Debounce.step Debounce.run
  step-Reaches (changed doc update) s = update-Reaches doc update s
  step-Reaches (left doc context) s =
      Reaches-step
        (call_debounce (id_of y doc (change y doc (Document.remove_direct_connection y) s))
          (length s.stores) 0 s.max_debounce_ms)
        s.debouncer _ refl
  step-Reaches (flushed doc) s =
      elim (Bool-cases (not (s.docs doc).is_loading && is_debounced (id_of y doc s) s.debouncer)) [
        | inr idle ↦ rw idle ([], refl)
        | inl due ↦ rw due (Reaches-step (call_execute_now (id_of y doc s)) s.debouncer _ refl)
      ]
  step-Reaches (turn_of task) s = Reaches-step (move task) s.debouncer _ refl
  step-Reaches (passed ms) s = Reaches-step (tick ms) s.debouncer _ refl

  run-Reaches :
      (events : List ServerEvent) (s : Hocuspocus y)
      → Reaches s.debouncer (run y events s).debouncer
  unfolding run Debounce.run
  run-Reaches [] s = ([], refl)
  run-Reaches (event ∷ events) s =
      Reaches-trans s.debouncer (step y event s).debouncer _ (step-Reaches event s)
        (run-Reaches events (step y event s))

  -- A change of a document is stored in the end: on a server that began with a new debouncer, and
  -- whatever happened before the change and happens behind it, but that another document of the same
  -- name is changed or left, a function that stores the document, and that was handed to the debouncer
  -- no earlier than for this change, has run when the time of every timer has come and, with no event
  -- in between, the tasks have had their turns: six rounds for each task, where a round gives every
  -- task a turn.
  pub change-stored :
      (before after : List ServerEvent) (start : Hocuspocus y) (now doc : ℕ) (update : Bytes)
      (rounds : List (List ℕ))
      → start.debouncer ≡ Debounce.new now
      → let s = run y before start in
        let s' = run y after (on_update y doc update s) in
        All (IsApart y (λ k. (s.docs k).name) doc) after
        → IsDue s'.debouncer
        → All (Covers s'.debouncer.next_task) rounds
        → 6 * s'.debouncer.next_task ≤ length rounds
        → IsExecuted (length s.stores) doc s'.stores (run_rounds rounds s'.debouncer).executed
  change-stored before after start now doc update rounds fresh apart due covers enough =
      let s = run y before start in
      let s₁ = on_update y doc update s in
      let s' = run y after s₁ in
      let old = subst (λ d. Reaches d s.debouncer) fresh (run-Reaches before start) in
      let matches = subst Matches (sym old.1) (run-Matches old.0 now) in
      let reached = Reaches-trans (Debounce.new now) s.debouncer s'.debouncer old (
        Reaches-trans s.debouncer s₁.debouncer s'.debouncer (update-Reaches doc update s)
          (run-Reaches after s₁)) in
      let p = change-lasts y doc update after s matches apart in
      record {
        func = p.func;
        payload = p.payload;
        since = p.since;
        found = p.found;
        its = p.its;
        ran =
            kept_runs rounds (id_of y doc s) p.func s'.debouncer
              (subst Matches (sym reached.1) (run-Matches reached.0 now))
              (subst IsHeld (sym reached.1) (run-IsHeld reached.0 now)) due covers enough p.kept;
      }
