-- ===== src/Hocuspocus/Persisting/Lost.antt =====
-- Two documents of one name share an id in the debouncer, so that one's change is not stored.
use hocuspocu_rs.Base.{
  ℕ, ◌+◌, ◌-◌, ◌<◌, ◌≡◌, ◌≢◌, Bool, true, false, not, ◌&&◌, List, [], ◌∷◌, ◌++◌, none, some, Str,
  Bytes, All, get_elem?, get_elem?-append_last, length, length-append, get, insert, remove,
  bytes_eq_refl, leb, ◌==◌, ==_iff, arith, Bool-cases, inl, inr,
}
use hocuspocu_rs.Debounce
use hocuspocu_rs.Debounce.{
  Debouncer, sleeping, debounce, execute_now, is_debounced, take_timer, arm, start_of, move, tick,
}
use hocuspocu_rs.Debounce.Gone.{IsGone, debounce-IsGone, execute_now-IsGone, move-IsGone}
use hocuspocu_rs.Debounce.Matching.{
  Matches, step-Matches, debounce-Matches, execute_now-Matches, run-Matches,
}
use hocuspocu_rs.DirectConnection.{last_payload}
use hocuspocu_rs.Hocuspocus.Opening.{on_update}
use hocuspocu_rs.Hocuspocus.Persisting.{
  ServerEvent, changed, left, flushed, turn_of, passed, step, run, IsExecuted,
}
use hocuspocu_rs.Hocuspocus.Storing.{
  Hocuspocus, StorePayload, id_of, flush_one, store_document_hooks, handle_document_update,
}
use hocuspocu_rs.Types.{empty_context, should_skip_store_hooks}
use hocuspocu_rs.Yrs.{Yrs}

-- The function of the first of two calls for one id, the second of which comes within the delays, has
-- no task left.
second_call-IsGone :
    (id : Str) (f g delay max now : ℕ)
    → delay ≢ 0
    → 0 < max
    → g ≢ f
    → IsGone f (debounce id g delay max (debounce id f delay max (Debounce.new now)))
unfolding debounce Debounce.new get insert remove
second_call-IsGone id f g delay max now waits positive other =
    rw (zero_delay, early, bytes_eq_refl id, early)
      (record {
        ran = λ c. c;
        tasks = λ k i c. elim (Bool-cases (1 == k)) [
          | inl e ↦ other ((rw e at c).1)
          | inr e ↦ elim (Bool-cases (0 == k)) [ inl z ↦ rw (e, z) at c | inr z ↦ rw (e, z) at c ]
        ];
      })
  where
    zero_delay : (delay == 0) ≡ false
    zero_delay = ground (arith, ==_iff delay 0)

    early : leb max (now - now) ≡ false
    early = ground arith

-- A function that is not one of the two has no task.
other_call-IsGone :
    (id : Str) (h f g delay max now : ℕ)
    → f ≢ h
    → g ≢ h
    → IsGone h (debounce id g delay max (debounce id f delay max (Debounce.new now)))
unfolding Debounce.new
other_call-IsGone id h f g delay max now first last =
    debounce-IsGone h id g delay max _ last
      (debounce-IsGone h id f delay max _ first (record { ran = λ c. c; tasks = λ k i c. c }))

-- The event hands no function over that stores the document.
abbrev pub Spares : ℕ → ServerEvent → Type 0
Spares doc (changed other _) = other ≢ doc
Spares doc (left other _) = other ≢ doc
Spares doc _ = Unit

module _ (y : Yrs) (doc : ℕ) where
  -- No function that stores the document has run, or has a task.
  record IsLost (s : Hocuspocus y) : Type 0 where
    matches : Matches s.debouncer
    gone :
        (func : ℕ) (payload : StorePayload)
        → get_elem? s.stores func ≡ some payload
        → payload.document ≡ doc
        → IsGone func s.debouncer

  store-IsLost :
      (other : ℕ) (payload : StorePayload) (immediately : Bool) (s : Hocuspocus y)
      → payload.document ≢ doc
      → IsLost s
      → IsLost (store_document_hooks y other payload immediately s)
  unfolding store_document_hooks
  store-IsLost other payload immediately s apart lost = record {
    matches = debounce-Matches (id_of y other s) (length s.stores) _ _ s.debouncer lost.matches;
    gone = λ func p found its. elim (get_elem?-append_last s.stores payload p func found) [
      | inl older ↦
          debounce-IsGone func (id_of y other s) (length s.stores) _ _ s.debouncer
            (λ same. omega (arith, older.0, same)) (lost.gone func p older.1 its)
      | inr last ↦ absurd (apart cc)
    ];
  }

  step-IsLost :
      (event : ServerEvent) (s : Hocuspocus y)
      → Spares doc event
      → IsLost s
      → IsLost (step y event s)
  unfolding step flush_one on_update handle_document_update should_skip_store_hooks Debounce.step
  step-IsLost (changed other update) s apart lost =
      store-IsLost other _ false _ apart (record { matches = lost.matches; gone = lost.gone })
  step-IsLost (left other context) s apart lost =
      store-IsLost other (last_payload other context) true _ apart
        (record { matches = lost.matches; gone = lost.gone })
  step-IsLost (flushed other) s _ lost =
      elim (Bool-cases
        (not (s.docs other).is_loading && is_debounced (id_of y other s) s.debouncer)) [
          | inr idle ↦ rw idle lost
          | inl due ↦ rw due (record {
            matches = execute_now-Matches (id_of y other s) s.debouncer lost.matches;
            gone = λ func p found its.
                execute_now-IsGone func (id_of y other s) s.debouncer lost.matches
                  (lost.gone func p found its);
          })
        ]
  step-IsLost (turn_of task) s _ lost = record {
    matches = step-Matches (move task) s.debouncer lost.matches;
    gone = λ func p found its. move-IsGone func task s.debouncer (lost.gone func p found its);
  }
  step-IsLost (passed ms) s _ lost = record {
    matches = step-Matches (tick ms) s.debouncer lost.matches;
    gone = λ func p found its. record {
      ran = (lost.gone func p found its).ran;
      tasks = (lost.gone func p found its).tasks;
    };
  }

  run-IsLost :
      (events : List ServerEvent) (s : Hocuspocus y)
      → All (Spares doc) events
      → IsLost s
      → IsLost (run y events s)
  unfolding run
  run-IsLost [] s _ lost = lost
  run-IsLost (event ∷ events) s (apart, more) lost =
      run-IsLost events (step y event s) more (step-IsLost event s apart lost)

module _ (y : Yrs) where
  -- The state behind the two changes.
  module _ (s : Hocuspocus y) (now doc other : ℕ) (u v : Bytes)
      (fresh : s.debouncer ≡ Debounce.new now) (waits : s.debounce_ms ≢ 0)
      (positive : 0 < s.max_debounce_ms) (distinct : other ≢ doc)
      (same : (s.docs other).name ≡ (s.docs doc).name) where
    first-Matches : Matches (on_update y doc u s).debouncer
    unfolding on_update handle_document_update should_skip_store_hooks store_document_hooks
        Debounce.run
    first-Matches =
        debounce-Matches (id_of y doc s) (length s.stores) s.debounce_ms s.max_debounce_ms
          s.debouncer (rw fresh (run-Matches [] now))

    both_changed-IsLost : IsLost y doc (on_update y other v (on_update y doc u s))
    unfolding on_update handle_document_update should_skip_store_hooks store_document_hooks
    both_changed-IsLost = record {
      matches =
          debounce-Matches (id_of y other s) (length (s.stores ++ (first ∷ []))) s.debounce_ms
            s.max_debounce_ms _ first-Matches;
      gone = λ func p found its.
          elim (get_elem?-append_last (s.stores ++ (first ∷ [])) last p func found) [
            | inr its_last ↦ absurd (distinct cc)
            | inl before ↦ elim (get_elem?-append_last s.stores first p func before.1) [
              | inr at_end ↦
                  rw (fresh, same, at_end.0)
                    (second_call-IsGone (id_of y doc s) (length s.stores)
                      (length (s.stores ++ (first ∷ []))) s.debounce_ms s.max_debounce_ms now waits
                      positive (λ equal. omega (arith, more, equal)))
              | inl older ↦
                  rw (fresh, same)
                    (other_call-IsGone (id_of y doc s) func (length s.stores)
                      (length (s.stores ++ (first ∷ []))) s.debounce_ms s.max_debounce_ms now
                      (λ equal. omega (arith, older.0, equal))
                      (λ equal. omega (arith, more, older.0, equal)))
            ]
          ];
    }
      where
        first : StorePayload
        first = record {
          document = doc;
          last_context = empty_context;
          last_transaction_origin = none;
        }

        more : length (s.stores ++ (first ∷ [])) ≡ length s.stores + 1
        more = length-append s.stores (first ∷ [])

        last : StorePayload
        last = record {
          document = other;
          last_context = empty_context;
          last_transaction_origin = none;
        }

  -- On a server whose debouncer is new and puts stores off, the change of a document is lost if a
  -- second document of the same name changes right behind it: as long as the first document does not
  -- change again and no direct connection to it is disconnected, no function that stores the first
  -- document ever runs, whatever else happens: updates of other documents, flushes of any document,
  -- turns of the tasks, and any time that passes.
  pub change_lost :
      (s : Hocuspocus y) (now doc other : ℕ) (u v : Bytes) (events : List ServerEvent)
      → s.debouncer ≡ Debounce.new now
      → s.debounce_ms ≢ 0
      → 0 < s.max_debounce_ms
      → other ≢ doc
      → (s.docs other).name ≡ (s.docs doc).name
      → All (Spares doc) events
      → let s' = run y events (on_update y other v (on_update y doc u s)) in
        IsExecuted 0 doc s'.stores s'.debouncer.executed → ⊥
  change_lost s now doc other u v events fresh waits positive distinct same spared stored =
      let both = both_changed-IsLost s now doc other u v fresh waits positive distinct same in
      let lost = run-IsLost y doc events _ spared both in
      let gone = lost.gone stored.func stored.payload stored.found stored.its in gone.ran stored.ran
