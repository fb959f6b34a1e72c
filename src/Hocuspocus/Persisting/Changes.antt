-- ===== src/Hocuspocus/Persisting/Changes.antt =====
-- The changes of a document reach a store, whatever happens behind them.
use hocuspocu_rs.Base.{
  ℕ, ◌≤◌, ◌≡◌, ◌≢◌, ◌⊎◌, ◌∙◌, inl, inr, refl, sym, ap, subst, Bool, true, false, not, ◌&&◌, List,
  [], ◌∷◌, ◌++◌, Str, Bytes, length, get_elem?-append_left, get_elem?-append_length, length-append,
  All, if◌then◌else◌, arith, Bool-cases,
}
use hocuspocu_rs.Debounce.{Debouncer, debounce, is_debounced, move, tick}
use hocuspocu_rs.Debounce.Lasting.{
  IsKept, debounce-IsKept, debounce_other-IsKept, execute_now-IsKept,
}
use hocuspocu_rs.Debounce.Matching.{Matches, step-Matches, debounce-Matches, execute_now-Matches}
use hocuspocu_rs.DirectConnection.{released, last_payload, released-name}
use hocuspocu_rs.Hocuspocus.Opening.{on_update}
use hocuspocu_rs.Hocuspocus.Storing.{
  Hocuspocus, StorePayload, store_id, id_of, flush_one, store_document_hooks,
  handle_document_update,
}
use hocuspocu_rs.Types.{Context, should_skip_store_hooks}
use hocuspocu_rs.Yrs.{Yrs}
use hocuspocu_rs.Debounce.Lasting.Runs.{step-IsKept}
use hocuspocu_rs.Hocuspocus.Persisting.{
  ServerEvent, changed, left, flushed, turn_of, passed, IsStored, step, run, HasNames, IsApart,
}

module _ (y : Yrs) where
  store_id-injective : (a b : Str) → store_id a ≡ store_id b → a ≡ b
  store_id-injective a b e = cc

  module _ (names : ℕ → Str) (old doc : ℕ) where
    abbrev id : Str
    id = store_id (names doc)

    -- What holds from the store of the change on.
    record Invariant (s : Hocuspocus y) : Type 0 where
      named : HasNames y names s
      matches : Matches s.debouncer
      enough : old ≤ length s.stores
      stored : IsStored old doc id s.stores s.debouncer

    -- Another call of `debounce`, for this document or for one of another name.
    store-IsStored :
        (k delay max : ℕ) (payload : StorePayload) (stores : List StorePayload) (d : Debouncer)
        → payload.document ≡ k
        → old ≤ length stores
        → Matches d
        → (k ≡ doc) ⊎ (names k ≢ names doc)
        → (k ≡ doc) ⊎ IsStored old doc id stores d
        → IsStored old doc id
            (stores ++ (payload ∷ []))
            (debounce (store_id (names k)) (length stores) delay max d)
    store-IsStored k delay max payload stores d its more m (inl same) p = record {
      func = length stores;
      payload = payload;
      since = more;
      found = get_elem?-append_length stores [] payload;
      its = its ∙ same;
      kept = rw same (debounce-IsKept id (length stores) delay max d);
    }
    store-IsStored k delay max payload stores d its more m (inr other) (inl same) =
        absurd (other (ap names same))
    store-IsStored k delay max payload stores d its more m (inr other) (inr p) = record {
      func = p.func;
      payload = p.payload;
      since = p.since;
      found = get_elem?-append_left stores (payload ∷ []) p.func p.payload p.found;
      its = p.its;
      kept =
          debounce_other-IsKept (store_id (names k)) (length stores) delay max id p.func d m
            (λ same. other (store_id-injective (names k) (names doc) same)) p.kept;
    }

    store-Invariant :
        (k : ℕ) (payload : StorePayload) (immediately : Bool) (s : Hocuspocus y)
        → payload.document ≡ k
        → HasNames y names s
        → Matches s.debouncer
        → old ≤ length s.stores
        → (k ≡ doc) ⊎ (names k ≢ names doc)
        → (k ≡ doc) ⊎ IsStored old doc id s.stores s.debouncer
        → Invariant (store_document_hooks y k payload immediately s)
    unfolding store_document_hooks
    store-Invariant k payload immediately s its named m more apart p =
        let delay = if immediately then 0 else s.debounce_ms in
        let key : id_of y k s ≡ store_id (names k) = ap store_id (named k) in
        record {
          named = named;
          matches =
              debounce-Matches (id_of y k s) (length s.stores) delay s.max_debounce_ms s.debouncer
                m;
          enough = omega (arith, length-append s.stores (payload ∷ []));
          stored =
              subst
                (λ key.
                  IsStored old doc id (s.stores ++ (payload ∷ []))
                    (debounce key (length s.stores) delay s.max_debounce_ms s.debouncer))
                (sym key)
                (store-IsStored k delay s.max_debounce_ms payload s.stores s.debouncer its more m
                  apart p);
        }

    on_update-Invariant :
        (k : ℕ) (update : Bytes) (s : Hocuspocus y)
        → HasNames y names s
        → Matches s.debouncer
        → old ≤ length s.stores
        → (k ≡ doc) ⊎ (names k ≢ names doc)
        → (k ≡ doc) ⊎ IsStored old doc id s.stores s.debouncer
        → Invariant (on_update y k update s)
    unfolding on_update handle_document_update should_skip_store_hooks
    on_update-Invariant k update s named m more apart p =
        store-Invariant k _ false _ refl named m more apart p

    later_IsStored :
        (stores : List StorePayload) (d d' : Debouncer)
        → ((func : ℕ) → IsKept id func d → IsKept id func d')
        → IsStored old doc id stores d
        → IsStored old doc id stores d'
    later_IsStored stores d d' keep p = record {
      func = p.func;
      payload = p.payload;
      since = p.since;
      found = p.found;
      its = p.its;
      kept = keep p.func p.kept;
    }

    left-Invariant :
        (k : ℕ) (context : Context) (s : Hocuspocus y)
        → (k ≡ doc) ⊎ (names k ≢ names doc)
        → Invariant s
        → Invariant (released y k context s)
    unfolding store_document_hooks
    left-Invariant k context s apart v =
        store-Invariant k (last_payload k context) true _ refl
          (λ j. released-name y k context s j ∙ v.named j) v.matches v.enough apart (inr v.stored)

    flushed-Invariant : (k : ℕ) (s : Hocuspocus y) → Invariant s → Invariant (flush_one y k s)
    unfolding flush_one
    flushed-Invariant k s v =
        elim (Bool-cases (not (s.docs k).is_loading && is_debounced (id_of y k s) s.debouncer)) [
          | inr idle ↦ rw idle v
          | inl due ↦ rw due (record {
            named = v.named;
            matches = execute_now-Matches (id_of y k s) s.debouncer v.matches;
            enough = v.enough;
            stored =
                later_IsStored s.stores s.debouncer _
                  (λ func kept. execute_now-IsKept (id_of y k s) id func s.debouncer v.matches kept)
                  v.stored;
          })
        ]

    step-Invariant :
        (event : ServerEvent) (s : Hocuspocus y)
        → IsApart y names doc event
        → Invariant s
        → Invariant (step y event s)
    unfolding step
    step-Invariant (changed k update) s apart v =
        on_update-Invariant k update s v.named v.matches v.enough apart (inr v.stored)
    step-Invariant (left k context) s apart v = left-Invariant k context s apart v
    step-Invariant (flushed k) s apart v = flushed-Invariant k s v
    step-Invariant (turn_of task) s apart v = record {
      named = v.named;
      matches = step-Matches (move task) s.debouncer v.matches;
      enough = v.enough;
      stored =
          later_IsStored s.stores s.debouncer _
            (λ func kept. step-IsKept (move task) id func s.debouncer v.matches tt kept) v.stored;
    }
    step-Invariant (passed ms) s apart v = record {
      named = v.named;
      matches = step-Matches (tick ms) s.debouncer v.matches;
      enough = v.enough;
      stored =
          later_IsStored s.stores s.debouncer _
            (λ func kept. step-IsKept (tick ms) id func s.debouncer v.matches tt kept) v.stored;
    }

    run-Invariant :
        (events : List ServerEvent) (s : Hocuspocus y)
        → All (IsApart y names doc) events
        → Invariant s
        → Invariant (run y events s)
    unfolding run
    run-Invariant [] s apart v = v
    run-Invariant (event ∷ events) s apart v =
        run-Invariant events (step y event s) (apart.1) (step-Invariant event s (apart.0) v)

  -- A change of a document is not lost: whatever happens behind its observer's task, a function that
  -- stores the document and was handed to the debouncer no earlier than for this change has run, or a
  -- task is to run it. The conditions are that the debouncer's timers have their tasks, and that no
  -- other document of the same name is changed or left.
  pub change-lasts :
      (doc : ℕ) (update : Bytes) (events : List ServerEvent) (s : Hocuspocus y)
      → Matches s.debouncer
      → All (IsApart y (λ k. (s.docs k).name) doc) events
      → let s' = run y events (on_update y doc update s) in
        IsStored (length s.stores) doc (id_of y doc s) s'.stores s'.debouncer
  change-lasts doc update events s m apart =
      (run-Invariant (λ k. (s.docs k).name) (length s.stores) doc events (on_update y doc update s)
        apart
        (on_update-Invariant (λ k. (s.docs k).name) (length s.stores) doc doc update s (λ k. refl) m
          (omega arith) (inl refl) (inl refl))).stored
