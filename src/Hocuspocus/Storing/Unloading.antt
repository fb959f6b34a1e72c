-- ===== src/Hocuspocus/Storing/Unloading.antt =====
-- When a document is unloaded, and when not.
use hocuspocu_rs.Base.{
  ℕ, ◌≡◌, ◌≢◌, ◌⊎◌, refl, sym, ◌∙◌, Bool, true, false, none, Str, get, remove, contains_key,
  false≢true, get-remove, bytes_eq_refl, ==_iff, arith, Bool-cases, inl, inr,
}
use hocuspocu_rs.Document.{destroy, get_connections_count}
use hocuspocu_rs.Hocuspocus.Storing.{
  Hocuspocus, should_unload_document, unload_document, begin_unloading, behind_hook,
}
use hocuspocu_rs.Yrs.{Yrs}

module _ (y : Yrs) where
  -- The document is out of the server.
  pub record IsGone (doc : ℕ) (name : Str) (s : Hocuspocus y) : Type 0 where
    pub unknown : get name s.documents ≡ none
    pub destroyed : (s.docs doc).is_destroyed ≡ true

  -- The document stands as it did.
  pub record IsKept (doc : ℕ) (before after : Hocuspocus y) : Type 0 where
    pub documents : after.documents ≡ before.documents
    pub docs : after.docs ≡ before.docs

  module _ (hook : Hocuspocus y → Bool × Hocuspocus y) (doc : ℕ) (s : Hocuspocus y) where
    abbrev pub name_of : Str
    name_of = (s.docs doc).name

    -- The state behind the hook.
    abbrev pub answered : Bool × Hocuspocus y
    answered = hook (begin_unloading y name_of s)

    unload_idle :
        should_unload_document y doc s ≡ true
        → contains_key name_of s.documents ≡ true
        → contains_key name_of s.unloading_documents ≡ false
        → unload_document y hook doc s ≡ behind_hook y doc name_of answered
    unfolding unload_document
    unload_idle idle known free = rw (idle, known, free)

    -- A call of `unload_document` that finds the document idle, known and not being unloaded asks the
    -- hook. If the hook accepts and the document is idle still, it is out of the server and destroyed;
    -- otherwise the documents are as the hook left them. In both cases the mark that it is being
    -- unloaded is gone.
    pub unload_document_cases :
        should_unload_document y doc s ≡ true
        → contains_key name_of s.documents ≡ true
        → contains_key name_of s.unloading_documents ≡ false
        → let s' = unload_document y hook doc s in
          (get name_of s'.unloading_documents ≡ none)
          × (((answered.0 ≡ true)
                × (should_unload_document y doc answered.1 ≡ true)
                × IsGone doc name_of s')
              ⊎ (((answered.0 ≡ false) ⊎ (should_unload_document y doc answered.1 ≡ false))
                  × IsKept doc answered.1 s'))
    unfolding destroy
    unload_document_cases idle known free = rw (unload_idle idle known free) (by_answer answered)
      where
        unmarked : (b : Hocuspocus y) → get name_of (remove name_of b.unloading_documents) ≡ none
        unmarked b = get-remove name_of name_of b.unloading_documents ∙ rw bytes_eq_refl

        by_answer :
            (r : Bool × Hocuspocus y)
            → (get name_of (behind_hook y doc name_of r).unloading_documents ≡ none)
              × (((r.0 ≡ true)
                    × (should_unload_document y doc r.1 ≡ true)
                    × IsGone doc name_of (behind_hook y doc name_of r))
                  ⊎ (((r.0 ≡ false) ⊎ (should_unload_document y doc r.1 ≡ false))
                      × IsKept doc r.1 (behind_hook y doc name_of r)))
        by_answer (false, b) =
            (unmarked b, inr (inl refl, record { documents = refl; docs = refl }))
        by_answer (true, b) = elim (Bool-cases (should_unload_document y doc b)) [
          | inl still ↦ rw still (
            unmarked b,
            inl (
              refl,
              refl,
              record {
                unknown = get-remove name_of name_of b.documents ∙ rw bytes_eq_refl;
                destroyed = ground (arith, ==_iff doc doc);
              },
            ),
          )
          | inr joined ↦
              rw joined (unmarked b, inr (inr refl, record { documents = refl; docs = refl }))
        ]

  occupied :
      (doc : ℕ) (s : Hocuspocus y)
      → get_connections_count y (s.docs doc) ≢ 0
      → should_unload_document y doc s ≡ false
  unfolding should_unload_document
  occupied doc s busy = ground (arith, ==_iff (get_connections_count y (s.docs doc)) 0)

  module _ (hook : Hocuspocus y → Bool × Hocuspocus y) (doc : ℕ) (s : Hocuspocus y) where
    abbrev result : Hocuspocus y
    result = unload_document y hook doc s

    occupied_behind :
        get_connections_count y ((answered hook doc s).1.docs doc) ≢ 0
        → should_unload_document y doc s ≡ true
        → contains_key (name_of hook doc s) s.documents ≡ true
        → contains_key (name_of hook doc s) s.unloading_documents ≡ false
        → IsKept doc (answered hook doc s).1 result
    occupied_behind busy idle known free =
        elim (unload_document_cases hook doc s idle known free).1 [
          | inl gone ↦
              absurd (false≢true (sym (occupied doc (answered hook doc s).1 busy) ∙ gone.1))
          | inr kept ↦ kept.1
        ]

    stopped :
        (idle known marked : Bool)
        → should_unload_document y doc s ≡ idle
        → contains_key (name_of hook doc s) s.documents ≡ known
        → contains_key (name_of hook doc s) s.unloading_documents ≡ marked
        → get_connections_count y ((answered hook doc s).1.docs doc) ≢ 0
        → (result ≡ s) ⊎ IsKept doc (answered hook doc s).1 result
    unfolding unload_document
    stopped false known marked e f g busy = inl (rw e)
    stopped true false marked e f g busy = inl (rw (e, f))
    stopped true true true e f g busy = inl (rw (e, f, g))
    stopped true true false e f g busy = inr (occupied_behind busy e f g)

    -- A document that has a connection when the call begins, or behind the hook, is not unloaded by
    -- this call: nothing changes, or the documents are as the hook left them.
    pub unload_document-occupied :
        (get_connections_count y (s.docs doc) ≢ 0)
          ⊎ (get_connections_count y ((answered hook doc s).1.docs doc) ≢ 0)
        → (result ≡ s) ⊎ IsKept doc (answered hook doc s).1 result
    unfolding unload_document
    unload_document-occupied (inl busy) = inl (rw (occupied doc s busy))
    unload_document-occupied (inr busy) = stopped _ _ _ refl refl refl busy
