-- ===== src/DirectConnection.antt =====
-- hocuspocu-rs/src/direct_connection.rs: a connection of the program that holds the server.
use hocuspocu_rs.Base.{
  ℕ, ◌-◌, ◌≡◌, ◌⊎◌, ◌∙◌, inl, inr, refl, sym, ap, subst, ltb, Bool-cases, Bool, true, false, not,
  ◌&&◌, [], ◌∷◌, ◌++◌, Option, none, some, Str, text, length, arith, ◌==◌, ==_iff, if◌then◌else◌,
}
use hocuspocu_rs.Debounce.Older.{AreOlder, IsStarted}
use hocuspocu_rs.Debounce.{debounce}
use hocuspocu_rs.Hocuspocus.Storing.{store_id}
use hocuspocu_rs.Hocuspocus.Storing.Scheduling.{debounce-IsScheduled}
use hocuspocu_rs.Document
use hocuspocu_rs.Document.{Document}
use hocuspocu_rs.Hocuspocus.Storing.{
  Hocuspocus, StorePayload, id_of, or_empty, log, on_disconnect_call, store_document_hooks,
  unload_document,
}
use hocuspocu_rs.Types.{Context, local}
use hocuspocu_rs.Yrs.{Yrs}

pub record DirectConnection : Type 0 where
  pub document : Option ℕ
  pub context : Context

abbrev pub closed_error : Str
closed_error = text "direct connection closed"

-- The store with which a connection leaves.
abbrev pub last_payload : ℕ → Context → StorePayload
last_payload doc context = record {
  document = doc;
  last_context = context;
  last_transaction_origin =
      some (local (record { skip_store_hooks = false; context = some context }));
}

module _ (y : Yrs) where
  abbrev pub change : ℕ → (Document y → Document y) → Hocuspocus y → Hocuspocus y
  change doc f s = record s { docs = λ k. if doc == k then f (s.docs doc) else s.docs k }

  unfoldable pub new_async : ℕ → Option Context → Hocuspocus y → DirectConnection × Hocuspocus y
  new_async doc context s = (
    record { document = some doc; context = or_empty context },
    change doc (Document.add_direct_connection y) s,
  )

  unfoldable pub transact :
      (Document y → Document y) → DirectConnection → Hocuspocus y → Str ⊎ Hocuspocus y
  transact transaction d s = elim d.document [
    | none ↦ inl closed_error
    | some doc ↦ inr (change doc transaction s)
  ]

  -- Up to the await of the store.
  abbrev pub released : ℕ → Context → Hocuspocus y → Hocuspocus y
  released doc context s =
      store_document_hooks y doc (last_payload doc context) true
        (change doc (Document.remove_direct_connection y) s)

  remove_direct_connection-name :
      (d : Document y) → (Document.remove_direct_connection y d).name ≡ d.name
  unfolding Document.remove_direct_connection
  remove_direct_connection-name d = elim (Bool-cases (ltb 0 d.direct_connections_count)) [
    | inl some_left ↦ rw some_left refl
    | inr none_left ↦ rw none_left refl
  ]

  pub released-name :
      (doc : ℕ) (context : Context) (s : Hocuspocus y) (k : ℕ)
      → ((released doc context s).docs k).name ≡ (s.docs k).name
  unfolding store_document_hooks
  released-name doc context s k = elim (Bool-cases (doc == k)) [
    | inl same ↦ rw same (
        remove_direct_connection-name (s.docs doc)
        ∙ ap (λ j. (s.docs j).name) ((==_iff doc k).0 same))
    | inr other ↦ rw other refl
  ]

  module _ (meanwhile : Hocuspocus y → Hocuspocus y)
      (hook : Hocuspocus y → Bool × Hocuspocus y) where
    -- Behind that await.
    abbrev pub leave_document : ℕ → Hocuspocus y → Hocuspocus y
    leave_document doc s =
        if (Document.get_connections_count y (s.docs doc) == 0) && not (s.docs doc).save_mutex
        then unload_document y hook doc (log y (on_disconnect_call (s.docs doc).name) s)
        else s

    -- `meanwhile` is what the rest of the server does during the awaits.
    unfoldable pub disconnect : DirectConnection → Hocuspocus y → DirectConnection × Hocuspocus y
    disconnect d s = elim d.document [
      | none ↦ (d, s)
      | some doc ↦
          (record d { document = none }, leave_document doc (meanwhile (released doc d.context s)))
    ]

    own_doc :
        (doc : ℕ) (f : Document y → Document y) (s : Hocuspocus y)
        → (change doc f s).docs doc ≡ f (s.docs doc)
    own_doc doc f s = ground (arith, ==_iff doc doc)

    released_count :
        (d : Document y)
        → (Document.remove_direct_connection y d).direct_connections_count
          ≡ d.direct_connections_count - 1
    unfolding Document.remove_direct_connection
    released_count d = elim (Bool-cases (ltb 0 d.direct_connections_count)) [
      | inl some_left ↦ rw some_left refl
      | inr none_left ↦ rw none_left (ground arith)
    ]

    left_by :
        (doc : ℕ) (s : Hocuspocus y)
        → (Document.get_connections_count y (s.docs doc) ≡ 0) ⊎ (leave_document doc s ≡ s)
    left_by doc s = elim (Bool-cases (Document.get_connections_count y (s.docs doc) == 0)) [
      | inl idle ↦
          inl (ground (arith, ==_iff (Document.get_connections_count y (s.docs doc)) 0, idle))
      | inr busy ↦ inr (rw busy refl)
    ]

    started :
        (doc : ℕ) (context : Context) (s : Hocuspocus y)
        → AreOlder s.debouncer.next_task s.debouncer
        → IsStarted s.debouncer.next_task
            (id_of y doc s)
            (length s.stores)
            (released doc context s).debouncer
    unfolding store_document_hooks
    started doc context s older =
        let same : id_of y doc (change doc (Document.remove_direct_connection y) s)
            ≡ id_of y doc s =
          ap (λ d. store_id d.name) (own_doc doc (Document.remove_direct_connection y) s)
          ∙ ap store_id (remove_direct_connection-name (s.docs doc)) in
        subst
          (λ id.
            IsStarted s.debouncer.next_task (id_of y doc s) (length s.stores)
              (debounce id (length s.stores) 0 s.max_debounce_ms s.debouncer))
          (sym same)
          (elim (debounce-IsScheduled (id_of y doc s) (length s.stores) 0 s.max_debounce_ms
            s.debouncer older) [ inl now ↦ now.1 | inr later ↦ absurd (later.0 refl) ])

    -- A direct connection that disconnects has the document stored at once: a task is about to run a
    -- function that stores it with the connection's context. The document counts one direct
    -- connection less. It has no connection left behind the await, or it is not unloaded. Afterwards
    -- `transact` fails and a second `disconnect` does nothing. The condition on the debouncer is that
    -- its timers' tasks have been spawned.
    pub disconnect_cases :
        (doc : ℕ) (context : Context) (s : Hocuspocus y) (transaction : Document y → Document y)
        (t : Hocuspocus y)
        → AreOlder s.debouncer.next_task s.debouncer
        → let d : DirectConnection = record { document = some doc; context = context } in
          let r = released doc context s in
          let (d', s') = disconnect d s in
          IsStarted s.debouncer.next_task (id_of y doc s) (length s.stores) r.debouncer
          × (r.stores ≡ s.stores ++ (last_payload doc context ∷ []))
          × ((r.docs doc).direct_connections_count ≡ (s.docs doc).direct_connections_count - 1)
          × ((Document.get_connections_count y ((meanwhile r).docs doc) ≡ 0) ⊎ (s' ≡ meanwhile r))
          × (transact transaction d' t ≡ inl closed_error)
          × (disconnect d' t ≡ (d', t))
    unfolding disconnect transact store_document_hooks
    disconnect_cases doc context s transaction t older = (
      started doc context s older,
      refl,
      ap (λ d. d.direct_connections_count) (own_doc doc (Document.remove_direct_connection y) s)
          ∙ released_count (s.docs doc),
      left_by doc (meanwhile (released doc context s)),
      refl,
      refl,
    )
