-- ===== src/Hocuspocus/Storing/Disconnecting.antt =====
-- hocuspocus.rs: the task that `handle_connection` has run when a connection to a document closes.
use hocuspocu_rs.Base.{
  ℕ, ◌≡◌, ◌⊎◌, inl, inr, refl, Bool, true, false, not, ◌&&◌, some, get, contains_key,
  contains_key_of_some, Bool-cases, if◌then◌else◌, ltb,
}
use hocuspocu_rs.Debounce.{TimerEntry, execute_now, is_debounced}
use hocuspocu_rs.Debounce.Older.{AreOlder, IsStarted, execute_now-starts}
use hocuspocu_rs.Document
use hocuspocu_rs.Hocuspocus.Storing.{Hocuspocus, id_of, unload_document}
use hocuspocu_rs.Yrs.{Yrs}

module _ (y : Yrs) where
  -- The flag is `unload_immediately` of the configuration.
  unfoldable pub after_close :
      Bool → (Hocuspocus y → Bool × Hocuspocus y) → ℕ → Hocuspocus y → Hocuspocus y
  after_close unload_immediately hook doc s =
      if ltb 0 (Document.get_connections_count y (s.docs doc))
      then s
      else if not (s.docs doc).is_loading && is_debounced (id_of y doc s) s.debouncer
      then (if unload_immediately
          then record s { debouncer = execute_now (id_of y doc s) s.debouncer }
          else s)
      else unload_document y hook doc s

  -- When a connection to a loaded document with a pending store closes, the store is not lost: the
  -- documents stay as they are, and the timer of the store too, or a new task is about to run the
  -- function that it held. The condition on the debouncer is that its timers' tasks have been
  -- spawned.
  pub after_close-stores :
      (unload_immediately : Bool) (hook : Hocuspocus y → Bool × Hocuspocus y) (doc : ℕ)
      (entry : TimerEntry) (s : Hocuspocus y)
      → AreOlder s.debouncer.next_task s.debouncer
      → (s.docs doc).is_loading ≡ false
      → get (id_of y doc s) s.debouncer.timers ≡ some entry
      → let s' = after_close unload_immediately hook doc s in
        (s'.documents ≡ s.documents)
        × (s'.docs ≡ s.docs)
        × ((get (id_of y doc s) s'.debouncer.timers ≡ some entry)
            ⊎ IsStarted s.debouncer.next_task (id_of y doc s) entry.func s'.debouncer)
  unfolding after_close is_debounced
  after_close-stores unload_immediately hook doc entry s older ready armed =
      let due : contains_key (id_of y doc s) s.debouncer.timers ≡ true =
        contains_key_of_some (id_of y doc s) s.debouncer.timers armed in
      elim (Bool-cases (ltb 0 (Document.get_connections_count y (s.docs doc)))) [
        | inl busy ↦ rw busy (refl, refl, inl armed)
        | inr idle ↦ elim (Bool-cases unload_immediately) [
          | inl now ↦
              rw (idle, ready, due, now)
                (
                  refl,
                  refl,
                  inr (
                      execute_now-starts s.debouncer.next_task (id_of y doc s) s.debouncer older
                        (id_of y doc s) entry refl armed),
                )
          | inr later ↦ rw (idle, ready, due, later) (refl, refl, inl armed)
        ]
      ]
