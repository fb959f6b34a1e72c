-- ===== src/Hocuspocus/Storing/Scheduling.antt =====
-- What a call of `debounce` leaves for its function, and so what is stored of a change.
use hocuspocu_rs.Base.{
  ℕ, ◌+◌, ◌≢◌, ◌≤◌, ◌<◌, ◌↔◌, Option-cases, ◌-◌, ◌≡◌, ◌⊎◌, inl, inr, refl, ◌∙◌, true, [], ◌∷◌, ◌++◌,
  Option, none, some, Str, Bytes, get, get-remove, get-insert_self, bytes_eq_refl, length, leb,
  ◌==◌, arith, Bool-cases, ==_iff,
}
use hocuspocu_rs.Debounce.{
  Debouncer, TimerEntry, debounce, sleeping, entering, start_of, take_timer, spawn, arm,
}
use hocuspocu_rs.Debounce.Older.{AreOlder, IsStarted, take_timer-AreOlder}
use hocuspocu_rs.Hocuspocus.Storing.{
  Hocuspocus, on_change_call, id_of, context_of, handle_document_update, store_document_hooks,
}
use hocuspocu_rs.Types.{
  Context, LocalTransactionOrigin, TransactionOrigin, connection, redis, local, empty_context,
  should_skip_store_hooks,
}
use hocuspocu_rs.Yrs.{Yrs}

-- The id has a timer for the function, counted from `start`, whose task sleeps until `wake`.
pub record IsArmed (id : Str) (func start wake : ℕ) (s : Debouncer) : Type 0 where
  pub entry : TimerEntry
  pub found : get id s.timers ≡ some entry
  pub starts : entry.start ≡ start
  pub holds : entry.func ≡ func
  pub asleep : s.tasks entry.handle ≡ sleeping id wake func

-- The calls for the id are counted from here: from the first call that the timer of the id goes back
-- to, or from now if the id has none.
abbrev pub StartsAt : Str → Debouncer → ℕ → Type 0
StartsAt id s start =
    ((old : TimerEntry) × (get id s.timers ≡ some old) × (start ≡ old.start))
    ⊎ ((get id s.timers ≡ none) × (start ≡ s.now))

-- The function is started if it is not to be put off or the calls have been put off for `max`; else a
-- timer that goes off in `delay` has it.
abbrev pub IsScheduled : Str → ℕ → ℕ → ℕ → ℕ → Debouncer → Debouncer → Type 0
IsScheduled id func delay max start s s' =
    (((delay ≡ 0) ⊎ (max ≤ s.now - start)) × IsStarted s.next_task id func s')
    ⊎ ((delay ≢ 0) × (s.now - start < max) × IsArmed id func start (s.now + delay) s')

module _ (id : Str) (func : ℕ) where
  started :
      (s t : Debouncer)
      → AreOlder s.next_task s
      → t.next_task ≡ s.next_task
      → get id t.timers ≡ none
      → IsStarted s.next_task id func (spawn (entering true id func) t)
  started s t older same gone = record {
    runner = s.next_task;
    since = omega arith;
    known = omega arith;
    runs = ground (arith, ==_iff t.next_task s.next_task);
    disarmed = gone;
  }

  gone : (s : Debouncer) → get id (take_timer id s).timers ≡ none
  gone s = elim (Option-cases (get id s.timers)) [
    | inl e ↦ rw e (get-remove id id s.timers ∙ rw bytes_eq_refl)
    | inr (old, e) ↦ rw e (get-remove id id s.timers ∙ rw bytes_eq_refl)
  ]

  armed :
      (start delay now : ℕ) (t : Debouncer)
      → t.now ≡ now
      → IsArmed id func start (now + delay) (arm id func start delay t)
  armed start delay now t same = record {
    entry = record { start = start; handle = t.next_task; func = func };
    found = get-insert_self id _ t.timers;
    starts = refl;
    holds = refl;
    asleep = ground (arith, same, ==_iff t.next_task t.next_task);
  }

  take_timer-now : (s : Debouncer) → (take_timer id s).now ≡ s.now
  take_timer-now s = elim (Option-cases (get id s.timers)) [
    | inl e ↦ rw e refl
    | inr (old, e) ↦ rw e refl
  ]

  start_of-StartsAt : (s : Debouncer) → StartsAt id s (start_of s.now (get id s.timers))
  start_of-StartsAt s = elim (Option-cases (get id s.timers)) [
    | inl e ↦ inr (e, rw e refl)
    | inr (old, e) ↦ inl (old, e, rw e refl)
  ]

  pub debounce-IsScheduled :
      (delay max : ℕ) (s : Debouncer)
      → AreOlder s.next_task s
      → let start = start_of s.now (get id s.timers) in
        IsScheduled id func delay max start s (debounce id func delay max s)
  unfolding debounce
  debounce-IsScheduled delay max s older =
      let start = start_of s.now (get id s.timers) in
      let (below, same) = take_timer-AreOlder id s.next_task s older in
      elim (Bool-cases (delay == 0)) [
        | inl z ↦ rw z (
            inl (
              inl (ground (arith, ==_iff delay 0)),
              started s (take_timer id s) older same (gone s),
            ))
        | inr z ↦ elim (Bool-cases (leb max (s.now - start))) [
          | inl l ↦
              rw (z, l)
                (inl (inr (ground (arith, l)), started s (take_timer id s) older same (gone s)))
          | inr l ↦
              rw (z, l)
                (inr (
                  ground (arith, ==_iff delay 0),
                  ground (arith, l),
                  armed start delay s.now (take_timer id s) (take_timer-now s),
                ))
        ]
      ]

-- A change of this origin is not stored: it comes from redis, or from a local transaction that says
-- so.
abbrev pub Skips : Option TransactionOrigin → Type 0
Skips origin =
    (origin ≡ some redis)
    ⊎ ((o : LocalTransactionOrigin) × (origin ≡ some (local o)) × (o.skip_store_hooks ≡ true))

-- The context that a change brings: that of a local transaction that has one, else the empty one.
abbrev pub BringsContext : Option TransactionOrigin → Context → Type 0
BringsContext origin context =
    ((o : LocalTransactionOrigin) × (origin ≡ some (local o)) × (o.context ≡ some context))
    ⊎ (((o : LocalTransactionOrigin) (c : Context)
          → origin ≡ some (local o)
          → o.context ≡ some c
          → ⊥)
        × (context ≡ empty_context))

should_skip_store_hooks-Skips :
    (origin : Option TransactionOrigin) → (should_skip_store_hooks origin ≡ true) ↔ Skips origin
unfolding should_skip_store_hooks
should_skip_store_hooks-Skips none = ((λ e. cc), (λ s. elim s [ inl e ↦ cc | inr (o, e, f) ↦ cc ]))
should_skip_store_hooks-Skips (some (connection id)) =
    ((λ e. cc), (λ s. elim s [ inl e ↦ cc | inr (o, e, f) ↦ cc ]))
should_skip_store_hooks-Skips (some redis) = ((λ e. inl refl), (λ s. refl))
should_skip_store_hooks-Skips (some (local o)) =
    ((λ e. inr (o, refl, e)), (λ s. elim s [ inl e ↦ cc | inr (o', e, f) ↦ cc ]))

context_of-BringsContext :
    (origin : Option TransactionOrigin) → BringsContext origin (context_of origin)
context_of-BringsContext none = inr ((λ o c e f. cc), refl)
context_of-BringsContext (some (connection id)) = inr ((λ o c e f. cc), refl)
context_of-BringsContext (some redis) = inr ((λ o c e f. cc), refl)
context_of-BringsContext (some (local o)) = elim (Option-cases o.context) [
  | inl e ↦ inr ((λ o' c same f. cc), rw e refl)
  | inr (context, e) ↦ inl (o, refl, rw e refl)
]

module _ (y : Yrs) (doc : ℕ) (s : Hocuspocus y)
    (older : AreOlder s.debouncer.next_task s.debouncer) where
  -- Every change of a document is reported once to the change hooks. If its origin is redis, or a local
  -- transaction that skips the stores, that is all. Else a function is handed over that stores the
  -- document, with the origin of the change and the context it brings: that of a local transaction that
  -- has one, else the empty one. The function is put off: if the server puts stores off at all, and the
  -- changes since the first that is not stored have been put off for less than the largest delay, the
  -- timer of the document has it, which goes off a delay from now and still counts from that first
  -- change; else, and only then, a task is about to run it. The condition on the debouncer is that its
  -- timers' tasks have been spawned.
  pub handle_document_update_cases :
      (origin : Option TransactionOrigin) (update : Bytes)
      → let s' = handle_document_update y doc origin update s in
        (s'.calls ≡ s.calls ++ (on_change_call (s.docs doc).name update ∷ []))
        × ((Skips origin × (s'.debouncer ≡ s.debouncer) × (s'.stores ≡ s.stores))
            ⊎ ((Skips origin → ⊥)
                × (context : Context) × (start : ℕ) × BringsContext origin context
                × StartsAt (id_of y doc s) s.debouncer start
                × (s'.stores
                    ≡ s.stores
                      ++ (record {
                        document = doc;
                        last_context = context;
                        last_transaction_origin = origin;
                      }
                          ∷ []))
                × IsScheduled
                    (id_of y doc s)
                    (length s.stores)
                    s.debounce_ms
                    s.max_debounce_ms
                    start
                    s.debouncer
                    s'.debouncer))
  unfolding handle_document_update store_document_hooks
  handle_document_update_cases origin update = elim (Bool-cases (should_skip_store_hooks origin)) [
    | inl skips ↦ rw skips (refl, inl ((should_skip_store_hooks-Skips origin).0 skips, refl, refl))
    | inr stores ↦ rw stores (
      refl,
      inr (
        (λ skips. cc ((should_skip_store_hooks-Skips origin).1 skips)),
        context_of origin,
        start_of s.debouncer.now (get (id_of y doc s) s.debouncer.timers),
        context_of-BringsContext origin,
        start_of-StartsAt (id_of y doc s) (length s.stores) s.debouncer,
        refl,
        debounce-IsScheduled (id_of y doc s) (length s.stores) s.debounce_ms s.max_debounce_ms
            s.debouncer older,
      ),
    )
  ]
