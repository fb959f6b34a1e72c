-- ===== src/Connection/Queue.antt =====
-- The queue of a connection: every frame is handled once, in the order of arrival, and the loop ends.
use hocuspocu_rs.Base.{
  ap, ℕ, zero, suc, ◌≤◌, ◌≡◌, refl, Bool, true, false, List, [], ◌∷◌, some, Bytes, length, arith,
  inl, inr, length-append, ◌⊎◌, ◌≢◌,
}
use hocuspocu_rs.Connection.{
  Connection, Peer, process_one, process_loop, process_messages, pop_front, push_back,
  handle_message,
}
use hocuspocu_rs.Yrs.{Yrs}
use hocuspocu_rs.Connection.Frozen.{process_one-frozen}

abbrev message_queue_of : Connection → List Bytes
message_queue_of conn = conn.message_queue

module _ (y : Yrs) where
  abbrev queue : Peer y → List Bytes
  queue p = p.conn.message_queue

  -- Handling a frame leaves the queue to the loop.
  pub process_one-queue : (raw : Bytes) (p : Peer y) → queue (process_one y raw p).1 ≡ queue p
  process_one-queue raw p = ap message_queue_of (process_one-frozen y raw p)

  -- The frames in order, each popped when it is done; a panic ends it.
  unfoldable pub handle_all : List Bytes → Peer y → Bool × Peer y
  handle_all [] p = (true, p)
  handle_all (raw ∷ rest) p =
      let (handled, q) = process_one y raw p in
      elim handled [ true ↦ handle_all rest (pop_front y q) | false ↦ (false, q) ]

  loop-handle_all :
      (frames : List Bytes) (fuel : ℕ) (p : Peer y)
      → queue p ≡ frames
      → length frames ≤ fuel
      → process_loop y fuel p ≡ some (handle_all frames p)
  unfolding process_loop handle_all
  loop-handle_all [] zero p e h = rw e
  loop-handle_all [] (suc fuel) p e h = rw e
  loop-handle_all (raw ∷ rest) zero p e h = absurd (omega arith)
  loop-handle_all (raw ∷ rest) (suc fuel) p e h = ground (
    arith,
    process_one-queue raw p,
    loop-handle_all rest fuel (pop_front y (process_one y raw p).1),
  )

  handle_all-queue :
      (frames : List Bytes) (p : Peer y)
      → queue p ≡ frames
      → (handle_all frames p).0 ≡ true
      → queue (handle_all frames p).1 ≡ []
  unfolding handle_all
  handle_all-queue [] p e h = e
  handle_all-queue (raw ∷ rest) p e h =
      ground (
        arith,
        process_one-queue raw p,
        handle_all-queue rest (pop_front y (process_one y raw p).1),
      )

  -- The loop never runs out of fuel: it handles the queued frames one by one in the order of their
  -- arrival, up to the first that panics.
  pub process_messages-handle_all :
      (p : Peer y) → process_messages y p ≡ some (handle_all p.conn.message_queue p)
  unfolding process_messages
  process_messages-handle_all p = loop-handle_all (queue p) _ p refl (omega arith)

  -- A frame that finds the queue empty is handled at once, and if that does not panic the queue is
  -- empty again; a frame that finds others there is only put behind them.
  pub handle_message_cases :
      (raw : Bytes) (p : Peer y)
      → ((p.conn.message_queue ≡ [])
          × (handle_message y raw p ≡ some (handle_all (raw ∷ []) (push_back y raw p))))
        ⊎ ((p.conn.message_queue ≢ []) × (handle_message y raw p ≡ some (true, push_back y raw p)))
  unfolding handle_message
  handle_message_cases raw p = by_queue (queue p) refl
    where
      by_queue :
          (frames : List Bytes)
          → queue p ≡ frames
          → ((p.conn.message_queue ≡ [])
              × (handle_message y raw p ≡ some (handle_all (raw ∷ []) (push_back y raw p))))
            ⊎ ((p.conn.message_queue ≢ [])
                × (handle_message y raw p ≡ some (true, push_back y raw p)))
      by_queue [] e = inl (e, ground (arith, process_messages-handle_all (push_back y raw p)))
      by_queue (f ∷ fs) e = inr ((λ e'. cc), ground (arith, length-append fs (raw ∷ [])))
