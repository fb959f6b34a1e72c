-- ===== src/Debounce/Burst.antt =====
-- A burst of calls for one id: only the last function runs, and the burst cannot put it off for longer
-- than the maximal delay.
use hocuspocu_rs.Base.{
  ℕ, ◌+◌, ◌-◌, ◌<◌, ◌≤◌, ◌≡◌, ◌≢◌, ◌∙◌, refl, true, false, none, some, List, [], ◌∷◌, Str, get,
  insert, remove, get-remove, get-insert_self, bytes_eq_refl, ==_iff, arith, leb, ◌==◌,
}
use hocuspocu_rs.Debounce.{
  Debouncer, sleeping, entering, ended, debounce, execute_now, Event, call_debounce, tick, step,
  run, new,
}

-- One timer is armed, and no other task is left.
record IsPending (id : Str) (start func : ℕ) (s : Debouncer) : Type 0 where
  handle : ℕ
  wake : ℕ
  entry : get id s.timers ≡ some (record { start = start; handle = handle; func = func })
  asleep : s.tasks handle ≡ sleeping id wake func
  others : (j : ℕ) → j ≢ handle → s.tasks j ≡ ended
  spawned : handle < s.next_task

-- No timer is armed, and one task is about to run the function.
pub record RunsAlone (id : Str) (func : ℕ) (s : Debouncer) : Type 0 where
  pub runner : ℕ
  pub disarmed : get id s.timers ≡ none
  pub runs : s.tasks runner ≡ entering true id func
  pub alone : (j : ℕ) → j ≢ runner → s.tasks j ≡ ended

-- The calls of a burst behind its first: how long each comes after the one before it, and its function.
abbrev pub calls_of : Str → ℕ → ℕ → List (ℕ × ℕ) → List Event
calls_of id debounce_ms max_debounce_ms [] = []
calls_of id debounce_ms max_debounce_ms ((delay, func) ∷ calls) =
    tick delay
    ∷ (call_debounce id func debounce_ms max_debounce_ms
        ∷ calls_of id debounce_ms max_debounce_ms calls)

abbrev pub last_func : ℕ → List (ℕ × ℕ) → ℕ
last_func func [] = func
last_func func ((_, next) ∷ calls) = last_func next calls

abbrev pub duration : List (ℕ × ℕ) → ℕ
duration [] = 0
duration ((delay, _) ∷ calls) = delay + duration calls

module _ (id : Str) (debounce_ms max_debounce_ms : ℕ) (delayed : debounce_ms ≢ 0) where
  armed_again :
      (start f g : ℕ) (s : Debouncer)
      → s.now - start < max_debounce_ms
      → IsPending id start f s
      → IsPending id start g (debounce id g debounce_ms max_debounce_ms s)
  unfolding debounce
  armed_again start f g s early p = rw (p.entry) (
      let z : (debounce_ms == 0) ≡ false = ground (arith, ==_iff debounce_ms 0) in
      let l : leb max_debounce_ms (s.now - start) ≡ false = ground arith in
      rw (z, l)
        (record {
          handle = s.next_task;
          wake = s.now + debounce_ms;
          entry = get-insert_self id _ (remove id s.timers);
          asleep = ground (arith, ==_iff s.next_task s.next_task);
          others = λ j other. ground (arith, ==_iff s.next_task j, ==_iff p.handle j, p.others j);
          spawned = omega arith;
        }))

  too_late :
      (start f g : ℕ) (s : Debouncer)
      → max_debounce_ms ≤ s.now - start
      → IsPending id start f s
      → RunsAlone id g (debounce id g debounce_ms max_debounce_ms s)
  unfolding debounce
  too_late start f g s late p = rw (p.entry) (
      let z : (debounce_ms == 0) ≡ false = ground (arith, ==_iff debounce_ms 0) in
      let l : leb max_debounce_ms (s.now - start) ≡ true = ground arith in
      rw (z, l)
        (record {
          runner = s.next_task;
          disarmed = get-remove id id s.timers ∙ rw bytes_eq_refl;
          runs = ground (arith, ==_iff s.next_task s.next_task);
          alone = λ j other. ground (arith, ==_iff s.next_task j, ==_iff p.handle j, p.others j);
        }))

  at_once :
      (start f : ℕ) (s : Debouncer) → IsPending id start f s → RunsAlone id f (execute_now id s)
  unfolding execute_now
  at_once start f s p = rw (p.entry) (record {
    runner = s.next_task;
    disarmed = get-remove id id s.timers ∙ rw bytes_eq_refl;
    runs = ground (arith, ==_iff s.next_task s.next_task);
    alone = λ j other. ground (arith, ==_iff s.next_task j, ==_iff p.handle j, p.others j);
  })

  armed_first :
      (now f : ℕ)
      → 0 < max_debounce_ms
      → IsPending id now f (debounce id f debounce_ms max_debounce_ms (new now))
  unfolding debounce new get insert remove
  armed_first now f positive =
      let z : (debounce_ms == 0) ≡ false = ground (arith, ==_iff debounce_ms 0) in
      let l : leb max_debounce_ms (now - now) ≡ false = ground arith in
      rw (z, l)
        (record {
          handle = 0;
          wake = now + debounce_ms;
          entry = rw bytes_eq_refl;
          asleep = refl;
          others = λ j other. ground (arith, ==_iff 0 j);
          spawned = omega arith;
        })

  later :
      (n start f : ℕ) (s : Debouncer)
      → IsPending id start f s
      → IsPending id start f (step (tick n) s)
  unfolding step
  later n start f s p = record {
    handle = p.handle;
    wake = p.wake;
    entry = p.entry;
    asleep = p.asleep;
    others = p.others;
    spawned = p.spawned;
  }

  debounce-now : (f : ℕ) (s : Debouncer) → (debounce id f debounce_ms max_debounce_ms s).now ≡ s.now
  unfolding debounce
  debounce-now f s = ground arith

  burst-IsPending :
      (start elapsed f : ℕ) (calls : List (ℕ × ℕ)) (s : Debouncer)
      → s.now ≡ start + elapsed
      → elapsed + duration calls < max_debounce_ms
      → IsPending id start f s
      → let s' = run (calls_of id debounce_ms max_debounce_ms calls) s in
        IsPending id start (last_func f calls) s' × (s'.now ≡ start + elapsed + duration calls)
  unfolding run step
  burst-IsPending start elapsed f [] s t short p = (p, omega arith)
  burst-IsPending start elapsed f ((delay, g) ∷ calls) s t short p =
      let waited = step (tick delay) s in
      let called = debounce id g debounce_ms max_debounce_ms waited in
      let (q, t') =
        burst-IsPending start (elapsed + delay) g calls called
          (omega (arith, debounce-now g waited)) (omega arith)
          (armed_again start f g waited (omega arith) (later delay start f s p)) in
      (q, omega arith)

  module _ (start f : ℕ) (calls : List (ℕ × ℕ)) (short : duration calls < max_debounce_ms) where
    abbrev burst : Debouncer
    burst =
        run
          (call_debounce id f debounce_ms max_debounce_ms
            ∷ calls_of id debounce_ms max_debounce_ms calls)
          (new start)

    pending : IsPending id start (last_func f calls) burst × (burst.now ≡ start + duration calls)
    unfolding run step new
    pending =
        let first = debounce id f debounce_ms max_debounce_ms (new start) in
        let t : first.now ≡ start + 0 = debounce-now f (new start) ∙ omega arith in
        let (p, now) =
          burst-IsPending start 0 f calls first t (omega arith)
            (armed_first start f (omega arith)) in
        (p, omega arith)

    -- After a burst of calls within the maximal delay, in which no timer wakes, `execute_now` leaves
    -- one task, which is about to run the function of the last call; no timer is armed.
    pub execute_now-burst : RunsAlone id (last_func f calls) (execute_now id burst)
    execute_now-burst = at_once start (last_func f calls) burst pending.0

    -- The burst cannot put the function off for ever: the first call that comes when the maximal
    -- delay since the first of the burst has passed runs at once, alone, and no timer is armed.
    pub debounce-burst_late :
        (delay g : ℕ)
        → max_debounce_ms ≤ duration calls + delay
        → RunsAlone id g (debounce id g debounce_ms max_debounce_ms (step (tick delay) burst))
    unfolding step
    debounce-burst_late delay g late =
        too_late start (last_func f calls) g (step (tick delay) burst) (omega (arith, pending.1))
          (later delay start (last_func f calls) burst pending.0)
