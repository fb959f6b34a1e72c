-- ===== src/Debounce/Races.antt =====
-- What the interleaving of three calls for one id can end in.
use hocuspocu_rs.Base.{
  ◌≢◌, false, ◌<◌, ◌+◌, ==_iff, contains_key, ℕ, zero, suc, ◌≡◌, List, [], ◌∷◌, ◌++◌, Str, get,
  insert, remove, bytes_eq_refl, arith,
}
use hocuspocu_rs.Debounce.{
  sleeping, is_debounced, executing, debounce, execute_now, call_execute_now, tick, Event,
  call_debounce, move, step, run, new,
}

abbrev pub turns : ℕ → ℕ → List Event
turns zero k = []
turns (suc n) k = move k ∷ turns n k

-- Executions of one id may overlap: the first to end takes the id out of `running_executions` while
-- the second waits for its lock, so a third gets a lock of its own and runs beside the second.
pub executions_overlap :
    (id : Str) (f g k now max : ℕ)
    → let s =
        run
          ((call_debounce id f 0 max ∷ turns 3 0)
            ++ (call_debounce id g 0 max ∷ turns 1 1)
            ++ turns 2 0
            ++ turns 2 1
            ++ (call_debounce id k 0 max ∷ turns 3 2))
          (new now) in
      (s.tasks 1 ≡ executing id 0 g) × (s.tasks 2 ≡ executing id 1 k)
unfolding run step debounce new get insert remove
executions_overlap id f g k now max = ground (arith, bytes_eq_refl id)

-- While the second of two immediate calls waits for the first, a third arms a timer; then the second
-- takes out that timer's entry and leaves its task asleep.
abbrev pub forgetting : Str → ℕ → ℕ → ℕ → ℕ → ℕ → List Event
forgetting id f g k delay max =
    (call_debounce id f 0 max ∷ turns 3 0)
    ++ (call_debounce id g 0 max ∷ turns 1 1)
    ++ (call_debounce id k delay max ∷ turns 2 0)
    ++ turns 2 1

-- A timer may be forgotten and still fire. The id of two immediate calls and of a third that is put off
-- has no timer any more when the second call runs, while the task of the third sleeps; and though the
-- id is then executed at once and debounced once more, neither aborts that task: when its time has
-- come it runs the third function, behind the first and the second.
pub timer_forgotten :
    (id : Str) (f g k m now delay max : ℕ)
    → delay ≢ 0
    → 0 < max
    → let s = run (forgetting id f g k delay max) (new now) in
      let s' =
        run
          ((call_execute_now id ∷ call_debounce id m delay max ∷ turns 2 1)
            ++ (tick delay ∷ turns 4 2))
          s in
      (is_debounced id s ≡ false)
      × (s.tasks 2 ≡ sleeping id (now + delay) k)
      × (s'.executed ≡ f ∷ g ∷ k ∷ [])
unfolding run step debounce execute_now new get insert remove is_debounced contains_key
timer_forgotten id f g k m now delay max delayed positive =
    ground (arith, bytes_eq_refl id, ==_iff delay 0)
