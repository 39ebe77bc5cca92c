-- ===== src/Pool/Tests.antt =====
-- Runs of a pool, and the theorem about it.
use summer.Prelude.{ℕ, ◌+◌, ◌%◌, ◌<◌, ◌≡◌, refl, arith, inl, true, [], ◌∷◌, ok, Returns, get_elem?}
use summer.Pool.{Pool, init, set_thread_num, start_threads, start, get_next_loop}
use summer.Pool.Turns.{IsReady, take_turns, take_turns-round_robin}

abbrev three : Pool
three = record {
  base_loop = 9;
  started = true;
  num_threads = 3;
  next = 2;
  loops = 10 ∷ 11 ∷ 12 ∷ [];
}

three_started : start (λ i. 10 + i) (set_thread_num (init 9) 3) ≡ ok (record three { next = 0 })
unfolding start set_thread_num init start_threads
three_started = refl

turns_run : take_turns 4 three ≡ ok (12 ∷ 10 ∷ 11 ∷ 12 ∷ [], record three { next = 0 })
unfolding take_turns get_next_loop
turns_run = refl

take_turns-round_robin_example :
    Returns
      (λ r.
        IsReady r.1
        × (r.1.loops ≡ three.loops)
        × ((i : ℕ) → i < 4 → get_elem? r.0 i ≡ get_elem? three.loops ((2 + i) % 3)))
      (take_turns 4 three)
take_turns-round_robin_example =
    take_turns-round_robin 4 three
      (record { running = refl; count = refl; place = inl (omega arith) }) (omega arith)
