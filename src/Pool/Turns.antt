-- ===== src/Pool/Turns.antt =====
-- `getNextLoop` hands the loops out in turn.
use native.Mathlib.Decide.{dec_lt}
use native.Mathlib.Nat.{mod-eq_of_lt, mod-lt, mod_self, mod-add-mod}
use summer.Prelude.{
  ℕ, zero, suc, ◌+◌, ◌%◌, ◌<◌, ◌≡◌, ◌⊎◌, inl, inr, refl, sym, ap, ◌∙◌, arith, true, false, List, [],
  ◌∷◌, some, Outcome, ok, ◌>>=◌, Returns, length, get_elem?, get_or, leb, if◌then◌else◌,
}
use summer.Pool.{is_empty, Pool, init, set_thread_num, start_threads, start, get_next_loop}

-- A pool after `start`: `next` is a place among its loops, or there are none.
pub record IsReady (p : Pool) : Type 0 where
  pub running : p.started ≡ true
  pub count : length p.loops ≡ p.num_threads
  pub place : (p.next < p.num_threads) ⊎ ((p.next ≡ 0) × (p.num_threads ≡ 0))

length-start_threads : (new_loop : ℕ → ℕ) (n i : ℕ) → length (start_threads new_loop n i) ≡ n
unfolding start_threads
length-start_threads new_loop zero i = refl
length-start_threads new_loop (suc n) i = ap suc (length-start_threads new_loop n (i + 1))

-- Starting a new pool of n threads succeeds, and the pool is ready with n loops.
pub start-IsReady :
    (new_loop : ℕ → ℕ) (base n : ℕ)
    → Returns (λ p. IsReady p × (p.num_threads ≡ n)) (start new_loop (set_thread_num (init base) n))
unfolding start set_thread_num init
start-IsReady new_loop base n = (
  record {
    base_loop = base;
    started = true;
    num_threads = n;
    next = 0;
    loops = start_threads new_loop n 0;
  },
  refl,
  (
    record {
      running = refl;
      count = length-start_threads new_loop n 0;
      place = elim (dec_lt 0 n) [
        | yes some_loops ↦ inl some_loops
        | no none_there ↦ inr (refl, omega arith)
      ];
    },
    refl,
  ),
)

get_elem?-some : (xs : List ℕ) (i d : ℕ) → i < length xs → get_elem? xs i ≡ some (get_or xs i d)
get_elem?-some [] i d h = absurd (omega arith)
get_elem?-some (x ∷ xs) zero d h = refl
get_elem?-some (x ∷ xs) (suc i) d h = get_elem?-some xs i d (omega arith)

is_empty-length : (xs : List ℕ) → 0 < length xs → is_empty xs ≡ false
is_empty-length [] h = absurd (omega arith)
is_empty-length (x ∷ xs) h = refl

round : (m n : ℕ) → m < n → (if leb n (m + 1) then 0 else m + 1) ≡ (m + 1) % n
round m n h = elim (dec_lt (m + 1) n) [
  | yes p ↦ ground (arith, mod-eq_of_lt p)
  | no p ↦ ground (arith, ap (λ k. k % n) {x = m + 1} {y = n} (omega arith), mod_self n)
]

-- A ready pool with loops answers the loop at `next` and moves on, round the end.
pub get_next_loop-turn :
    (p : Pool)
    → IsReady p
    → 0 < p.num_threads
    → get_next_loop p
      ≡ ok (get_or p.loops p.next p.base_loop, record p { next = (p.next + 1) % p.num_threads })
unfolding get_next_loop
get_next_loop-turn p v h = ground (
  arith,
  is_empty-length p.loops (omega (arith, v.count)),
  get_elem?-some p.loops p.next p.base_loop (omega (arith, v.count, v.place)),
  round p.next p.num_threads (omega (arith, v.place)),
)

pub turn-IsReady :
    (p : Pool)
    → IsReady p
    → 0 < p.num_threads
    → IsReady (record p { next = (p.next + 1) % p.num_threads })
turn-IsReady p v h = record {
  running = v.running;
  count = v.count;
  place = inl (mod-lt (p.next + 1) h);
}

-- One turn before others.
turns_cons :
    (rest loops : List ℕ) (d next n k : ℕ)
    → next < n
    → length loops ≡ n
    → ((i : ℕ) → i < k → get_elem? rest i ≡ get_elem? loops (((next + 1) % n + i) % n))
    → (i : ℕ) → i < suc k
    → get_elem? (get_or loops next d ∷ rest) i ≡ get_elem? loops ((next + i) % n)
turns_cons rest loops d next n k h e f zero lt = sym (
    ap (get_elem? loops) (ap (λ m. m % n) {x = next + 0} {y = next} (omega arith) ∙ mod-eq_of_lt h)
    ∙ get_elem?-some loops next d (omega arith))
turns_cons rest loops d next n k h e f (suc i) lt =
    f i (omega arith)
    ∙ ap (get_elem? loops) (
        mod-add-mod (next + 1) n i
        ∙ ap (λ m. m % n) {x = next + 1 + i} {y = next + suc i} (omega arith))

-- The loops of `n` calls.
unfoldable pub take_turns : ℕ → Pool → Outcome (List ℕ × Pool)
take_turns zero p = ok ([], p)
take_turns (suc n) p = do r ← get_next_loop p; s ← take_turns n r.1; ok (r.0 ∷ s.0, s.1)

-- Call number `i` of any run of calls on a ready pool with loops answers the loop that stands `i`
-- places behind `next`, counted round the end: the calls go round all loops in order. The calls keep
-- the pool ready and its loops as they are, and no assertion of them fails.
pub take_turns-round_robin :
    (k : ℕ) (p : Pool)
    → IsReady p
    → 0 < p.num_threads
    → Returns
        (λ r.
          IsReady r.1
          × (r.1.loops ≡ p.loops)
          × ((i : ℕ) → i < k → get_elem? r.0 i ≡ get_elem? p.loops ((p.next + i) % p.num_threads)))
        (take_turns k p)
unfolding take_turns
take_turns-round_robin zero p v h = (([], p), refl, (v, refl, λ i lt. absurd (omega arith)))
take_turns-round_robin (suc k) p v h =
    let q : Pool = record p { next = (p.next + 1) % p.num_threads } in
    let (r, run, f) = take_turns-round_robin k q (turn-IsReady p v h) h in
    (
      (get_or p.loops p.next p.base_loop ∷ r.0, r.1),
      rw (get_next_loop-turn p v h, run) refl,
      (
        f.0,
        f.1,
        turns_cons r.0 p.loops p.base_loop p.next p.num_threads k (omega (arith, v.place)) v.count
            f.2,
      ),
    )
