-- ===== src/Pool.antt =====
-- The thread pool of net/EventLoopThreadPool.h and net/EventLoopThreadPool.cc. A loop is a number, and
-- the loop that the i-th new thread answers is an argument.
pub mod Turns
mod Tests
use summer.Prelude.{
  ℕ, zero, suc, ◌+◌, Bool, true, false, not, ltb, leb, if◌then◌else◌, List, [], ◌∷◌, ◌++◌, Option,
  none, some, Outcome, ok, invalid, ◌>>=◌, ◌>>◌, assert, require, length, get_elem?,
}

pub record Pool : Type 0 where
  pub base_loop : ℕ
  pub started : Bool
  pub num_threads : ℕ
  pub next : ℕ
  pub loops : List ℕ

unfoldable pub init : ℕ → Pool
init base = record { base_loop = base; started = false; num_threads = 0; next = 0; loops = [] }

unfoldable pub set_thread_num : Pool → ℕ → Pool
set_thread_num p n = record p { num_threads = n }

-- The loop of `start`, `n` threads still to come and `i` there.
unfoldable pub start_threads : (ℕ → ℕ) → ℕ → ℕ → List ℕ
start_threads new_loop zero i = []
start_threads new_loop (suc n) i = new_loop i ∷ start_threads new_loop n (i + 1)

unfoldable pub start : (ℕ → ℕ) → Pool → Outcome Pool
start new_loop p = do
  assert (not p.started)
  ok (record p { started = true; loops = p.loops ++ start_threads new_loop p.num_threads 0 })

-- `loops[i]`, undefined out of range.
abbrev pub at : List ℕ → ℕ → Outcome ℕ
at xs i = elim (get_elem? xs i) [ none ↦ invalid | some x ↦ ok x ]

abbrev pub is_empty : List ℕ → Bool
is_empty [] = true
is_empty (x ∷ xs) = false

unfoldable pub get_next_loop : Pool → Outcome (ℕ × Pool)
get_next_loop p = do
  assert (leb p.next p.num_threads)
  if is_empty p.loops then ok (p.base_loop, p) else (do
    loop ← at p.loops p.next
    let next = p.next + 1
    ok (loop, record p { next = if leb (length p.loops) next then 0 else next }))
