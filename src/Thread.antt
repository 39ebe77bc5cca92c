-- ===== src/Thread.antt =====
-- The thread of base/Thread.h and base/Thread.cc: the assertions of `start` and `join`, the count of the
-- threads that were built, and the cached thread number of `CurrentThread`. What `gettid` and `getpid`
-- answer are arguments, and so is what the function of the thread comes to.
pub mod Calls
mod Tests
use summer.Prelude.{
  ℕ, Bool, true, false, not, ◌==◌, if◌then◌else◌, List, [], ◌∷◌, Outcome, ok, ◌>>=◌, ◌>>◌, assert,
}
use summer.Atomic
use summer.Decimal.{Text}

pub record Thread : Type 0 where
  pub started : Bool
  pub tid : ℕ
  pub name : Text

-- The new thread, and `numCreated_` behind its construction.
unfoldable pub init : Text → ℕ → Outcome (Thread × ℕ)
init name num_created = do
  n ← Atomic.increment 32 num_created
  ok (record { started = false; tid = 0; name = name }, n)

unfoldable pub num_created : ℕ → ℕ
num_created n = (Atomic.get n).0

unfoldable pub start : Thread → Outcome Thread
start t = do assert (not t.started); ok (record t { started = true })

-- Behind `pthread_join`.
unfoldable pub join : Thread → Outcome Thread
join t = do assert t.started; ok (record t { started = false })

-- What `CurrentThread` keeps for each thread: `t_cachedTid_`, which is 0 before it is asked for, and
-- `t_threadName_`.
pub record Current : Type 0 where
  pub cached_tid : ℕ
  pub thread_name : Text

abbrev unknown_name : Text
unknown_name = b'u' ∷ b'n' ∷ b'k' ∷ b'n' ∷ b'o' ∷ b'w' ∷ []

abbrev finished_name : Text
finished_name = b'f' ∷ b'i' ∷ b'n' ∷ b'i' ∷ b's' ∷ b'h' ∷ b'e' ∷ b'd' ∷ []

unfoldable pub new_current : Current
new_current = record { cached_tid = 0; thread_name = unknown_name }

unfoldable pub tid : Current → ℕ → ℕ × Current
tid c gettid =
    let t = if c.cached_tid == 0 then gettid else c.cached_tid in (t, record c { cached_tid = t })

unfoldable pub is_main_thread : Current → ℕ → ℕ → Bool × Current
is_main_thread c gettid getpid = let r = tid c gettid in (r.0 == getpid, r.1)

-- `runInThread`, with the function of the thread as a step of what it works on.
unfoldable pub run_in_thread {ℓ} :
    {A : Type ℓ} → Thread → Current → ℕ → (A → Outcome A) → A → Outcome (Thread × Current × A)
run_in_thread t c gettid func s = do
  let r = tid c gettid
  s' ← func s
  ok (record t { tid = r.0 }, record r.1 { thread_name = finished_name }, s')
