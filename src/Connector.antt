-- ===== src/Connector.antt =====
-- The connector of net/Connector.h and net/Connector.cc. A handler returns the new state and what it
-- did outside, in order; what `connect` and `isSelfConnect` answer are arguments.
pub mod Retry
pub mod World
pub mod Safety
mod Tests
use summer.Prelude.{
  ℕ, ◌+◌, ◌*◌, Bool, true, false, if◌then◌else◌, List, [], ◌∷◌, ◌++◌, Option, none, some, Outcome,
  ok, invalid, ◌>>=◌, ◌>>◌, assert, min,
}

pub data State : Type 0 where
  disconnected connected connecting : State

abbrev pub is_disconnected : State → Bool
is_disconnected disconnected = true
is_disconnected _ = false

abbrev pub is_connecting : State → Bool
is_connecting connecting = true
is_connecting _ = false

abbrev pub init_retry_delay_ms : ℕ
init_retry_delay_ms = 500

abbrev pub max_retry_delay_ms : ℕ
max_retry_delay_ms = 30 * 1000

-- `channel` holds the descriptor of `channel_`, and `none` is the empty pointer.
pub record Connector : Type 0 where
  pub state : State
  pub channel : Option ℕ
  pub retry_delay_ms : ℕ

pub data Effect : Type 0 where
  -- `sockets::close`
  closed : ℕ → Effect
  -- `loop_->runAfter(delay, startInLoop)`, the delay in milliseconds
  scheduled : ℕ → Effect
  -- the channel watches for writing; it is taken out of the poller
  watched : ℕ → Effect
  removed : ℕ → Effect
  -- `loop_->queueInLoop(resetChannel)`
  queued_reset : Effect
  -- `newConnectionCallback_`
  new_connection : ℕ → Effect

-- The error numbers that `startInLoop` tells apart; `zero` is the success of `connect`.
pub data Errno : Type 0 where
  zero einprogress eintr eisconn : Errno
  eagain eaddrinuse eaddrnotavail econnrefused enetunreach : Errno
  eacces eperm eafnosupport ealready ebadf efault enotsock : Errno
  other : ℕ → Errno

abbrev pub Step : Type 0
Step = Outcome (Connector × List Effect)

unfoldable pub init : Connector
init = record { state = disconnected; channel = none; retry_delay_ms = init_retry_delay_ms }

abbrev pub is_none : Option ℕ → Bool
is_none none = true
is_none (some x) = false

-- `connecting`
unfoldable pub start_connecting : Connector → ℕ → Step
start_connecting c sockfd = do
  assert (is_none c.channel)
  ok (record c { state = connecting; channel = some sockfd }, watched sockfd ∷ [])

unfoldable pub retry : Connector → ℕ → Connector × List Effect
retry c sockfd = (
  record c { state = disconnected; retry_delay_ms = min (c.retry_delay_ms * 2) max_retry_delay_ms },
  closed sockfd ∷ scheduled c.retry_delay_ms ∷ [],
)

-- The `switch` of `startInLoop`.
unfoldable pub on_connect : Connector → ℕ → Errno → Step
on_connect c sockfd zero = start_connecting c sockfd
on_connect c sockfd einprogress = start_connecting c sockfd
on_connect c sockfd eintr = start_connecting c sockfd
on_connect c sockfd eisconn = start_connecting c sockfd
on_connect c sockfd eagain = ok (retry c sockfd)
on_connect c sockfd eaddrinuse = ok (retry c sockfd)
on_connect c sockfd eaddrnotavail = ok (retry c sockfd)
on_connect c sockfd econnrefused = ok (retry c sockfd)
on_connect c sockfd enetunreach = ok (retry c sockfd)
on_connect c sockfd eacces = ok (c, closed sockfd ∷ [])
on_connect c sockfd eperm = ok (c, closed sockfd ∷ [])
on_connect c sockfd eafnosupport = ok (c, closed sockfd ∷ [])
on_connect c sockfd ealready = ok (c, closed sockfd ∷ [])
on_connect c sockfd ebadf = ok (c, closed sockfd ∷ [])
on_connect c sockfd efault = ok (c, closed sockfd ∷ [])
on_connect c sockfd enotsock = ok (c, closed sockfd ∷ [])
on_connect c sockfd (other n) = ok (c, closed sockfd ∷ [])

-- The socket that is created, and the answer of `connect`.
unfoldable pub start_in_loop : Connector → ℕ → Errno → Step
start_in_loop c sockfd errno = do assert (is_disconnected c.state); on_connect c sockfd errno

unfoldable pub restart : Connector → ℕ → Errno → Step
restart c = start_in_loop (record c { state = disconnected; retry_delay_ms = init_retry_delay_ms })

-- The descriptor, and what happens on the way; a call through the empty pointer is undefined.
unfoldable pub remove_and_reset_channel : Connector → Outcome (ℕ × List Effect)
remove_and_reset_channel c = elim c.channel [
  | none ↦ invalid
  | some sockfd ↦ ok (sockfd, removed sockfd ∷ queued_reset ∷ [])
]

unfoldable pub reset_channel : Connector → Connector
reset_channel c = record c { channel = none }

-- `handleWrite` and `handleError` behind `removeAndResetChannel`.
unfoldable pub on_writable : Connector → Bool → ℕ → Connector × List Effect
on_writable c self_connect sockfd =
    if self_connect
    then retry c sockfd
    else (record c { state = connected }, new_connection sockfd ∷ [])

unfoldable pub handle_write : Connector → Bool → Step
handle_write c self_connect =
    if is_connecting c.state
    then (do
      r ← remove_and_reset_channel c
      let s = on_writable c self_connect r.0
      ok (s.0, r.1 ++ s.1))
    else (do assert (is_disconnected c.state); ok (c, []))

unfoldable pub handle_error : Connector → Step
handle_error c = do
  assert (is_connecting c.state)
  r ← remove_and_reset_channel c
  let s = retry c r.0
  ok (s.0, r.1 ++ s.1)
