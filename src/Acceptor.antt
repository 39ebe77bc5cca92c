-- ===== src/Acceptor.antt =====
-- The acceptor of net/Acceptor.h and net/Acceptor.cc, over the socket of net/Socket.h and
-- net/Socket.cc. `newConnectionCallback_` is an argument, a step on a state of its own; what the system
-- calls answer are arguments too.
pub mod Reads
pub mod Serving
mod Tests
use summer.Prelude.{
  ℕ, Bool, true, false, if◌then◌else◌, ltb, List, [], ◌∷◌, Option, none, some, Outcome, ok, aborted,
  ◌>>=◌, ◌>>◌,
}
use summer.Channel.{Channel, enable_reading}
use summer.Channel
use summer.Sockets.{
  Sockaddr, Inet, Accepted, create_nonblocking_or_die, bind_or_die, listen_or_die, accept, close,
  of_port,
}

pub record Acceptor : Type 0 where
  pub channel : Channel
  pub listening : Bool

-- The answers of `socket` and `bind`.
unfoldable pub init : Option ℕ → Bool → Outcome Acceptor
init sockfd bound = do
  d ← create_nonblocking_or_die sockfd
  bind_or_die bound
  ok (record { channel = record (Channel.init d.fd) { has_read = true }; listening = false })

unfoldable pub listen : Acceptor → Bool → Outcome Acceptor
listen a answer = do
  listen_or_die answer
  ok (record { channel = enable_reading a.channel; listening = true })

-- `Socket::accept`: the address is taken over only for a descriptor above 0.
unfoldable pub socket_accept : Sockaddr → Accepted → Outcome (Option (ℕ × Sockaddr))
socket_accept peer answer = do
  r ← accept answer
  elim r [ none ↦ ok none | some c ↦ ok (some (c.0, if ltb 0 c.0 then c.1 else peer)) ]

module _ {ℓ} {A : Type ℓ} (net : Inet) (callback : Option (A → ℕ → Sockaddr → Outcome A)) where
  -- With a connection, and what `close` answers where there is no callback.
  unfoldable pub on_accepted : A → ℕ → Sockaddr → Bool → Outcome A
  on_accepted s connfd peer closed = elim callback [
    | none ↦ (do close closed; ok s)
    | some call ↦ call s connfd peer
  ]

  unfoldable pub handle_read : A → Accepted → Bool → Outcome A
  handle_read s answer closed = do
    r ← socket_accept (of_port net 0) answer
    elim r [ none ↦ ok s | some c ↦ on_accepted s c.0 c.1 closed ]

  -- One call for each time that the listening socket is readable.
  unfoldable pub handle_reads : A → List (Accepted × Bool) → Outcome A
  handle_reads s [] = ok s
  handle_reads s (a ∷ answers) = do t ← handle_read s a.0 a.1; handle_reads t answers
