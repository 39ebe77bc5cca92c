-- ===== src/Sockets.antt =====
-- The wrappers of net/SocketOpts.h and net/SocketOpts.cc around the system calls, and the addresses of
-- net/InetAddress.h and net/InetAddress.cc. What the system calls answer are arguments; the conversions
-- of `arpa/inet.h` are a parameter. A call that logs with LOG_FATAL or LOG_SYSFATAL aborts.
pub mod Addresses
pub mod Machine
mod Tests
use summer.Prelude.{
  ℕ, ◌+◌, ◌≤◌, ◌<◌, ◌^◌, ◌≡◌, Bool, true, false, ◌&&◌, ◌==◌, List, [], ◌∷◌, ◌++◌, Option, none,
  some, Outcome, ok, aborted, take, length,
}
use summer.Decimal.{Text, decimal}

-- `struct sockaddr_in`, with `sin_addr.s_addr` and `sin_port` in the order of the network; the family
-- is always AF_INET.
pub record Sockaddr : Type 0 where
  pub addr : ℕ
  pub port : ℕ

-- After `bzero`.
abbrev pub zeroed : Sockaddr
zeroed = record { addr = 0; port = 0 }

-- `htons`, `ntohs`, `htonl`, `inet_ntop` and `inet_pton`
pub record Inet : Type 0 where
  pub htons : ℕ → ℕ
  pub ntohs : ℕ → ℕ
  pub htonl : ℕ → ℕ
  pub ntop : ℕ → Option Text
  pub pton : Text → Option ℕ

-- What their manuals say: `ntohs` undoes `htons`, a port stays a port, `inet_ntop` prints an address in less
-- than INET_ADDRSTRLEN characters, and `inet_pton` reads what `inet_ntop` prints.
pub record IsDocumented (net : Inet) : Type 0 where
  pub ntohs-htons : (port : ℕ) → port < 2 ^ 16 → net.ntohs (net.htons port) ≡ port
  pub ntohs-below : (port : ℕ) → port < 2 ^ 16 → net.ntohs port < 2 ^ 16
  pub length-ntop : (addr : ℕ) (host : Text) → net.ntop addr ≡ some host → length host ≤ 15
  pub pton-ntop : (addr : ℕ) (host : Text) → net.ntop addr ≡ some host → net.pton host ≡ some addr

-- A descriptor with its flags.
pub record Descriptor : Type 0 where
  pub fd : ℕ
  pub nonblock : Bool
  pub cloexec : Bool

unfoldable pub set_non_block_and_close_on_exec : Descriptor → Descriptor
set_non_block_and_close_on_exec d = record d { nonblock = true; cloexec = true }

-- `socket` has answered with a descriptor, or with an error.
unfoldable pub create_nonblocking_or_die : Option ℕ → Outcome Descriptor
create_nonblocking_or_die none = aborted
create_nonblocking_or_die (some sockfd) =
    ok (set_non_block_and_close_on_exec (record { fd = sockfd; nonblock = false; cloexec = false }))

-- `bindOrDie`, `listenOrDie`, `close` and `shutdownWrite`, by whether the system call succeeds.
unfoldable pub bind_or_die : Bool → Outcome (Unit {0})
bind_or_die true = ok tt
bind_or_die false = aborted

unfoldable pub listen_or_die : Bool → Outcome (Unit {0})
listen_or_die true = ok tt
listen_or_die false = aborted

unfoldable pub close : Bool → Outcome (Unit {0})
close true = ok tt
close false = aborted

unfoldable pub shutdown_write : Bool → Outcome (Unit {0})
shutdown_write true = ok tt
shutdown_write false = aborted

-- The error numbers that `accept` tells apart.
pub data Errno : Type 0 where
  eagain econnaborted eintr eproto eperm : Errno
  ebadf efault einval emfile enfile enobufs enomem enotsock eopnotsupp : Errno
  other : ℕ → Errno

pub data Accepted : Type 0 where
  accepted : ℕ → Sockaddr → Accepted
  refused : Errno → Accepted

-- The `switch` behind an error of `accept4`, and the -1 that is returned.
unfoldable pub on_refused : Errno → Outcome (Option (ℕ × Sockaddr))
on_refused eagain = ok none
on_refused econnaborted = ok none
on_refused eintr = ok none
on_refused eproto = ok none
on_refused eperm = ok none
on_refused ebadf = aborted
on_refused efault = aborted
on_refused einval = aborted
on_refused emfile = aborted
on_refused enfile = aborted
on_refused enobufs = aborted
on_refused enomem = aborted
on_refused enotsock = aborted
on_refused eopnotsupp = aborted
on_refused (other n) = aborted

unfoldable pub accept : Accepted → Outcome (Option (ℕ × Sockaddr))
accept (accepted connfd addr) = ok (some (connfd, addr))
accept (refused errno) = on_refused errno

-- The buffer of `inet_ntop` holds INVALID before; `snprintf` cuts what does not fit `size` bytes with the
-- end.
abbrev invalid_host : Text
invalid_host = b'I' ∷ b'N' ∷ b'V' ∷ b'A' ∷ b'L' ∷ b'I' ∷ b'D' ∷ []

abbrev pub host_of : Option Text → Text
host_of none = invalid_host
host_of (some host) = host

-- `getsockname` and `getpeername` leave the address as it is when they fail.
unfoldable pub get_local_addr : Option Sockaddr → Sockaddr
get_local_addr none = zeroed
get_local_addr (some addr) = addr

unfoldable pub get_peer_addr : Option Sockaddr → Sockaddr
get_peer_addr none = zeroed
get_peer_addr (some addr) = addr

-- `getsockopt` answers with the pending error, or fails with an error of its own.
pub data Sockopt : Type 0 where
  pending : ℕ → Sockopt
  failing : ℕ → Sockopt

unfoldable pub get_socket_error : Sockopt → ℕ
get_socket_error (pending optval) = optval
get_socket_error (failing errno) = errno

unfoldable pub is_self_connect : Option Sockaddr → Option Sockaddr → Bool
is_self_connect local peer =
    let localaddr = get_local_addr local in
    let peeraddr = get_peer_addr peer in
    localaddr.port == peeraddr.port && localaddr.addr == peeraddr.addr

module _ (net : Inet) where
  unfoldable pub print_host_port : ℕ → Sockaddr → Text
  print_host_port size a =
      take size (host_of (net.ntop a.addr) ++ (b':' ∷ decimal (net.ntohs a.port)))

  -- An address that cannot be read is logged, and what stood in its place stays.
  unfoldable pub from_host_port : Text → ℕ → Sockaddr → Sockaddr
  from_host_port ip port a = elim (net.pton ip) [
    | none ↦ record a { port = net.htons port }
    | some addr ↦ record a { addr = addr; port = net.htons port }
  ]

  -- The three constructors of an address, and `toHostPort` with its buffer of 32 bytes.
  unfoldable pub of_port : ℕ → Sockaddr
  of_port port = record { addr = net.htonl 0; port = net.htons port }

  unfoldable pub of_host_port : Text → ℕ → Sockaddr
  of_host_port ip port = from_host_port ip port zeroed

  unfoldable pub to_host_port : Sockaddr → Text
  to_host_port a = print_host_port 31 a
