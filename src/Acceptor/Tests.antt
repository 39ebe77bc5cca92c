-- ===== src/Acceptor/Tests.antt =====
-- A run of an acceptor, and the theorems about it.
use summer.Prelude.{
  ℕ, ◌+◌, ◌≡◌, refl, arith, inl, true, List, [], ◌∷◌, Bool, some, Outcome, ok, aborted, ◌>>=◌,
  Returns, if◌then◌else◌, length,
}
use summer.Pool.{Pool}
use summer.Sockets.{
  Sockaddr, Accepted, accepted, refused, econnaborted, emfile, to_host_port, print_host_port,
  host_of,
}
use summer.Sockets.Machine.{loopback, machine, machine-IsDocumented}
use summer.TcpServer.{Server, find}
use summer.TcpServer.Connections.{Named}
use summer.Acceptor.{handle_reads}
use summer.Acceptor.Reads.{connections, hand_over, handle_reads-hand_over}
use summer.Acceptor.Serving.{accept_into, IsOpen, SameNames, Keeps, Stand, handle_reads-Stand}

abbrev address : Sockaddr
address = record { addr = loopback; port = 20480 }

abbrev peer : Sockaddr
peer = record { addr = loopback; port = 1 }

-- Two connections, with one in between that was given up before it was accepted.
abbrev answers : List (Accepted × Bool)
answers = (accepted 5 peer, true) ∷ (refused econnaborted, true) ∷ (accepted 6 peer, true) ∷ []

abbrev count : ℕ → ℕ → Sockaddr → Outcome ℕ
count n connfd addr = ok (n + connfd)

counted : handle_reads machine (some count) 0 answers ≡ ok 11
unfolding handle_reads summer.Acceptor.handle_read summer.Acceptor.socket_accept
    summer.Acceptor.on_accepted summer.Sockets.accept summer.Sockets.on_refused
counted = refl

handle_reads-hand_over_example :
    handle_reads machine (some count) 0 answers
    ≡ (hand_over count 0 ((5, peer) ∷ (6, peer) ∷ []) >>= (λ t. if true then ok t else aborted))
handle_reads-hand_over_example =
    handle_reads-hand_over machine count 0 answers (omega arith, (omega arith, tt))

-- The first error that is not one of a single connection aborts.
full : handle_reads machine (some count) 0 ((refused emfile, true) ∷ answers) ≡ aborted
unfolding handle_reads summer.Acceptor.handle_read summer.Acceptor.socket_accept
    summer.Acceptor.on_accepted summer.Sockets.accept summer.Sockets.on_refused
full = refl

abbrev pool : Pool
pool = record { base_loop = 0; started = true; num_threads = 2; next = 1; loops = 7 ∷ 8 ∷ [] }

abbrev server : Server
server = record {
  name = b's' ∷ [];
  host_port = to_host_port machine address;
  next_conn_id = 1;
  pool = pool;
  listening = true;
  connections = [];
}

server-Named : Named server
unfolding find
server-Named key c e = cc

handle_reads-Stand_example :
    Returns
      (λ t.
        IsOpen t
        × SameNames server t
        × (t.next_conn_id ≡ 1 + length (connections answers))
        × Keeps server t
        × Stand t 1 (connections answers))
      (handle_reads machine (some accept_into) server answers)
handle_reads-Stand_example =
    handle_reads-Stand machine machine-IsDocumented server address answers (omega arith) refl
      server-Named (record { running = refl; count = refl; place = inl (omega arith) })
      (omega arith) (omega arith, (omega arith, tt)) refl (omega arith)
