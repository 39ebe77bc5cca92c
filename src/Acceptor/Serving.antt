-- ===== src/Acceptor/Serving.antt =====
-- The acceptor of a server, whose callback is `TcpServer::newConnection`: what becomes of the connections
-- that it accepts.
use summer.Prelude.{
  ℕ, suc, ◌+◌, ◌≤◌, ◌<◌, ◌^◌, ◌≡◌, refl, arith, Bool, true, List, [], ◌∷◌, some, Outcome, ok, ◌>>=◌,
  Returns, length, sym, ◌∙◌, get_or,
}
use summer.Decimal.{Text}
use summer.Hub.Topics.{same_iff}
use summer.Pool.Turns.{IsReady, get_next_loop-turn}
use summer.Sockets.{Sockaddr, Inet, IsDocumented, Accepted, to_host_port}
use summer.Sockets.Addresses.{length-to_host_port}
use summer.TcpServer.{Server, Conn, conn_name, find, new_connection}
use summer.TcpServer.Connections.{Named, new_connection_lem}
use summer.Acceptor.{handle_reads}
use summer.Acceptor.Reads.{connections, goes_on, IsAbove, hand_over, handle_reads-hand_over}

unfoldable pub accept_into : Server → ℕ → Sockaddr → Outcome Server
accept_into s connfd peer = do r ← new_connection s connfd; ok r.0

-- A server that can take connections.
pub record IsOpen (s : Server) : Type 0 where
  pub named : Named s
  pub ready : IsReady s.pool
  pub threads : 0 < s.pool.num_threads
  pub short : length s.host_port ≤ 21

-- What stood in the map still does.
abbrev pub Keeps : Server → Server → Type 0
Keeps s t =
    (key : Text) (c : Conn) → find key s.connections ≡ some c → find key t.connections ≡ some c

abbrev pub SameNames : Server → Server → Type 0
SameNames s t =
    (t.name ≡ s.name) × (t.host_port ≡ s.host_port) × (t.pool.num_threads ≡ s.pool.num_threads)

new_connection-same :
    (s : Server) (connfd : ℕ) (r : Server × List summer.TcpServer.Effect)
    → IsOpen s
    → new_connection s connfd ≡ ok r
    → SameNames s r.0 × (r.0.next_conn_id ≡ suc s.next_conn_id)
unfolding new_connection
new_connection-same s connfd r v h = ground (arith, h, get_next_loop-turn s.pool v.ready v.threads)

accept_into-one :
    (s : Server) (connfd : ℕ) (peer : Sockaddr)
    → IsOpen s
    → s.next_conn_id < 100000000
    → Returns
        (λ t.
          IsOpen t
          × SameNames s t
          × (t.next_conn_id ≡ suc s.next_conn_id)
          × Keeps s t
          × ((c : Conn) × (find (conn_name s.name s.host_port s.next_conn_id) t.connections
                ≡ some c)
              × (c.sockfd ≡ connfd)))
        (accept_into s connfd peer)
unfolding accept_into
accept_into-one s connfd peer v lt =
    let key = conn_name s.name s.host_port s.next_conn_id in
    let loop = get_or s.pool.loops s.pool.next s.pool.base_loop in
    let (r, run, (named, ready, unused, stands, told)) =
      new_connection_lem s connfd v.named v.ready v.threads v.short lt in
    let ((name, host_port, threads), next) = new_connection-same s connfd r v run in
    (
      r.0,
      rw run refl,
      (
        record {
          named = named;
          ready = ready;
          threads = omega (arith, v.threads, threads);
          short = rw host_port v.short;
        },
        (name, host_port, threads),
        next,
        λ other d e. ground (arith, e, unused, stands other, same_iff other key),
        (
          record { io_loop = loop; sockfd = connfd },
          ground (arith, stands key, same_iff key key),
          refl,
        ),
      ),
    )

-- The connections stand in the map, under the names of the numbers from `n` on.
abbrev pub Stand : Server → ℕ → List (ℕ × Sockaddr) → Type 0
Stand s n [] = Unit {0}
Stand s n (c ∷ cs) =
    ((d : Conn) × (find (conn_name s.name s.host_port n) s.connections ≡ some d) × (d.sockfd ≡ c.0))
    × Stand s (suc n) cs

hand_over-Stand :
    (s : Server) (cs : List (ℕ × Sockaddr))
    → IsOpen s
    → s.next_conn_id + length cs ≤ 100000000
    → Returns
        (λ t.
          IsOpen t
          × SameNames s t
          × (t.next_conn_id ≡ s.next_conn_id + length cs)
          × Keeps s t
          × Stand t s.next_conn_id cs)
        (hand_over accept_into s cs)
hand_over-Stand s [] v h = (s, refl, (v, (refl, refl, refl), omega arith, λ key c e. e, tt))
hand_over-Stand s (c ∷ cs) v h =
    let (u, run, (open_u, (name, host_port, threads), next, keeps, (d, stands, fd))) =
      accept_into-one s c.0 c.1 v (omega arith) in
    let (t, rest, (open_t, (name', host_port', threads'), next', keeps', stand)) =
      hand_over-Stand u cs open_u (omega (arith, next)) in
    (
      t,
      rw run rest,
      (
        open_t,
        (name' ∙ name, host_port' ∙ host_port, threads' ∙ threads),
        omega (arith, next, next'),
        λ key e f. keeps' key e (keeps key e f),
        (
          (
            d,
            rw (name' ∙ name, host_port' ∙ host_port)
                (keeps' (conn_name s.name s.host_port s.next_conn_id) d stands),
            fd,
          ),
          rw (sym next) stand,
        ),
      ),
    )

-- Of a server that is built for an address, with a ready pool with threads and only names of numbers
-- given out in its map, a run of `handleRead` that meets no error but those of single connections, no
-- descriptor 0, and stays below the number 10 ^ 8, returns: every connection that was accepted stands
-- in the map, each under a name of its own number, and whatever stood there before still does.
pub handle_reads-Stand :
    (net : Inet) (doc : IsDocumented net) (s : Server) (a : Sockaddr)
    (answers : List (Accepted × Bool))
    → a.port < 2 ^ 16
    → s.host_port ≡ to_host_port net a
    → Named s
    → IsReady s.pool
    → 0 < s.pool.num_threads
    → IsAbove (connections answers)
    → goes_on answers ≡ true
    → s.next_conn_id + length (connections answers) ≤ 100000000
    → Returns
        (λ t.
          IsOpen t
          × SameNames s t
          × (t.next_conn_id ≡ s.next_conn_id + length (connections answers))
          × Keeps s t
          × Stand t s.next_conn_id (connections answers))
        (handle_reads net (some accept_into) s answers)
handle_reads-Stand net doc s a answers port built named ready threads above on few =
    let v : IsOpen s = record {
      named = named;
      ready = ready;
      threads = threads;
      short = rw built ((length-to_host_port net doc a port).1);
    } in
    let (t, run, result) = hand_over-Stand s (connections answers) v few in
    (t, handle_reads-hand_over net accept_into s answers above ∙ rw (run, on) refl, result)
