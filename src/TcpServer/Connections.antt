-- ===== src/TcpServer/Connections.antt =====
-- The map of connections: accepting and removing.
use summer.Prelude.{
  ℕ, suc, ◌+◌, ◌%◌, ◌≤◌, ◌<◌, ◌≡◌, refl, arith, Bool-cases, inl, inr, if◌then◌else◌, List, [], ◌∷◌,
  none, some, Option-cases, Returns, length, get_or,
}
use summer.Codec.{same}
use summer.Hub.Topics.{same_iff}
use summer.Pool.Turns.{IsReady, get_next_loop-turn, turn-IsReady}
use summer.Decimal.{Text}
use summer.TcpServer.{
  Conn, conn_name, Server, established, destroyed, put, find, erase, new_connection,
  remove_connection_in_loop,
}
use summer.TcpServer.Names.{conn_name-injective}

find-put :
    (key other : Text) (c : Conn) (m : List (Text × Conn))
    → find other (put key c m) ≡ (if same other key then some c else find other m)
unfolding find put
find-put key other c [] = refl
find-put key other c ((k, d) ∷ m) =
    ground (arith, same_iff key k, same_iff other k, same_iff other key, find-put key other c m)

find-erase :
    (key other : Text) (m : List (Text × Conn))
    → find other (erase key m) ≡ (if same other key then none else find other m)
unfolding find erase
find-erase key other [] = ground arith
find-erase key other ((k, d) ∷ m) =
    ground (arith, same_iff key k, same_iff other k, same_iff other key, find-erase key other m)

-- Each name in the map is that of a number that has been given out.
abbrev pub Named : Server → Type 0
Named s =
    (key : Text) (c : Conn)
    → find key s.connections ≡ some c
    → (id : ℕ) × (id < s.next_conn_id) × (key ≡ conn_name s.name s.host_port id)

-- The next name is not in the map.
next_unused :
    (s : Server)
    → Named s
    → length s.host_port ≤ 21
    → s.next_conn_id < 100000000
    → find (conn_name s.name s.host_port s.next_conn_id) s.connections ≡ none
next_unused s v h lt =
    elim (Option-cases (find (conn_name s.name s.host_port s.next_conn_id) s.connections)) [
      | inl e ↦ e
      | inr (c, e) ↦
          let (id, below, same_name) = v (conn_name s.name s.host_port s.next_conn_id) c e in
          absurd (
            omega (
              arith,
              conn_name-injective s.name s.host_port s.next_conn_id id h lt (omega arith) same_name,
            ))
    ]

-- A new connection, of a ready pool with threads and below the number 10 ^ 8, gets the next loop of
-- the pool and a name that was not in the map; it stands there now, every other connection stays, and
-- each name is again that of a number given out.
pub new_connection_lem :
    (s : Server) (sockfd : ℕ)
    → Named s
    → IsReady s.pool
    → 0 < s.pool.num_threads
    → length s.host_port ≤ 21
    → s.next_conn_id < 100000000
    → let key = conn_name s.name s.host_port s.next_conn_id in
      let loop = get_or s.pool.loops s.pool.next s.pool.base_loop in
      Returns
        (λ r.
          Named r.0
          × IsReady r.0.pool
          × (find key s.connections ≡ none)
          × ((other : Text)
              → find other r.0.connections ≡ (
                  if same other key
                  then some (record { io_loop = loop; sockfd = sockfd })
                  else find other s.connections))
          × (r.1 ≡ established loop key ∷ []))
        (new_connection s sockfd)
unfolding new_connection
new_connection_lem s sockfd v ready threads h lt =
    let key = conn_name s.name s.host_port s.next_conn_id in
    let loop = get_or s.pool.loops s.pool.next s.pool.base_loop in
    let c : Conn = record { io_loop = loop; sockfd = sockfd } in
    let pool = record s.pool { next = (s.pool.next + 1) % s.pool.num_threads } in
    (
      (
        record s {
          next_conn_id = suc s.next_conn_id;
          pool = pool;
          connections = put key c s.connections;
        },
        established loop key ∷ [],
      ),
      rw (get_next_loop-turn s.pool ready threads) refl,
      (
        λ other d e. elim (Bool-cases (same other key)) [
          | inl t ↦ (s.next_conn_id, omega arith, (same_iff other key).0 t)
          | inr t ↦
              let (id, below, n) =
                v other d (ground (arith, e, t, find-put key other c s.connections)) in
              (id, omega arith, n)
        ],
        turn-IsReady s.pool ready threads,
        next_unused s v h lt,
        λ other. find-put key other c s.connections,
        refl,
      ),
    )

-- Removing a connection that is in the map returns: it is no longer there, every other connection
-- stays, and the loop of the connection destroys it.
pub remove_connection_lem :
    (s : Server) (key : Text) (c : Conn)
    → Named s
    → find key s.connections ≡ some c
    → Returns
        (λ r.
          Named r.0
          × ((other : Text)
              → find other r.0.connections
                ≡ (if same other key then none else find other s.connections))
          × (r.1 ≡ destroyed c.io_loop key ∷ []))
        (remove_connection_in_loop s key c)
unfolding remove_connection_in_loop
remove_connection_lem s key c v e = (
  (record s { connections = erase key s.connections }, destroyed c.io_loop key ∷ []),
  rw e refl,
  (
    λ other d f. v other d (ground (arith, f, find-erase key other s.connections)),
    λ other. find-erase key other s.connections,
    refl,
  ),
)
