-- ===== src/HubPrograms/Commands.antt =====
-- What the arguments of the programs come to.
use summer.Prelude.{
  ℕ, ◌^◌, ◌<◌, ◌≡◌, refl, ap, arith, Bool, true, if◌then◌else◌, List, [], ◌∷◌, ◌++◌, some, map,
}
use summer.Decimal.{Text, decimal, Without, front-append, behind-append}
use summer.Codec.{same}
use summer.Codec.Requests.{subscribe_request, publish_request}
use summer.Sockets.{Sockaddr, Inet, IsDocumented, of_host_port, to_host_port}
use summer.Sockets.Addresses.{to_host_port-of_host_port}
use summer.PubSubClient.{Client, sent, connected, subscribe, publish, send}
use summer.HubPrograms.{
  has_colon, publish_input, publish_once, subscribe_to, dash, peer_addr, pub_command, sub_command,
  by_client, disconnected, pub_connection, subscribe_all, sub_connection,
}

has_colon-append : (s t : Text) → has_colon (s ++ (b':' ∷ t)) ≡ true
has_colon-append [] t = ground arith
has_colon-append (x ∷ s) t = ground (arith, has_colon-append s t)

module _ (net : Inet) (doc : IsDocumented net) (atoi : Text → ℕ) (addr : ℕ) (ip : Text) (port : ℕ)
    (printed : net.ntop addr ≡ some ip) (plain : Without b':' ip) (small : port < 2 ^ 16)
    (reads : atoi (decimal port) ≡ port) where
  abbrev hostport : Text
  hostport = ip ++ (b':' ∷ decimal port)

  peer_addr-reads : peer_addr net atoi hostport ≡ of_host_port net ip port
  unfolding peer_addr
  peer_addr-reads =
      rw
        (
          front-append b':' ip (decimal port) plain,
          behind-append b':' ip (decimal port) plain,
          reads,
        )
        (ap (of_host_port net ip) (omega arith))

  -- An address that `inet_ntop` prints, without a colon, and a port that `atoi` reads, joined by a colon, are
  -- taken by both programs for just that address, which prints as it was given; `pub` publishes the lines
  -- of the standard input if the content is a dash, and the content otherwise.
  pub commands-address :
      (program topic content : Text) (topics : List Text)
      → (a : Sockaddr) × (to_host_port net a ≡ hostport)
        × (pub_command net atoi (program ∷ hostport ∷ topic ∷ content ∷ [])
            ≡ (if same content dash then publish_input a topic else publish_once a topic content))
        × (sub_command net atoi (program ∷ hostport ∷ topic ∷ topics)
            ≡ subscribe_to a (topic ∷ topics))
  unfolding pub_command sub_command
  commands-address program topic content topics = (
    of_host_port net ip port,
    to_host_port-of_host_port net doc addr ip port printed small,
    rw (has_colon-append ip (decimal port), peer_addr-reads) refl,
    rw (has_colon-append ip (decimal port), peer_addr-reads) refl,
  )

subscribe-sent :
    (is_connected : ℕ → Bool) (c : Client) (conn : ℕ) (topic : Text)
    → c.conn ≡ some conn
    → is_connected conn ≡ true
    → subscribe is_connected c topic ≡ sent conn (subscribe_request topic) ∷ []
unfolding subscribe send connected
subscribe-sent is_connected c conn topic e up = ground (arith, e, up)

subscribe_all-sent :
    (is_connected : ℕ → Bool) (c : Client) (conn : ℕ) (topics : List Text)
    → c.conn ≡ some conn
    → is_connected conn ≡ true
    → subscribe_all is_connected c topics
      ≡ map (λ t. by_client (sent conn (subscribe_request t))) topics
unfolding subscribe_all
subscribe_all-sent is_connected c conn [] e up = refl
subscribe_all-sent is_connected c conn (t ∷ topics) e up =
    rw (subscribe-sent is_connected c conn t e up) (
      ap (◌∷◌ (by_client (sent conn (subscribe_request t))))
        (subscribe_all-sent is_connected c conn topics e up))

-- When its client is connected, `sub` sends a request for each of its topics, in order, and `pub` sends its
-- message and disconnects.
pub connection-sent :
    (is_connected : ℕ → Bool) (c : Client) (conn : ℕ) (topics : List Text) (topic content : Text)
    → c.conn ≡ some conn
    → is_connected conn ≡ true
    → (sub_connection is_connected c topics
        ≡ map (λ t. by_client (sent conn (subscribe_request t))) topics)
      × (pub_connection is_connected c topic content
          ≡ by_client (sent conn (publish_request topic content)) ∷ disconnected ∷ [])
unfolding sub_connection pub_connection connected publish send
connection-sent is_connected c conn topics topic content e up = (
  ground (arith, e, up, subscribe_all-sent is_connected c conn topics e up),
  ground (arith, e, up),
)
