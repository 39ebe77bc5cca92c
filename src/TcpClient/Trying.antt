-- ===== src/TcpClient/Trying.antt =====
-- What keeps a client going that is to reconnect.
use summer.Prelude.{
  ℕ, ◌-◌, ◌<◌, ◌≡◌, refl, ap, subst, ◌∙◌, arith, ◌⊎◌, inl, inr, Bool, true, false, List, [], ◌∷◌,
  ◌++◌, append-nil, none, some, ok, >>=-eq-ok, assert-eq-ok,
}
use summer.Connector
use summer.Connector.{
  Connector, connected, connecting, disconnected, Errno, start_in_loop, restart, on_connect,
  start_connecting, retry, handle_write, handle_error, remove_and_reset_channel, on_writable,
}
use summer.Connector.World.{count_starts}
use summer.Decimal.{Text}
use summer.TcpClient.{
  Client, start_connect, enable_retry, connected_to, relay, reconnect, forget_connection,
  is_current, Effect, destroyed,
}
use summer.TcpClient.World.{
  System, Event, connects, disconnects, enables_retry, starting, writable, failing,
  failing_writable, resets, closing, note, serve, Enabled,
}
use summer.TcpClient.Invariant.{IsServed, relay-connector, handle_write-error}

-- The answers of `connect` that the connector does not give up on.
abbrev pub IsTransient : Errno → Type 0
IsTransient Connector.eacces = ⊥
IsTransient Connector.eperm = ⊥
IsTransient Connector.eafnosupport = ⊥
IsTransient Connector.ealready = ⊥
IsTransient Connector.ebadf = ⊥
IsTransient Connector.efault = ⊥
IsTransient Connector.enotsock = ⊥
IsTransient (Connector.other n) = ⊥
IsTransient _ = Unit {0}

abbrev pub IsPersistent : Event → Type 0
IsPersistent disconnects = ⊥
IsPersistent (starting sockfd errno) = IsTransient errno
IsPersistent (closing conn sockfd errno) = IsTransient errno
IsPersistent _ = Unit {0}

-- An attempt is to come or under way, or there is a connection.
abbrev pub IsTrying : System → Type 0
IsTrying s =
    (0 < s.starts)
    ⊎ (s.client.connector.state ≡ connecting)
    ⊎ ((conn : ℕ) × (s.client.connection ≡ some conn))

start_in_loop-tries :
    (c : Connector) (sockfd : ℕ) (errno : Errno) (r : Connector × List Connector.Effect)
    → start_in_loop c sockfd errno ≡ ok r
    → IsTransient errno
    → (0 < count_starts r.1) ⊎ (r.0.state ≡ connecting)
unfolding start_in_loop on_connect start_connecting retry
start_in_loop-tries c sockfd errno r h t = ground (arith, h, t)

handle_error-tries :
    (c : Connector) (r : Connector × List Connector.Effect)
    → handle_error c ≡ ok r
    → 0 < count_starts r.1
unfolding handle_error remove_and_reset_channel retry
handle_error-tries c r h = ground (arith, h)

handle_write-tries :
    (c : Connector) (self : Bool) (r : Connector × List Connector.Effect)
    → handle_write c self ≡ ok r
    → c.state ≡ connecting
    → (0 < count_starts r.1)
      ⊎ ((k : Client) (host_port : Text)
          → (conn : ℕ) × ((relay k host_port r.1).0.connection ≡ some conn))
unfolding handle_write remove_and_reset_channel on_writable retry relay connected_to
handle_write-tries c true r h e = ground (arith, h)
handle_write-tries c false r h e = inr (λ k host_port. (k.next_conn_id, ground (arith, h, e)))

-- What was asked of the client is not changed by the news of its connector.
relay-asked :
    (c : Client) (host_port : Text) (es : List Connector.Effect)
    → ((relay c host_port es).0.retry ≡ c.retry) × ((relay c host_port es).0.connect ≡ c.connect)
unfolding relay connected_to
relay-asked c host_port [] = (refl, refl)
relay-asked c host_port (Connector.closed fd ∷ es) = relay-asked c host_port es
relay-asked c host_port (Connector.scheduled d ∷ es) = relay-asked c host_port es
relay-asked c host_port (Connector.watched fd ∷ es) = relay-asked c host_port es
relay-asked c host_port (Connector.removed fd ∷ es) = relay-asked c host_port es
relay-asked c host_port (Connector.queued_reset ∷ es) = relay-asked c host_port es
relay-asked c host_port (Connector.new_connection fd ∷ es) =
    relay-asked (connected_to c host_port fd).0 host_port es

-- A client that reconnects and was not told to disconnect.
abbrev pub IsAsked : System → Type 0
IsAsked s = (s.client.retry ≡ true) × (s.client.connect ≡ true)

-- The connector has planned an attempt, begins one, or has got a connection.
abbrev IsTried : Connector × List Connector.Effect → Type 0
IsTried r =
    (0 < count_starts r.1)
    ⊎ (r.0.state ≡ connecting)
    ⊎ ((k : Client) (host_port : Text)
        → (conn : ℕ) × ((relay k host_port r.1).0.connection ≡ some conn))

note-IsTrying :
    (n : ℕ) (c : Client) (host_port : Text) (r : Connector × List Connector.Effect)
    → IsTried r
    → IsTrying (note n c host_port r)
unfolding note
note-IsTrying n c host_port r h = elim h [
  | inl more ↦ inl (omega (arith, more))
  | inr (inl busy) ↦ inr (
      inl
        (ap Connector.state (relay-connector (record c { connector = r.0 }) host_port r.1) ∙ busy))
  | inr (inr made) ↦ inr (inr (made (record c { connector = r.0 }) host_port))
]

note-IsAsked :
    (n : ℕ) (c : Client) (host_port : Text) (r : Connector × List Connector.Effect)
    → (c.retry ≡ true) × (c.connect ≡ true)
    → IsAsked (note n c host_port r)
unfolding note
note-IsAsked n c host_port r (again, wanted) =
    let (e, f) = relay-asked (record c { connector = r.0 }) host_port r.1 in (e ∙ again, f ∙ wanted)

reconnect-tries :
    (c : Client) (sockfd : ℕ) (errno : Errno) (r : Client × List Connector.Effect)
    → reconnect c sockfd errno ≡ ok r
    → (c.retry ≡ true) × (c.connect ≡ true)
    → IsTransient errno
    → ((0 < count_starts r.1) ⊎ (r.0.connector.state ≡ connecting))
      × (r.0.retry ≡ true)
      × (r.0.connect ≡ true)
unfolding reconnect restart start_in_loop on_connect start_connecting retry
reconnect-tries c sockfd errno r h a p = ground (arith, h, a, p)

forget_connection-tries :
    (c : Client) (conn sockfd : ℕ) (errno : Errno)
    (r : Client × List Connector.Effect × List Effect)
    → forget_connection c conn sockfd errno ≡ ok r
    → (c.retry ≡ true) × (c.connect ≡ true)
    → IsTransient errno
    → ((0 < count_starts r.1) ⊎ (r.0.connector.state ≡ connecting))
      × (r.0.retry ≡ true)
      × (r.0.connect ≡ true)
unfolding forget_connection
forget_connection-tries c conn sockfd errno r h a p =
    let (test, f) = assert-eq-ok (is_current c conn) _ h in
    let (q, step, g) = >>=-eq-ok (reconnect (record c { connection = none }) sockfd errno) _ f in
    let same : (q.0, q.1, destroyed conn ∷ []) ≡ r = cc g in
    subst
      (λ r.
        ((0 < count_starts r.1) ⊎ (r.0.connector.state ≡ connecting))
        × (r.0.retry ≡ true)
        × (r.0.connect ≡ true))
      same (reconnect-tries (record c { connection = none }) sockfd errno q step a p)

noted :
    (n : ℕ) (c : Client) (host_port : Text) (r : Connector × List Connector.Effect) (t : System)
    → ok (note n c host_port r) ≡ ok t
    → IsTried r
    → (c.retry ≡ true) × (c.connect ≡ true)
    → IsTrying t × IsAsked t
noted n c host_port r t e h a =
    let same : note n c host_port r ≡ t = cc e in
    subst (λ u. IsTrying u × IsAsked u) same
      (note-IsTrying n c host_port r h, note-IsAsked n c host_port r a)

pub step-IsTrying :
    (s t : System) (e : Event)
    → IsServed s
    → IsTrying s
    → IsAsked s
    → Enabled s e
    → IsPersistent e
    → serve s e ≡ ok t
    → IsTrying t × IsAsked t
unfolding serve
step-IsTrying s t connects v w a h p run = unfold start_connect in ground (arith, run, a)
step-IsTrying s t disconnects v w a h p run = absurd p
step-IsTrying s t enables_retry v w a h p run = unfold enable_retry in ground (arith, run, a, w)
step-IsTrying s t (starting sockfd errno) v w a h p run =
    let (r, step, e) = >>=-eq-ok (start_in_loop s.client.connector sockfd errno) _ run in
    noted (s.starts - 1) s.client [] r t e
      (elim (start_in_loop-tries s.client.connector sockfd errno r step p) [
        | inl more ↦ inl more
        | inr busy ↦ inr (inl busy)
      ])
      a
step-IsTrying s t (writable self host_port) v w a (busy, quiet) p run =
    let (r, step, e) = >>=-eq-ok (handle_write s.client.connector self) _ run in
    noted s.starts s.client host_port r t e
      (elim (handle_write-tries s.client.connector self r step busy) [
        | inl more ↦ inl more
        | inr made ↦ inr (inr made)
      ])
      a
step-IsTrying s t failing v w a h p run =
    let (r, step, e) = >>=-eq-ok (handle_error s.client.connector) _ run in
    noted s.starts s.client [] r t e (inl (handle_error-tries s.client.connector r step)) a
step-IsTrying s t (failing_writable self host_port) v w a h p run =
    let (r, step, e) = >>=-eq-ok (handle_error s.client.connector) _ run in
    let (q, step', e') = >>=-eq-ok (handle_write r.0 self) _ e in
    let same : q ≡ (r.0, []) = cc (step', handle_write-error s.client.connector self r step) in
    noted s.starts s.client host_port (q.0, r.1 ++ q.1) t e'
      (rw (same, append-nil r.1) (inl (handle_error-tries s.client.connector r step))) a
step-IsTrying s t resets v w a h p run = unfold Connector.reset_channel in ground (arith, run, a, w)
step-IsTrying s t (closing conn sockfd errno) v w a h p run =
    let (r, step, e) = >>=-eq-ok (forget_connection s.client conn sockfd errno) _ run in
    let (tried, again, wanted) = forget_connection-tries s.client conn sockfd errno r step a p in
    noted s.starts r.0 [] (r.0.connector, r.1) t e
      (elim tried [ inl more ↦ inl more | inr busy ↦ inr (inl busy) ]) (again, wanted)
