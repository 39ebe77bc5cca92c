-- ===== src/TcpClient/Invariant.antt =====
-- What holds of the client in its loop.
use summer.Prelude.{
  ℕ, ◌≡◌, ◌≢◌, refl, sym, ap, ◌∙◌, subst, arith, ◌⊎◌, inl, inr, Bool, true, false, List, [], ◌∷◌,
  none, ok,
}
use summer.Connector
use summer.Connector.{
  Connector, connected, connecting, disconnected, Errno, init_retry_delay_ms, max_retry_delay_ms,
  start_in_loop, restart, on_connect, start_connecting, retry, handle_write, handle_error,
  remove_and_reset_channel, on_writable,
}
use summer.Connector.World
use summer.Connector.World.{World, is_reset}
use summer.Connector.Safety
use summer.Decimal.{Text}
use summer.TcpClient.{Client, init, connected_to, relay}
use summer.TcpClient.World.{System, note, built}

-- The world of the connector.
abbrev pub view : System → World
view s = record { connector = s.client.connector; starts = s.starts; resetting = s.resetting }

-- The connector is safe; there is a connection only while it is connected, and then its channel
-- is gone once it was reset.
pub record IsServed (s : System) : Type 0 where
  pub safe : Connector.Safety.IsSafe (view s)
  pub current : (s.client.connection ≡ none) ⊎ (s.client.connector.state ≡ connected)
  pub cleared :
      s.client.connector.state ≡ connected → s.resetting ≡ false → s.client.connector.channel ≡ none

pub built-IsServed : (name : Text) → IsServed (built name)
unfolding built init Connector.init
built-IsServed name = record {
  safe = record {
    one = omega arith;
    idle = λ h. refl;
    set = λ h. cc;
    unset = λ h k. refl;
    low = omega arith;
    high = omega arith;
  };
  current = inl refl;
  cleared = λ h. cc;
}

-- What the client does with the news of its connector leaves the connector alone.
pub relay-connector :
    (c : Client) (host_port : Text) (es : List Connector.Effect)
    → (relay c host_port es).0.connector ≡ c.connector
unfolding relay connected_to
relay-connector c host_port [] = refl
relay-connector c host_port (Connector.closed fd ∷ es) = relay-connector c host_port es
relay-connector c host_port (Connector.scheduled d ∷ es) = relay-connector c host_port es
relay-connector c host_port (Connector.watched fd ∷ es) = relay-connector c host_port es
relay-connector c host_port (Connector.removed fd ∷ es) = relay-connector c host_port es
relay-connector c host_port (Connector.queued_reset ∷ es) = relay-connector c host_port es
relay-connector c host_port (Connector.new_connection fd ∷ es) =
    relay-connector (connected_to c host_port fd).0 host_port es

pub view-note :
    (n : ℕ) (c : Client) (host_port : Text) (r : Connector × List Connector.Effect)
    → view (note n c host_port r) ≡ Connector.World.note n r
unfolding note
view-note n c host_port r = rw (relay-connector (record c { connector = r.0 }) host_port r.1) refl

-- A step of the connector that does not connect.
abbrev pub Attempting : Connector × List Connector.Effect → Type 0
Attempting r =
    (r.0.state ≢ connected)
    × ((k : Client) (host_port : Text) → (relay k host_port r.1).0.connection ≡ k.connection)

pub start_in_loop-attempts :
    (c : Connector) (sockfd : ℕ) (errno : Errno) (r : Connector × List Connector.Effect)
    → start_in_loop c sockfd errno ≡ ok r
    → Attempting r
unfolding start_in_loop on_connect start_connecting retry relay
start_in_loop-attempts c sockfd errno r h = ground (arith, h)

pub handle_error-attempts :
    (c : Connector) (r : Connector × List Connector.Effect) → handle_error c ≡ ok r → Attempting r
unfolding handle_error remove_and_reset_channel retry relay
handle_error-attempts c r h = ground (arith, h)

-- Where an error was handled, a write that follows does nothing.
pub handle_write-error :
    (c : Connector) (self : Bool) (r : Connector × List Connector.Effect)
    → handle_error c ≡ ok r
    → handle_write r.0 self ≡ ok (r.0, [])
unfolding handle_error handle_write remove_and_reset_channel retry
handle_write-error c self r h = ground (arith, h)

pub handle_write-attempts :
    (c : Connector) (r : Connector × List Connector.Effect)
    → handle_write c true ≡ ok r
    → c.state ≡ connecting
    → Attempting r
unfolding handle_write remove_and_reset_channel on_writable retry relay
handle_write-attempts c r h e = ground (arith, h)

pub handle_write-connects :
    (c : Connector) (r : Connector × List Connector.Effect)
    → handle_write c false ≡ ok r
    → c.state ≡ connecting
    → (r.0.state ≡ connected) × (is_reset r.1 ≡ true)
unfolding handle_write remove_and_reset_channel on_writable
handle_write-connects c r h e = ground (arith, h)

pub note-IsServed :
    (n : ℕ) (c : Client) (host_port : Text) (r : Connector × List Connector.Effect)
    → Connector.Safety.IsSafe (Connector.World.note n r)
    → Attempting r
    → c.connection ≡ none
    → IsServed (note n c host_port r)
note-IsServed n c host_port r safe (idle, same) e = record {
  safe = subst Connector.Safety.IsSafe (sym (view-note n c host_port r)) safe;
  current = unfold note in inl (same (record c { connector = r.0 }) host_port ∙ e);
  cleared =
      unfold note in
      λ h. absurd (idle (sym (ap Connector.state (relay-connector _ host_port r.1)) ∙ h));
}

pub none_of :
    (s : System) → IsServed s → s.client.connector.state ≢ connected → s.client.connection ≡ none
none_of s v h = elim v.current [ inl e ↦ e | inr e ↦ absurd (h e) ]
