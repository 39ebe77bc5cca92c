-- ===== src/PubSubClient.antt =====
-- The client of net/hub/pubsub.h and net/hub/pubsub.cc. A connection is a number; whether a connection
-- is connected is an argument. The texts of the requests are in Codec/Requests.
pub mod Deliveries
mod Tests
use summer.Prelude.{
  ℕ, zero, suc, Bool, true, false, ◌&&◌, if◌then◌else◌, List, [], ◌∷◌, ◌++◌, Option, none, some,
  Outcome, ok, ◌>>=◌,
}
use summer.Buffer.{Buffer}
use summer.Codec.{success, proceed, error, Message, pub_cmd, same, parse_message}
use summer.Codec.Requests.{subscribe_request, unsubscribe_request, publish_request}

abbrev pub Text : Type 0
Text = List ℕ

-- `conn_`, and which callbacks are set.
pub record Client : Type 0 where
  pub conn : Option ℕ
  pub has_connection_callback : Bool
  pub has_subscribe_callback : Bool

pub data Effect : Type 0 where
  -- `conn_->send(message)`
  sent : ℕ → Text → Effect
  -- `conn->shutdown()`
  shut : ℕ → Effect
  -- the callbacks
  called_connection : Effect
  delivered : Text → Text → Effect

unfoldable pub on_connection : Client → ℕ → Bool → Client × List Effect
on_connection c conn is_connected = (
  record c { conn = if is_connected then some conn else none },
  if c.has_connection_callback then called_connection ∷ [] else [],
)

-- What `onMessage` does with a message.
unfoldable pub deliver : Client → Message → List Effect
deliver c m =
    if same m.cmd pub_cmd && c.has_subscribe_callback then delivered m.topic m.content ∷ [] else []

-- The strings of a round.
abbrev pub blank : Message
blank = record { cmd = []; topic = []; content = [] }

-- The loop of `onMessage`; `none` means that the fuel ran out.
unfoldable pub on_message : ℕ → Client → ℕ → Buffer → Outcome (Option (Buffer × List Effect))
on_message zero c conn b = ok none
on_message (suc n) c conn b = do
  p ← parse_message b blank
  elim p.0 [
    | success ↦ (do
      rest ← on_message n c conn p.2
      ok (elim rest [ none ↦ none | some q ↦ some (q.0, deliver c p.1 ++ q.1) ]))
    | proceed ↦ ok (some (p.2, []))
    | error ↦ ok (some (p.2, shut conn ∷ []))
  ]

abbrev pub connected_by : (ℕ → Bool) → Option ℕ → Bool
connected_by is_connected none = false
connected_by is_connected (some conn) = is_connected conn

unfoldable pub connected : (ℕ → Bool) → Client → Bool
connected is_connected c = connected_by is_connected c.conn

abbrev pub send_to : Option ℕ → Text → List Effect
send_to none message = []
send_to (some conn) message = sent conn message ∷ []

unfoldable pub send : (ℕ → Bool) → Client → Text → Bool × List Effect
send is_connected c message =
    if connected is_connected c then (true, send_to c.conn message) else (false, [])

unfoldable pub subscribe : (ℕ → Bool) → Client → Text → List Effect
subscribe is_connected c topic = (send is_connected c (subscribe_request topic)).1

unfoldable pub un_subscribe : (ℕ → Bool) → Client → Text → List Effect
un_subscribe is_connected c topic = (send is_connected c (unsubscribe_request topic)).1

unfoldable pub publish : (ℕ → Bool) → Client → Text → Text → List Effect
publish is_connected c topic content = (send is_connected c (publish_request topic content)).1
