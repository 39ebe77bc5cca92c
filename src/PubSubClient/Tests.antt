-- ===== src/PubSubClient/Tests.antt =====
-- Runs of the client, and the theorem about it at such a buffer.
use summer.Prelude.{
  ℕ, ◌+◌, ◌≡◌, refl, arith, true, false, List, [], ◌∷◌, ◌++◌, map, some, Returns, length, replicate,
}
use summer.Buffer.{Buffer, content}
use summer.Codec.Requests.{publish_request}
use summer.PubSubClient.{
  Text, Client, Effect, sent, delivered, on_message, connected, send, publish, un_subscribe,
}
use summer.PubSubClient.Deliveries.{stream_of, on_message-delivers}

abbrev client : Client
client = record { conn = some 4; has_connection_callback = false; has_subscribe_callback = true }

abbrev messages : List (Text × Text)
messages = (b'a' ∷ [], b'x' ∷ []) ∷ (b'b' ∷ [], b'y' ∷ b'z' ∷ []) ∷ []

-- A buffer that holds a text behind its prepend space.
abbrev holding : List ℕ → Buffer
holding xs = record { bytes = replicate 8 0 ++ xs; read_index = 8; write_index = 8 + length xs }

on_message-delivers_example :
    Returns
      (λ r.
        (q : Buffer × List Effect) × (r ≡ some q)
        × (content q.0 ≡ [])
        × (q.1 ≡ map (λ m. delivered m.0 m.1) messages))
      (on_message 3 client 4 (holding (stream_of messages)))
unfolding publish_request
on_message-delivers_example =
    on_message-delivers 3 client 4 (holding (stream_of messages)) messages refl (omega arith)
      (omega arith) refl (omega arith)

publishes :
    publish (λ conn. true) client (b'a' ∷ []) [] ≡ sent 4 (publish_request (b'a' ∷ []) []) ∷ []
unfolding publish send connected
publishes = refl

drops : un_subscribe (λ conn. false) client (b'a' ∷ []) ≡ []
unfolding un_subscribe send connected
drops = refl
