-- ===== src/Codec/Requests.antt =====
-- The requests that net/hub/pubsub.cc sends and the message that net/hub/hub.cc makes.
use summer.Prelude.{ℕ, List, [], ◌∷◌, ◌++◌}
use summer.Codec.{pub_cmd}

abbrev pub crlf : List ℕ
crlf = 13 ∷ 10 ∷ []

abbrev pub sub_cmd : List ℕ
sub_cmd = b's' ∷ b'u' ∷ b'b' ∷ []

abbrev pub unsub_cmd : List ℕ
unsub_cmd = b'u' ∷ b'n' ∷ b's' ∷ b'u' ∷ b'b' ∷ []

-- The texts of `PubSubClient::subscribe`, `unSubscribe` and `publish`.
unfoldable pub subscribe_request : List ℕ → List ℕ
subscribe_request topic = (sub_cmd ++ (b' ' ∷ topic)) ++ crlf

unfoldable pub unsubscribe_request : List ℕ → List ℕ
unsubscribe_request topic = (unsub_cmd ++ (b' ' ∷ topic)) ++ crlf

unfoldable pub publish_request : List ℕ → List ℕ → List ℕ
publish_request topic text = ((pub_cmd ++ (b' ' ∷ topic)) ++ crlf) ++ (text ++ crlf)
