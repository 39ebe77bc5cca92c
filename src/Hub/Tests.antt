-- ===== src/Hub/Tests.antt =====
-- Runs of the hub, and the theorems about it at such servers.
use summer.Prelude.{
  map, ℕ, ◌≡◌, refl, arith, true, false, ◌&&◌, ◌||◌, ◌==◌, if◌then◌else◌, List, [], ◌∷◌, ◌++◌, ◌+◌,
  Option, none, some, ok, ◌>>=◌, Returns, length, replicate,
}
use summer.Buffer.{Buffer, content}
use summer.Codec.{Message, pub_cmd, same}
use summer.Codec.Requests.{publish_request, sub_cmd}
use summer.Hub.{
  Text, Topic, Server, Effect, sent, new_topic, get_topic, put_topic, do_subscribe, on_connection,
  on_message,
}
use summer.Hub.Audience.{deliveries}
use summer.Hub.Subscriptions.{
  IsValid, subscribed, greeting, put-IsValid, do_subscribe_lem, dispatch_all, on_connection-leaves,
}
use summer.Hub.Messages.{Ends, on_message-Ends, on_message-publish}

abbrev name_a : Text
name_a = b'a' ∷ []

-- Connections 2 and 5 listen to a topic that has had a message; 3 and 5 are open.
abbrev topic_a : Topic
topic_a = record { name = name_a; last_pub_time = 9; text = b'x' ∷ []; audiences = 2 ∷ 5 ∷ [] }

abbrev contexts_35 : ℕ → Option (List Text)
contexts_35 k = if k == 3 || k == 5 then some [] else none

abbrev empty_server : Server
empty_server = record { topics = []; contexts = contexts_35 }

abbrev server : Server
server = record { topics = put_topic [] name_a topic_a; contexts = contexts_35 }

server-IsValid : IsValid server
unfolding get_topic new_topic
server-IsValid = put-IsValid empty_server name_a topic_a (λ n. (refl, tt)) (refl, omega arith)

do_subscribe_example :
    Returns
      (λ r.
        IsValid r.0
        × ((d : ℕ) (j : Text)
            → subscribed r.0 d j ≡ (same name_a j && d == 3 || subscribed server d j))
        × (r.1 ≡ greeting server 3 name_a))
      (do_subscribe server 3 name_a)
do_subscribe_example = do_subscribe_lem server 3 name_a [] server-IsValid refl

greets : greeting server 3 name_a ≡ sent 3 (publish_request name_a (b'x' ∷ [])) ∷ []
unfolding get_topic put_topic same
greets = refl

abbrev subscribes : List (Message × ℕ)
subscribes = (record { cmd = sub_cmd; topic = name_a; content = [] }, 11) ∷ []

on_connection-leaves_example :
    Returns
      (λ s'. on_connection s' 3 false ≡ ok s')
      (do opened ← on_connection server 3 true; dispatch_all opened 3 subscribes)
on_connection-leaves_example = on_connection-leaves server 3 subscribes

-- A buffer that holds a text behind its prepend space.
abbrev holding : List ℕ → Buffer
holding xs = record { bytes = replicate 8 0 ++ xs; read_index = 8; write_index = 8 + length xs }

abbrev blank : Message
blank = record { cmd = []; topic = []; content = [] }

abbrev pub_a : List ℕ
pub_a = ((pub_cmd ++ (b' ' ∷ name_a)) ++ (13 ∷ 10 ∷ [])) ++ ((b'y' ∷ []) ++ (13 ∷ 10 ∷ []))

on_message-Ends_example : Ends (on_message (λ n. 20 + n) 12 server 3 (holding pub_a) blank)
on_message-Ends_example =
    on_message-Ends (λ n. 20 + n) 12 server 3 [] (holding pub_a) blank (omega arith) refl
      (omega arith)

on_message-publish_example :
    Returns
      (λ r.
        (q : Server × Buffer × List Effect) × (r ≡ some q)
        × (content q.1 ≡ [])
        × (q.2
            ≡ map
                (λ d. sent d (publish_request name_a (b'y' ∷ [])))
                (get_topic server.topics name_a).audiences)
        × ((d : ℕ) → deliveries d q.2 ≡ (if subscribed server d name_a then 1 else 0))
        × ((d : ℕ) (j : Text) → subscribed q.0 d j ≡ subscribed server d j))
      (on_message (λ n. 20 + n) 2 server 3 (holding pub_a) blank)
unfolding publish_request
on_message-publish_example =
    on_message-publish (λ n. 20 + n) 0 server 3 (holding pub_a) blank name_a (b'y' ∷ [])
      (omega arith) server-IsValid (omega arith) (omega arith) refl
