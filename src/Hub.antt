-- ===== src/Hub.antt =====
-- The hub server of net/hub/hub.cc. A connection is a number, in the order of `std::set` over its
-- pointers; texts are lists of bytes; a handler returns the new server and the messages sent.
pub mod Audience
pub mod Topics
pub mod Subscriptions
pub mod Messages
mod Tests
use summer.Prelude.{
  ℕ, zero, suc, ◌+◌, Bool, true, false, ◌==◌, ltb, if◌then◌else◌, List, [], ◌∷◌, ◌++◌, map, Option,
  none, some, Outcome, ok, aborted, ◌>>=◌,
}
use summer.Buffer.{Buffer}
use summer.Codec.{ParseResult, success, proceed, error, Message, pub_cmd, same, parse_message}
use summer.Codec.Requests.{publish_request, sub_cmd, unsub_cmd}

abbrev pub Text : Type 0
Text = List ℕ

-- `lastPubTime` is in microseconds, and 0 is the invalid time stamp.
pub record Topic : Type 0 where
  pub name : Text
  pub last_pub_time : ℕ
  pub text : Text
  pub audiences : List ℕ

-- `conn->send(message)`
pub data Effect : Type 0 where
  sent : ℕ → Text → Effect

-- `std::set<TcpConnectionPtr>`, in ascending order.
unfoldable pub insert : ℕ → List ℕ → List ℕ
insert c [] = c ∷ []
insert c (x ∷ xs) = if ltb c x then c ∷ x ∷ xs else if c == x then x ∷ xs else x ∷ insert c xs

unfoldable pub erase : ℕ → List ℕ → List ℕ
erase c [] = []
erase c (x ∷ xs) = if c == x then xs else x ∷ erase c xs

unfoldable pub new_topic : Text → Topic
new_topic name = record { name = name; last_pub_time = 0; text = []; audiences = [] }

abbrev pub make_message : Topic → Text
make_message t = publish_request t.name t.text

unfoldable pub add : Topic → ℕ → Topic × List Effect
add t conn = (
  record t { audiences = insert conn t.audiences },
  if ltb 0 t.last_pub_time then sent conn (make_message t) ∷ [] else [],
)

unfoldable pub remove : Topic → ℕ → Topic
remove t conn = record t { audiences = erase conn t.audiences }

unfoldable pub publish : Topic → Text → ℕ → Topic × List Effect
publish t content timestamp =
    let t' = record t { text = content; last_pub_time = timestamp } in
    (t', map (λ conn. sent conn (make_message t')) t.audiences)

-- `topics_`, and the context of each connection: `none` before `setContext`.
pub record Server : Type 0 where
  pub topics : List (Text × Topic)
  pub contexts : ℕ → Option (List Text)

-- `topics_.find`, with the topic that `getTopic` makes where there is none.
unfoldable pub get_topic : List (Text × Topic) → Text → Topic
get_topic [] name = new_topic name
get_topic ((key, t) ∷ rest) name = if same key name then t else get_topic rest name

-- The topic goes back to its place, or to a new one.
unfoldable pub put_topic : List (Text × Topic) → Text → Topic → List (Text × Topic)
put_topic [] name t = (name, t) ∷ []
put_topic ((key, u) ∷ rest) name t =
    if same key name then (key, t) ∷ rest else (key, u) ∷ put_topic rest name t

-- `boost::any_cast`, which throws where no context is set. What it answers is a copy.
abbrev pub any_cast : Option (List Text) → Outcome (List Text)
any_cast none = aborted
any_cast (some topics) = ok topics

-- The set that `doSubscribe` and `doUnSubscribe` change is the copy of the context, which is dropped.
unfoldable pub do_subscribe : Server → ℕ → Text → Outcome (Server × List Effect)
do_subscribe s conn topic = do
  copy ← any_cast (s.contexts conn)
  let (t, es) = add (get_topic s.topics topic) conn
  ok (record s { topics = put_topic s.topics topic t }, es)

unfoldable pub do_un_subscribe : Server → ℕ → Text → Outcome Server
do_un_subscribe s conn topic = do
  copy ← any_cast (s.contexts conn)
  ok (record s { topics = put_topic s.topics topic (remove (get_topic s.topics topic) conn) })

unfoldable pub do_publish : Server → Text → Text → ℕ → Server × List Effect
do_publish s topic content timestamp =
    let (t, es) = publish (get_topic s.topics topic) content timestamp in
    (record s { topics = put_topic s.topics topic t }, es)

-- The loop of `onConnection` over the topics of the context.
unfoldable pub un_subscribe_all : Server → ℕ → List Text → Outcome Server
un_subscribe_all s conn [] = ok s
un_subscribe_all s conn (topic ∷ topics) = do
  s' ← do_un_subscribe s conn topic
  un_subscribe_all s' conn topics

unfoldable pub set_context : Server → ℕ → List Text → Server
set_context s conn topics = record s {
  contexts = λ k. if k == conn then some topics else s.contexts k;
}

unfoldable pub on_connection : Server → ℕ → Bool → Outcome Server
on_connection s conn true = ok (set_context s conn [])
on_connection s conn false = do topics ← any_cast (s.contexts conn); un_subscribe_all s conn topics

-- What `onMessage` does with a message, `now` being the time.
unfoldable pub dispatch : Server → ℕ → Message → ℕ → Outcome (Server × List Effect)
dispatch s conn m now =
    if same m.cmd pub_cmd
    then ok (do_publish s m.topic m.content now)
    else if same m.cmd sub_cmd
    then do_subscribe s conn m.topic
    else if same m.cmd unsub_cmd
    then (do s' ← do_un_subscribe s conn m.topic; ok (s', []))
    else ok (s, [])

-- The loop of `onMessage`; `none` means that the fuel ran out. The strings live across its rounds;
-- `clock n` is the time in the round with `n` rounds left.
unfoldable pub on_message :
    (ℕ → ℕ) → ℕ → Server → ℕ → Buffer → Message → Outcome (Option (Server × Buffer × List Effect))
on_message clock zero s conn b m = ok none
on_message clock (suc n) s conn b m = do
  p ← parse_message b m
  elim p.0 [
    | success ↦ (do
      r ← dispatch s conn p.1 (clock n)
      rest ← on_message clock n r.0 conn p.2 p.1
      ok (elim rest [ none ↦ none | some q ↦ some (q.0, q.1, r.1 ++ q.2) ]))
    | proceed ↦ ok (some (s, p.2, []))
    | error ↦ ok (some (s, p.2, []))
  ]
