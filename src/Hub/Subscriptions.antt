-- ===== src/Hub/Subscriptions.antt =====
-- Who listens to which topic: subscribing, leaving and publishing, and what closing misses.
use summer.Prelude.{
  ℕ, ◌≡◌, refl, ap, ◌∙◌, arith, Bool, true, false, not, ◌&&◌, ◌||◌, ◌==◌, ltb, if◌then◌else◌, List,
  [], ◌∷◌, map, some, Outcome, ok, ◌>>=◌, Returns, Bool-cases, inl, inr, subst,
}
use summer.Codec.{same, Message, pub_cmd}
use summer.Codec.Requests.{publish_request, sub_cmd, unsub_cmd}
use summer.Hub.{
  Text, Topic, Server, Effect, sent, insert, erase, add, remove, publish, get_topic, put_topic,
  do_subscribe, do_un_subscribe, do_publish, un_subscribe_all, set_context, on_connection,
  make_message, dispatch,
}
use summer.Hub.Audience.{
  has, Ascending, has-insert, has-erase, insert-Ascending, erase-Ascending, deliveries,
  deliveries-map,
}
use summer.Hub.Topics.{get_topic-put_topic, same_iff, eq_of_same}

-- A topic bears its name, and its audience is a set.
abbrev pub IsTopic : Text → Topic → Type 0
IsTopic name t = (t.name ≡ name) × Ascending 0 t.audiences

abbrev pub IsValid : Server → Type 0
IsValid s = (name : Text) → IsTopic name (get_topic s.topics name)

abbrev pub subscribed : Server → ℕ → Text → Bool
subscribed s conn topic = has conn (get_topic s.topics topic).audiences

-- A server whose topics changed under one name.
pub put-IsValid :
    (s : Server) (name : Text) (t : Topic)
    → IsValid s
    → IsTopic name t
    → IsValid (record s { topics = put_topic s.topics name t })
put-IsValid s name t v h other =
    rw (get_topic-put_topic s.topics name other t) (elim (Bool-cases (same name other)) [
      | inl e ↦ rw e (subst (λ n. IsTopic n t) (eq_of_same name other e) h)
      | inr e ↦ rw e (v other)
    ])

-- The last message of a topic that has one goes to a new listener.
abbrev pub greeting : Server → ℕ → Text → List Effect
greeting s conn topic =
    if ltb 0 (get_topic s.topics topic).last_pub_time
    then sent conn (publish_request topic (get_topic s.topics topic).text) ∷ []
    else []

-- Subscribing adds the one connection to the audience of the one topic and changes no other
-- subscription; the connection gets the topic's last message if there is one, and nothing else is sent.
pub do_subscribe_lem :
    (s : Server) (conn : ℕ) (topic : Text) (context : List Text)
    → IsValid s
    → s.contexts conn ≡ some context
    → Returns
        (λ r.
          IsValid r.0
          × ((d : ℕ) (j : Text)
              → subscribed r.0 d j ≡ (same topic j && d == conn || subscribed s d j))
          × (r.1 ≡ greeting s conn topic))
        (do_subscribe s conn topic)
unfolding do_subscribe add
do_subscribe_lem s conn topic context v e =
    let t = get_topic s.topics topic in
    let t' : Topic = record t { audiences = insert conn t.audiences } in
    (
      (
        record s { topics = put_topic s.topics topic t' },
        if ltb 0 t.last_pub_time then sent conn (make_message t) ∷ [] else [],
      ),
      rw e refl,
      (
        put-IsValid s topic t' v
            ((v topic).0, insert-Ascending 0 conn t.audiences (omega arith) (v topic).1),
        λ d j. ground (
          arith,
          get_topic-put_topic s.topics topic j t',
          same_iff topic j,
          has-insert d conn t.audiences,
        ),
        ap (λ n. if ltb 0 t.last_pub_time then sent conn (publish_request n t.text) ∷ [] else [])
            (v topic).0,
      ),
    )

-- Unsubscribing takes the one connection off the audience of the one topic and changes no other
-- subscription.
pub do_un_subscribe_lem :
    (s : Server) (conn : ℕ) (topic : Text) (context : List Text)
    → IsValid s
    → s.contexts conn ≡ some context
    → Returns
        (λ r.
          IsValid r
          × ((d : ℕ) (j : Text)
              → subscribed r d j ≡ (not (same topic j && d == conn) && subscribed s d j)))
        (do_un_subscribe s conn topic)
unfolding do_un_subscribe remove
do_un_subscribe_lem s conn topic context v e =
    let t = get_topic s.topics topic in
    let t' : Topic = record t { audiences = erase conn t.audiences } in
    (
      record s { topics = put_topic s.topics topic t' },
      rw e refl,
      (
        put-IsValid s topic t' v ((v topic).0, erase-Ascending 0 conn t.audiences (v topic).1),
        λ d j. ground (
          arith,
          get_topic-put_topic s.topics topic j t',
          same_iff topic j,
          has-erase 0 d conn t.audiences (v topic).1,
        ),
      ),
    )

-- Publishing sends the message once to each connection that listens to the topic and to no other,
-- and changes no subscription.
pub do_publish_lem :
    (s : Server) (topic text : Text) (now : ℕ)
    → IsValid s
    → let r = do_publish s topic text now in
      IsValid r.0
      × ((d : ℕ) (j : Text) → subscribed r.0 d j ≡ subscribed s d j)
      × ((d : ℕ) → deliveries d r.1 ≡ (if subscribed s d topic then 1 else 0))
      × (r.1
          ≡ map
              (λ conn. sent conn (publish_request topic text))
              (get_topic s.topics topic).audiences)
unfolding do_publish publish
do_publish_lem s topic text now v =
    let t = get_topic s.topics topic in
    let t' : Topic = record t { text = text; last_pub_time = now } in
    (
      put-IsValid s topic t' v (v topic),
      λ d j. ground (arith, get_topic-put_topic s.topics topic j t', same_iff topic j),
      λ d. deliveries-map 0 d (make_message t') t.audiences (v topic).1,
      ap (λ n. map (λ conn. sent conn (publish_request n text)) t.audiences) (v topic).0,
    )

-- The messages of one connection, one after the other, each with its time.
abbrev pub dispatch_all : Server → ℕ → List (Message × ℕ) → Outcome Server
dispatch_all s conn [] = ok s
dispatch_all s conn ((m, now) ∷ ms) = do r ← dispatch s conn m now; dispatch_all r.0 conn ms

-- No message changes a context.
pub dispatch-contexts :
    (s : Server) (conn : ℕ) (m : Message) (now : ℕ) (context : List Text)
    → s.contexts conn ≡ some context
    → Returns (λ r. r.0.contexts ≡ s.contexts) (dispatch s conn m now)
unfolding dispatch do_subscribe do_un_subscribe do_publish
dispatch-contexts s conn m now context e = elim (Bool-cases (same m.cmd pub_cmd)) [
  | inl p ↦ rw (Returns, dispatch, p) (_, refl, refl)
  | inr p ↦ elim (Bool-cases (same m.cmd sub_cmd)) [
    | inl q ↦ rw (Returns, dispatch, p, q, e) (_, refl, refl)
    | inr q ↦ elim (Bool-cases (same m.cmd unsub_cmd)) [
      | inl r ↦ rw (Returns, dispatch, p, q, r, e) (_, refl, refl)
      | inr r ↦ rw (Returns, dispatch, p, q, r) (_, refl, refl)
    ]
  ]
]

dispatch_all-contexts :
    (s : Server) (conn : ℕ) (ms : List (Message × ℕ)) (context : List Text)
    → s.contexts conn ≡ some context
    → Returns (λ s'. s'.contexts conn ≡ some context) (dispatch_all s conn ms)
dispatch_all-contexts s conn [] context e = (s, refl, e)
dispatch_all-contexts s conn ((m, now) ∷ ms) context e =
    let (r, run, same_contexts) = dispatch-contexts s conn m now context e in
    let (s', rest, f) =
      dispatch_all-contexts r.0 conn ms context (ap (λ c. c conn) same_contexts ∙ e) in
    (s', rw run rest, f)

-- A connection that opens and then sends any messages, its subscriptions included, leaves the server
-- unchanged when it closes: closing takes it out of no audience.
pub on_connection-leaves :
    (s : Server) (conn : ℕ) (ms : List (Message × ℕ))
    → Returns
        (λ s'. on_connection s' conn false ≡ ok s')
        (do opened ← on_connection s conn true; dispatch_all opened conn ms)
unfolding on_connection un_subscribe_all set_context
on_connection-leaves s conn ms =
    let (s', run, e) = dispatch_all-contexts (set_context s conn []) conn ms [] (ground arith) in
    (s', run, rw e refl)
