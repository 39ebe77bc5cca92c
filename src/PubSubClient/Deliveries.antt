-- ===== src/PubSubClient/Deliveries.antt =====
-- The messages that a hub has sent come to the callback of the client.
use summer.Prelude.{
  ℕ, zero, suc, ◌<◌, ◌≡◌, refl, ap, ◌∙◌, arith, subst, true, List, [], ◌∷◌, ◌++◌, map, some, ok,
  Returns, length,
}
use summer.Buffer.{Buffer, content, search_crlf}
use summer.Buffer.Invariant.{IsValid}
use summer.Buffer.Search.{NoCr}
use summer.Codec.{success, proceed, Message, pub_cmd, same, parse_message}
use summer.Codec.Lines.{read_line, Meets, parse_message-Meets}
use summer.Codec.Requests.{publish_request}
use summer.Codec.RoundTrip.{parse_message-publish}
use summer.PubSubClient.{Text, Client, Effect, delivered, blank, deliver, on_message}

abbrev pub AllPlain : List (Text × Text) → Type 0
AllPlain [] = Unit {0}
AllPlain ((topic, text) ∷ ms) = NoCr topic × NoCr text × AllPlain ms

-- The bytes of the messages, one behind the other.
abbrev pub stream_of : List (Text × Text) → Text
stream_of [] = []
stream_of ((topic, text) ∷ ms) = publish_request topic text ++ stream_of ms

round :
    (n : ℕ) (c : Client) (conn : ℕ) (b b' : Buffer) (m : Message) (q : Buffer × List Effect)
    → parse_message b blank ≡ ok (success, m, b')
    → on_message n c conn b' ≡ ok (some q)
    → on_message (suc n) c conn b ≡ ok (some (q.0, deliver c m ++ q.1))
unfolding on_message
round n c conn b b' m q run rest = rw (run, rest) refl

last_round :
    (n : ℕ) (c : Client) (conn : ℕ) (b : Buffer)
    → IsValid b
    → content b ≡ []
    → on_message (suc n) c conn b ≡ ok (some (b, []))
unfolding on_message read_line search_crlf
last_round n c conn b v e =
    let waits : parse_message b blank ≡ ok (proceed, blank, b) =
      subst (λ xs. Meets b blank (read_line xs) (parse_message b blank)) e
        (parse_message-Meets b blank v) in
    rw waits refl

deliver_pub :
    (c : Client) (topic text : Text)
    → c.has_subscribe_callback ≡ true
    → deliver c (record { cmd = pub_cmd; topic = topic; content = text })
      ≡ delivered topic text ∷ []
unfolding deliver same
deliver_pub c topic text h = rw h refl

-- Of a client with a subscribe callback, and a valid buffer that holds any number of messages as the
-- hub writes them, without a carriage return in a topic or a text: a round for each message and one
-- more are enough for `onMessage`, which calls the callback with each message, in order, leaves the
-- buffer empty and does nothing else.
pub on_message-delivers :
    (n : ℕ) (c : Client) (conn : ℕ) (b : Buffer) (ms : List (Text × Text))
    → c.has_subscribe_callback ≡ true
    → IsValid b
    → AllPlain ms
    → content b ≡ stream_of ms
    → length ms < n
    → Returns
        (λ r.
          (q : Buffer × List Effect) × (r ≡ some q)
          × (content q.0 ≡ [])
          × (q.1 ≡ map (λ m. delivered m.0 m.1) ms))
        (on_message n c conn b)
on_message-delivers zero c conn b ms h v plain e lt = absurd (omega arith)
on_message-delivers (suc n) c conn b [] h v plain e lt =
    (some (b, []), last_round n c conn b v e, ((b, []), refl, e, refl))
on_message-delivers (suc n) c conn b ((topic, text) ∷ ms) h v (tl, xl, plain) e lt =
    let m : Message = record { cmd = pub_cmd; topic = topic; content = text } in
    let ((r, m', b'), run, f) = parse_message-publish b blank v topic text (stream_of ms) tl xl e in
    let (o, rest, (q, is, empty, told)) =
      on_message-delivers n c conn b' ms h f.2 plain f.3 (omega arith) in
    (
      some (q.0, deliver c m ++ q.1),
      round n c conn b b' m q (run ∙ λ i. ok (f.0 i, f.1 i, b')) (rest ∙ ap ok is),
      (
        (q.0, deliver c m ++ q.1),
        refl,
        empty,
        ap (λ d. d ++ q.1) (deliver_pub c topic text h) ∙ ap (◌∷◌ (delivered topic text)) told,
      ),
    )
