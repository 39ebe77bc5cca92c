-- ===== src/Hub/Messages.antt =====
-- The loop of `onMessage`: that it ends, and a message from the bytes to the listeners.
use summer.Prelude.{
  ℕ, zero, suc, ◌+◌, ◌≤◌, ◌<◌, ◌≡◌, refl, sym, ap, ◌∙◌, arith, Bool-cases, ◌==◌, if◌then◌else◌,
  List, [], ◌++◌, append-nil, Option, some, Option-cases, Outcome, ok, invalid, Returns, inl, inr,
  subst, ◌⊎◌, length, take, drop, length-drop, map,
}
use summer.Buffer.{Buffer, content, search_crlf}
use summer.Buffer.Invariant.{IsValid}
use summer.Buffer.Search.{NoCr, search_crlf-le}
use summer.Codec.{success, proceed, Message, pub_cmd, same, find_byte, parse_message}
use summer.Codec.Lines.{
  Line, wait, malformed, undefined, command, publish, read_publish, read_words, read_command,
  read_line, Takes, Meets, parse_message-Meets,
}
use summer.Codec.Requests.{publish_request}
use summer.Codec.RoundTrip.{parse_message-publish}
use summer.Hub.{Text, Server, Effect, sent, get_topic, do_publish, dispatch, on_message}
use summer.Hub.Audience.{deliveries}
use summer.Hub.Subscriptions.{subscribed, dispatch-contexts, do_publish_lem}
use summer.Hub.Subscriptions

-- A line that is read takes at least one byte and no more than there are.
abbrev Bounded : List ℕ → Line → Type 0
Bounded xs wait = Unit {0}
Bounded xs malformed = Unit {0}
Bounded xs undefined = Unit {0}
Bounded xs (command cmd topic n) = (1 ≤ n) × (n ≤ length xs)
Bounded xs (publish cmd topic text n) = (1 ≤ n) × (n ≤ length xs)

read_publish-Bounded :
    (xs cmd topic : List ℕ) (k : ℕ) → k + 2 ≤ length xs → Bounded xs (read_publish xs cmd topic k)
unfolding read_publish
read_publish-Bounded xs cmd topic k h = elim (Option-cases (search_crlf (drop (k + 2) xs))) [
  | inl e ↦ rw (Bounded, e) tt
  | inr (j, e) ↦
      rw (Bounded, e) (omega (arith, search_crlf-le (drop (k + 2) xs) e, length-drop (k + 2) xs))
]

read_words-Bounded : (xs : List ℕ) (k sp : ℕ) → k + 2 ≤ length xs → Bounded xs (read_words xs k sp)
unfolding read_words
read_words-Bounded xs k sp h = elim (Bool-cases (same (take sp xs) pub_cmd)) [
  | inl e ↦ rw (Bounded, e) (read_publish-Bounded xs _ _ k h)
  | inr e ↦ rw (Bounded, e) (omega arith)
]

read_command-Bounded : (xs : List ℕ) (k : ℕ) → k + 2 ≤ length xs → Bounded xs (read_command xs k)
unfolding read_command
read_command-Bounded xs k h = elim (Bool-cases (find_byte b' ' (take k xs) == k)) [
  | inl e ↦ rw (Bounded, e) tt
  | inr e ↦ rw (Bounded, e) (read_words-Bounded xs k _ h)
]

read_line-Bounded : (xs : List ℕ) → Bounded xs (read_line xs)
unfolding read_line
read_line-Bounded xs = elim (Option-cases (search_crlf xs)) [
  | inl e ↦ rw (Bounded, e) tt
  | inr (k, e) ↦ rw (Bounded, e) (read_command-Bounded xs k (search_crlf-le xs e))
]

-- The call ends: the parser meets the null pointer, or there is a result.
abbrev pub Ends : Outcome (Option (Server × Buffer × List Effect)) → Type 0
Ends o = (o ≡ invalid) ⊎ Returns (λ r. (q : Server × Buffer × List Effect) × (r ≡ some q)) o

-- The parser answers `success` and the bytes get fewer.
abbrev Shrinks : Buffer → Message → Type 0
Shrinks b m =
    Returns (λ p. (p.0 ≡ success) × IsValid p.2 × (length (content p.2) < length (content b)))
      (parse_message b m)

shrinks :
    (b : Buffer) (m m' : Message) (n : ℕ)
    → 1 ≤ n
    → n ≤ length (content b)
    → Takes b m' n (parse_message b m)
    → Shrinks b m
shrinks b m m' n h k (p, run, f) =
    (p, run, (f.0, f.2, omega (arith, ap length f.3, length-drop n (content b))))

module _ (clock : ℕ → ℕ) (n : ℕ) (s : Server) (conn : ℕ) (context : List Text) (b : Buffer)
    (m : Message) where
  -- A round ends where the rounds behind it do.
  round-Ends :
      IsValid b
      → s.contexts conn ≡ some context
      → ((t : Server) (b' : Buffer) (m' : Message)
          → IsValid b'
          → t.contexts conn ≡ some context
          → length (content b') < length (content b)
          → Ends (on_message clock n t conn b' m'))
      → Ends (on_message clock (suc n) s conn b m)
  unfolding on_message
  round-Ends v e behind =
      by_line (read_line (content b)) (parse_message-Meets b m v) (read_line-Bounded (content b))
    where
      goes_on : Shrinks b m → Ends (on_message clock (suc n) s conn b m)
      goes_on ((r, m', b'), run, f) =
          let (t, ran, kept) = dispatch-contexts s conn m' (clock n) context e in
          elim (behind t.0 b' m' f.1 (ap (λ c. c conn) kept ∙ e) f.2) [
            | inl undef ↦ inl (rw (run, f.0, ran, undef) refl)
            | inr (o, returned, (q, is_some)) ↦
                inr (
                  some (q.0, q.1, t.1 ++ q.2),
                  rw (run, f.0, ran, returned, is_some) refl,
                  (_, refl),
                )
          ]

      by_line :
          (l : Line)
          → Meets b m l (parse_message b m)
          → Bounded (content b) l
          → Ends (on_message clock (suc n) s conn b m)
      by_line wait run k = inr (some (s, b, []), rw run refl, (_, refl))
      by_line malformed run k = inr (some (s, b, []), rw run refl, (_, refl))
      by_line undefined run k = inl (rw run refl)
      by_line (command cmd topic taken) run k = goes_on (shrinks b m _ taken k.0 k.1 run)
      by_line (publish cmd topic text taken) run k = goes_on (shrinks b m _ taken k.0 k.1 run)

-- The loop of `onMessage` ends on every valid buffer, a round for each byte and one more being
-- enough: for a connection whose context is set, the call returns or the parser uses its null pointer.
pub on_message-Ends :
    (clock : ℕ → ℕ) (fuel : ℕ) (s : Server) (conn : ℕ) (context : List Text) (b : Buffer)
    (m : Message)
    → IsValid b
    → s.contexts conn ≡ some context
    → length (content b) < fuel
    → Ends (on_message clock fuel s conn b m)
on_message-Ends clock zero s conn context b m v e h = absurd (omega arith)
on_message-Ends clock (suc n) s conn context b m v e h =
    round-Ends clock n s conn context b m v e
      (λ t b' m' w f lt. on_message-Ends clock n t conn context b' m' w f (omega arith))

-- An empty buffer makes the parser wait.
waits-empty :
    (b : Buffer) (m : Message) → IsValid b → content b ≡ [] → parse_message b m ≡ ok (proceed, m, b)
unfolding read_line search_crlf
waits-empty b m v e =
    subst (λ xs. Meets b m (read_line xs) (parse_message b m)) e (parse_message-Meets b m v)

-- Two rounds: one that publishes, and one that finds nothing more.
publish_round :
    (clock : ℕ → ℕ) (n : ℕ) (s : Server) (conn : ℕ) (b b' : Buffer) (m : Message)
    (topic text : Text)
    → let m' : Message = record { cmd = pub_cmd; topic = topic; content = text } in
      let published = do_publish s topic text (clock (suc n)) in
      parse_message b m ≡ ok (success, m', b')
      → parse_message b' m' ≡ ok (proceed, m', b')
      → on_message clock (suc (suc n)) s conn b m ≡ ok (some (published.0, b', published.1))
unfolding on_message dispatch same
publish_round clock n s conn b b' m topic text run done =
    rw (run, done, append-nil (do_publish s topic text (clock (suc n))).1) refl

-- On a valid server, a valid buffer that holds one message as the clients write it, with no CR in its
-- topic or text: the server sends just this message to each connection of the topic's audience, so that
-- each that listens gets it once and no other gets anything; no subscription changes, and the buffer is
-- empty afterwards.
pub on_message-publish :
    (clock : ℕ → ℕ) (n : ℕ) (s : Server) (conn : ℕ) (b : Buffer) (m : Message) (topic text : Text)
    → IsValid b
    → Subscriptions.IsValid s
    → NoCr topic
    → NoCr text
    → content b ≡ publish_request topic text
    → Returns
        (λ r.
          (q : Server × Buffer × List Effect) × (r ≡ some q)
          × (content q.1 ≡ [])
          × (q.2
              ≡ map (λ d. sent d (publish_request topic text)) (get_topic s.topics topic).audiences)
          × ((d : ℕ) → deliveries d q.2 ≡ (if subscribed s d topic then 1 else 0))
          × ((d : ℕ) (j : Text) → subscribed q.0 d j ≡ subscribed s d j))
        (on_message clock (suc (suc n)) s conn b m)
on_message-publish clock n s conn b m topic text v w tl xl e =
    let m' : Message = record { cmd = pub_cmd; topic = topic; content = text } in
    let ((r, m'', b'), run, f) =
      parse_message-publish b m v topic text [] tl xl
        (e ∙ sym (append-nil (publish_request topic text))) in
    let told = do_publish_lem s topic text (clock (suc n)) w in
    let known = do_publish s topic text (clock (suc n)) in
    (
      some (known.0, b', known.1),
      publish_round clock n s conn b b' m topic text (run ∙ λ i. ok (f.0 i, f.1 i, b'))
          (waits-empty b' m' f.2 f.3),
      ((known.0, b', known.1), refl, f.3, told.3, told.2, told.1),
    )
