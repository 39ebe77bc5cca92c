-- ===== src/Codec/RoundTrip.antt =====
-- The parser gives back the requests of Requests.antt.
use summer.Prelude.{
  ℕ, ◌+◌, ◌≡◌, refl, ap, sym, ◌∙◌, arith, false, List, [], ◌∷◌, ◌++◌, append_assoc, some, none,
  subst, length, take, drop, length-append, take-append, drop-append, drop-drop, Returns, invalid,
}
use summer.Buffer.{Buffer, content, search_crlf}
use summer.Buffer.Invariant.{IsValid}
use summer.Buffer.Search.{NoCr, search_crlf-append, search_crlf-none}
use summer.Codec.{Message, success, pub_cmd, same, parse_message}
use summer.Codec.Lines.{
  command, publish, undefined, read_publish, read_line, Meets, parse_message-Meets,
}
use summer.Codec.Requests.{crlf, publish_request}
use summer.Codec.Reading.{NoSpace, input, size, rest_of, read_line-input}

read_publish_of :
    (xs cmd topic rest : List ℕ) (k j : ℕ)
    → drop (k + 2) xs ≡ rest
    → search_crlf rest ≡ some j
    → read_publish xs cmd topic k ≡ publish cmd topic (take j rest) (k + 2 + j + 2)
unfolding read_publish
read_publish_of xs cmd topic rest k j e f =
    rw (e, f, read_publish) (ap (λ t. publish cmd topic (take j t) (k + 2 + j + 2)) e)

read_publish-none :
    (xs cmd topic rest : List ℕ) (k : ℕ)
    → drop (k + 2) xs ≡ rest
    → search_crlf rest ≡ none
    → read_publish xs cmd topic k ≡ undefined
unfolding read_publish
read_publish-none xs cmd topic rest k e f = ground arith

publish_request_shape :
    (topic text rest : List ℕ)
    → publish_request topic text ++ rest
      ≡ (pub_cmd ++ (b' ' ∷ topic)) ++ (13 ∷ 10 ∷ (text ++ (13 ∷ 10 ∷ rest)))
unfolding publish_request
publish_request_shape topic text rest = simp append_assoc

pub_words : NoSpace pub_cmd
pub_words = omega arith

pub_line : NoCr pub_cmd
pub_line = omega arith

-- The first line of a message, and what is behind it.
module _ (topic behind : List ℕ) (tl : NoCr topic) where
  message : List ℕ
  message = input pub_cmd topic behind pub_words pub_line tl

  first : ℕ
  first = size pub_cmd topic behind pub_words pub_line tl

  read_line-message : read_line message ≡ read_publish message pub_cmd topic first
  unfolding message first same
  read_line-message = read_line-input pub_cmd topic behind pub_words pub_line tl

  message_rest : drop (first + 2) message ≡ behind
  unfolding message first
  message_rest = rest_of pub_cmd topic behind pub_words pub_line tl

module _ (b : Buffer) (m : Message) (v : IsValid b) where
  -- A command other than `pub`, sent as one line, is parsed to itself, and what follows it is left.
  pub parse_message-command :
      (cmd topic rest : List ℕ)
      → NoSpace cmd
      → NoCr cmd
      → NoCr topic
      → same cmd pub_cmd ≡ false
      → content b ≡ (cmd ++ (b' ' ∷ topic)) ++ (crlf ++ rest)
      → Returns
          (λ p.
            (p.0 ≡ success)
            × (p.1 ≡ record m { cmd = cmd; topic = topic })
            × IsValid p.2
            × (content p.2 ≡ rest))
          (parse_message b m)
  parse_message-command cmd topic rest w cl tl other e =
      let (p, run, f) =
        subst (λ l. Meets b m l (parse_message b m)) line (parse_message-Meets b m v) in
      (
        p,
        run,
        (
          f.0,
          f.1,
          f.2,
          f.3 ∙ ap (drop (size cmd topic rest w cl tl + 2)) whole ∙ rest_of cmd topic rest w cl tl,
        ),
      )
    where
      whole : content b ≡ input cmd topic rest w cl tl
      whole = unfold input in e

      line : read_line (content b) ≡ command cmd topic (size cmd topic rest w cl tl + 2)
      line = ap read_line whole ∙ read_line-input cmd topic rest w cl tl ∙ rw other

  -- A message as the hub and its clients write it is parsed to itself, and what follows is left.
  pub parse_message-publish :
      (topic text rest : List ℕ)
      → NoCr topic
      → NoCr text
      → content b ≡ publish_request topic text ++ rest
      → Returns
          (λ p.
            (p.0 ≡ success)
            × (p.1 ≡ record { cmd = pub_cmd; topic = topic; content = text })
            × IsValid p.2
            × (content p.2 ≡ rest))
          (parse_message b m)
  parse_message-publish topic text rest tl xl e =
      let (p, run, f) =
        subst (λ l. Meets b m l (parse_message b m)) line (parse_message-Meets b m v) in
      (p, run, (f.0, f.1, f.2, f.3 ∙ left))
    where
      behind : List ℕ
      behind = text ++ (13 ∷ 10 ∷ rest)

      k : ℕ
      k = first topic behind tl

      whole : content b ≡ message topic behind tl
      whole = unfold message input in (e ∙ publish_request_shape topic text rest)

      line : read_line (content b) ≡ publish pub_cmd topic text (k + 2 + length text + 2)
      line =
          ap read_line whole
          ∙ read_line-message topic behind tl
          ∙ read_publish_of (message topic behind tl) pub_cmd topic behind k (length text)
              (message_rest topic behind tl) (search_crlf-append text rest xl)
          ∙ ap (λ t. publish pub_cmd topic t (k + 2 + length text + 2))
              (take-append (length text) text _ refl)

      left : drop (k + 2 + length text + 2) (content b) ≡ rest
      left =
          ap (drop (k + 2 + length text + 2)) whole
          ∙ ap (λ n. drop n (message topic behind tl)) (omega arith)
          ∙ sym (drop-drop (length text + 2) (k + 2) (message topic behind tl))
          ∙ ap (drop (length text + 2)) (message_rest topic behind tl)
          ∙ ap (drop (length text + 2)) (sym (append_assoc text (13 ∷ 10 ∷ []) rest))
          ∙ drop-append (length text + 2) (text ++ (13 ∷ 10 ∷ [])) rest
              (omega (arith, length-append text (13 ∷ 10 ∷ [])))

  -- The first line of a message without the end of the second makes the parser use a null pointer.
  pub parse_message-invalid :
      (topic text : List ℕ)
      → NoCr topic
      → NoCr text
      → content b ≡ (pub_cmd ++ (b' ' ∷ topic)) ++ (crlf ++ text)
      → parse_message b m ≡ invalid
  parse_message-invalid topic text tl xl e =
      subst (λ l. Meets b m l (parse_message b m)) line (parse_message-Meets b m v)
    where
      whole : content b ≡ message topic text tl
      whole = unfold message input in e

      line : read_line (content b) ≡ undefined
      line =
          ap read_line whole
          ∙ read_line-message topic text tl
          ∙ read_publish-none (message topic text tl) pub_cmd topic text (first topic text tl)
              (message_rest topic text tl) (search_crlf-none text xl)
