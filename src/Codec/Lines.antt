-- ===== src/Codec/Lines.antt =====
-- What `parseMessage` reads, said of the waiting bytes as one list, with no buffer and no index.
use mathlib.Core.Option
use summer.Prelude.{
  ℕ, ◌+◌, ◌-◌, ◌≤◌, ◌<◌, ◌≡◌, refl, ap, ◌∙◌, inl, inr, arith, Bool-cases, ◌==◌, if◌then◌else◌, List,
  [], ◌∷◌, none, some, Option-cases, Outcome, ok, invalid, ◌>>=◌, Returns, length, take, drop,
  slice, length-take, length-drop,
}
use summer.Buffer.{Buffer, content, find_crlf_from, retrieve_until, search_crlf}
use summer.Buffer.Invariant.{IsValid}
use summer.Buffer.Contents.{retrieve_until_lem}
use summer.Buffer.Search.{search_crlf-le, find_crlf_lem, find_crlf_from_lem, slice-content}
use summer.Codec.{
  success, proceed, error, Message, pub_cmd, same, find_byte, Parsed, parse_publish, parse_words,
  parse_line, parse_message,
}

-- The number in `command` and `publish` is that of the bytes taken.
pub data Line : Type 0 where
  wait malformed undefined : Line
  command : List ℕ → List ℕ → ℕ → Line
  publish : List ℕ → List ℕ → List ℕ → ℕ → Line

unfoldable pub read_publish : List ℕ → List ℕ → List ℕ → ℕ → Line
read_publish xs cmd topic k = elim (search_crlf (drop (k + 2) xs)) [
  | none ↦ undefined
  | some j ↦ publish cmd topic (take j (drop (k + 2) xs)) (k + 2 + j + 2)
]

unfoldable pub read_words : List ℕ → ℕ → ℕ → Line
read_words xs k sp =
    let cmd = take sp xs in
    let topic = take (k - (sp + 1)) (drop (sp + 1) xs) in
    if same cmd pub_cmd then read_publish xs cmd topic k else command cmd topic (k + 2)

unfoldable pub read_command : List ℕ → ℕ → Line
read_command xs k =
    let sp = find_byte b' ' (take k xs) in if sp == k then malformed else read_words xs k sp

unfoldable pub read_line : List ℕ → Line
read_line xs = elim (search_crlf xs) [ none ↦ wait | some k ↦ read_command xs k ]

-- The strings are assigned, `n` bytes are taken, and the buffer stays valid.
abbrev pub Takes : Buffer → Message → ℕ → Outcome Parsed → Type 0
Takes b m n =
    Returns λ p. (p.0 ≡ success) × (p.1 ≡ m) × IsValid p.2 × (content p.2 ≡ drop n (content b))

abbrev pub Meets : Buffer → Message → Line → Outcome Parsed → Type 0
Meets b m wait o = o ≡ ok (proceed, m, b)
Meets b m malformed o = o ≡ ok (error, m, b)
Meets b m undefined o = o ≡ invalid
Meets b m (command cmd topic n) o = Takes b (record m { cmd = cmd; topic = topic }) n o
Meets b m (publish cmd topic text n) o =
    Takes b (record { cmd = cmd; topic = topic; content = text }) n o

find_byte-le : (c : ℕ) (xs : List ℕ) → find_byte c xs ≤ length xs
unfolding find_byte
find_byte-le c [] = omega arith
find_byte-le c (x ∷ xs) = ground (arith, find_byte-le c xs)

module _ (b : Buffer) (m : Message) (v : IsValid b) where
  -- What is left to do when the strings are known: take the bytes.
  taking :
      (end n : ℕ) (m' : Message)
      → Returns (λ b'. IsValid b' × (content b' ≡ drop n (content b))) (retrieve_until b end)
      → Takes b m' n (do b' ← retrieve_until b end; ok (success, m', b'))
  taking end n m' (b', run, kept) = ((success, m', b'), rw run, (refl, refl, kept.0, kept.1))

  publish-Meets :
      (cmd topic : List ℕ) (k crlf : ℕ)
      → crlf ≡ b.read_index + k
      → k + 2 ≤ length (content b)
      → Meets b m
          (read_publish (content b) cmd topic k)
          (parse_publish b (record m { cmd = cmd; topic = topic }) crlf)
  unfolding parse_publish read_publish
  publish-Meets cmd topic k crlf e h =
      elim (Option-cases (search_crlf (drop (k + 2) (content b)))) [
        | inl none_left ↦ rw (search, none_left, read_publish) refl
        | inr (j, found) ↦
            rw (search, found, text j found, read_publish)
              (taking (crlf + 2 + j + 2) (k + 2 + j + 2) _ (taken j found))
      ]
    where
      search :
          find_crlf_from b (crlf + 2)
          ≡ ok (Option.map (λ j. crlf + 2 + j) (search_crlf (drop (k + 2) (content b))))
      search = find_crlf_from_lem b (crlf + 2) (k + 2) v (omega arith) h

      inside :
          (j : ℕ)
          → search_crlf (drop (k + 2) (content b)) ≡ some j
          → k + 2 + j + 2 ≤ length (content b)
      inside j found =
          omega (
            arith,
            search_crlf-le (drop (k + 2) (content b)) found,
            length-drop (k + 2) (content b),
          )

      taken :
          (j : ℕ)
          → search_crlf (drop (k + 2) (content b)) ≡ some j
          → Returns
              (λ b'. IsValid b' × (content b' ≡ drop (k + 2 + j + 2) (content b)))
              (retrieve_until b (crlf + 2 + j + 2))
      taken j found =
          retrieve_until_lem b (crlf + 2 + j + 2) (k + 2 + j + 2) v (omega arith) (inside j found)

      text :
          (j : ℕ)
          → search_crlf (drop (k + 2) (content b)) ≡ some j
          → slice (crlf + 2) (crlf + 2 + j) b.bytes ≡ take j (drop (k + 2) (content b))
      text j found =
          slice-content b (crlf + 2) (crlf + 2 + j) (k + 2) j v (omega arith) refl
            (omega (arith, inside j found))

  words-Meets :
      (k crlf sp space_pos : ℕ)
      → crlf ≡ b.read_index + k
      → k + 2 ≤ length (content b)
      → space_pos ≡ b.read_index + sp
      → sp < k
      → Meets b m (read_words (content b) k sp) (parse_words b m crlf space_pos)
  unfolding parse_words read_words
  words-Meets k crlf sp space_pos e h f lt =
      rw (cmd, topic)
        (elim (Bool-cases (same (take sp (content b)) pub_cmd)) [
          | inl is_pub ↦ rw is_pub (publish-Meets (take sp (content b)) _ k crlf e h)
          | inr other ↦ rw other (
              taking (crlf + 2) (k + 2) _
                (retrieve_until_lem b (crlf + 2) (k + 2) v (omega arith) h))
        ])
    where
      cmd : slice b.read_index space_pos b.bytes ≡ take sp (content b)
      cmd = slice-content b b.read_index space_pos 0 sp v (omega arith) f (omega arith)

      topic : slice (space_pos + 1) crlf b.bytes ≡ take (k - (sp + 1)) (drop (sp + 1) (content b))
      topic =
          slice-content b (space_pos + 1) crlf (sp + 1) (k - (sp + 1)) v (omega arith) (omega arith)
            (omega arith)

  -- The line as the index computation finds it.
  line_of :
      (k crlf : ℕ)
      → crlf ≡ b.read_index + k
      → k + 2 ≤ length (content b)
      → slice b.read_index crlf b.bytes ≡ take k (content b)
  line_of k crlf e h = slice-content b b.read_index crlf 0 k v (omega arith) e (omega arith)

  parse_line_lem :
      (k crlf : ℕ)
      → crlf ≡ b.read_index + k
      → k + 2 ≤ length (content b)
      → let sp = find_byte b' ' (take k (content b)) in
        parse_line b m crlf
        ≡ (if sp == k then ok (error, m, b) else parse_words b m crlf (b.read_index + sp))
  unfolding parse_line
  parse_line_lem k crlf e h =
      ap
        (λ t.
          if b.read_index + find_byte b' ' t == crlf
          then ok (error, m, b)
          else parse_words b m crlf (b.read_index + find_byte b' ' t))
        (line_of k crlf e h)
      ∙ ap (λ t. if t then ok (error, m, b) else parse_words b m crlf (b.read_index + sp)) same_test
    where
      sp : ℕ
      sp = find_byte b' ' (take k (content b))

      same_test : (b.read_index + sp == crlf) ≡ (sp == k)
      same_test = ground arith

  command-Meets :
      (k crlf : ℕ)
      → crlf ≡ b.read_index + k
      → k + 2 ≤ length (content b)
      → Meets b m (read_command (content b) k) (parse_line b m crlf)
  unfolding read_command
  command-Meets k crlf e h =
      rw (parse_line_lem k crlf e h) (elim (Bool-cases (find_byte b' ' (take k (content b)) == k)) [
        | inl none_found ↦ rw none_found refl
        | inr found ↦ rw found (
            words-Meets k crlf _ _ e h refl
              (ground (arith, find_byte-le b' ' (take k (content b)), length-take k (content b))))
      ])

  -- On every input `parseMessage` does what `read_line` says of the waiting bytes: it waits or
  -- reports an error and changes nothing, is undefined, or assigns the strings of the line read and
  -- takes its bytes off a buffer that stays valid.
  pub parse_message-Meets : Meets b m (read_line (content b)) (parse_message b m)
  unfolding parse_message read_line
  parse_message-Meets = elim (Option-cases (search_crlf (content b))) [
    | inl none_found ↦ rw (parse_message, find_crlf_lem b, read_line, none_found) refl
    | inr (k, found) ↦
        rw (parse_message, find_crlf_lem b, read_line, found)
          (command-Meets k (b.read_index + k) refl (search_crlf-le (content b) found))
  ]
