-- ===== src/Codec/Reading.antt =====
-- How a line of a command and a topic is read.
use summer.Prelude.{
  ℕ, zero, suc, ◌+◌, ◌-◌, ◌≡◌, ◌≢◌, refl, ap, sym, ◌∙◌, arith, false, List, [], ◌∷◌, ◌++◌,
  append_assoc, some, length, take, drop, length-append, take-append, drop-append, if◌then◌else◌,
  ◌==◌,
}
use summer.Buffer.{search_crlf}
use summer.Buffer.Search.{NoCr, search_crlf-append}
use summer.Codec.{pub_cmd, same, find_byte}
use summer.Codec.Lines.{command, read_publish, read_words, read_command, read_line}

-- No space.
abbrev pub NoSpace : List ℕ → Type 0
NoSpace [] = Unit
NoSpace (x ∷ xs) = (x ≢ b' ') × NoSpace xs

pub NoCr-append : (xs ys : List ℕ) → NoCr xs → NoCr ys → NoCr (xs ++ ys)
NoCr-append [] ys h k = k
NoCr-append (x ∷ xs) ys h k = (h.0, NoCr-append xs ys h.1 k)

pub find_byte-append :
    (xs ys : List ℕ) → NoSpace xs → find_byte b' ' (xs ++ (b' ' ∷ ys)) ≡ length xs
unfolding find_byte
find_byte-append [] ys h = refl
find_byte-append (x ∷ xs) ys h = ground (arith, find_byte-append xs ys h.1)

pub drop_past :
    (n : ℕ) (xs ys : List ℕ) (y : ℕ) → n ≡ suc (length xs) → drop n (xs ++ (y ∷ ys)) ≡ ys
drop_past zero xs ys y e = absurd (omega arith)
drop_past (suc n) [] ys y e = ap (λ k. drop k ys) {x = n} {y = 0} (omega arith)
drop_past (suc n) (x ∷ xs) ys y e = drop_past n xs ys y (omega arith)

pub read_line_of :
    (xs : List ℕ) (k : ℕ) → search_crlf xs ≡ some k → read_line xs ≡ read_command xs k
unfolding read_line
read_line_of xs k e = rw (e, read_line)

pub read_command_of :
    (xs : List ℕ) (k sp : ℕ)
    → find_byte b' ' (take k xs) ≡ sp
    → (sp == k) ≡ false
    → read_command xs k ≡ read_words xs k sp
unfolding read_command
read_command_of xs k sp e f = rw (e, f)

module _ (cmd topic rest : List ℕ) (words : NoSpace cmd) (cmd_line : NoCr cmd)
    (topic_line : NoCr topic) where
  -- A line with its end, and what comes behind it.
  unfoldable pub input : List ℕ
  input = (cmd ++ (b' ' ∷ topic)) ++ (13 ∷ 10 ∷ rest)

  unfoldable pub size : ℕ
  size = length (cmd ++ (b' ' ∷ topic))

  size_lem : size ≡ length cmd + 1 + length topic
  unfolding size
  size_lem = omega (arith, length-append cmd (b' ' ∷ topic))

  pub rest_of : drop (size + 2) input ≡ rest
  unfolding size input
  rest_of =
      ap (drop (size + 2)) (sym (append_assoc (cmd ++ (b' ' ∷ topic)) (13 ∷ 10 ∷ []) rest))
      ∙ drop-append (size + 2) ((cmd ++ (b' ' ∷ topic)) ++ (13 ∷ 10 ∷ [])) rest
          (omega (arith, length-append (cmd ++ (b' ' ∷ topic)) (13 ∷ 10 ∷ [])))

  flat : input ≡ cmd ++ (b' ' ∷ (topic ++ (13 ∷ 10 ∷ rest)))
  unfolding input
  flat = append_assoc cmd (b' ' ∷ topic) (13 ∷ 10 ∷ rest)

  cmd_of : take (length cmd) input ≡ cmd
  cmd_of = rw flat (take-append (length cmd) cmd _ refl)

  topic_of : take (size - (length cmd + 1)) (drop (length cmd + 1) input) ≡ topic
  topic_of =
      ap (λ t. take (size - (length cmd + 1)) (drop (length cmd + 1) t)) flat
      ∙ ap (take (size - (length cmd + 1)))
          (drop_past (length cmd + 1) cmd (topic ++ (13 ∷ 10 ∷ rest)) b' ' (omega arith))
      ∙ take-append (size - (length cmd + 1)) topic _ (omega (arith, size_lem))

  line_of : take size input ≡ cmd ++ (b' ' ∷ topic)
  unfolding size input
  line_of = take-append size (cmd ++ (b' ' ∷ topic)) _ refl

  space_of : find_byte b' ' (take size input) ≡ length cmd
  space_of = rw line_of (find_byte-append cmd topic words)

  found : search_crlf input ≡ some size
  unfolding input size
  found =
      search_crlf-append (cmd ++ (b' ' ∷ topic)) rest
        (NoCr-append cmd (b' ' ∷ topic) cmd_line (omega arith, topic_line))

  space_before : (length cmd == size) ≡ false
  space_before = ground (arith, size_lem)

  -- The line that the parser reads off such an input.
  pub read_line-input : read_line input ≡ (
      if same cmd pub_cmd then read_publish input cmd topic size else command cmd topic (size + 2))
  read_line-input =
      read_line_of input size found
      ∙ read_command_of input size (length cmd) space_of space_before
      ∙ words_of
    where
      words_of : read_words input size (length cmd) ≡ (
          if same cmd pub_cmd
          then read_publish input cmd topic size
          else command cmd topic (size + 2))
      words_of =
          unfold read_words in
          λ i.
            if same (cmd_of i) pub_cmd
            then read_publish input (cmd_of i) (topic_of i) size
            else command (cmd_of i) (topic_of i) (size + 2)
