-- ===== src/Codec.antt =====
-- The message parser of the hub, net/hub/codec.cc, over the buffer of Buffer.antt. The strings that
-- it assigns are passed in and returned, so that a call that does not assign one leaves it alone.
pub mod Lines
pub mod Requests
pub mod Reading
pub mod RoundTrip
mod Tests
use summer.Prelude.{
  ℕ, suc, ◌+◌, Bool, true, false, ◌&&◌, ◌==◌, if◌then◌else◌, List, [], ◌∷◌, Option, none, some,
  Outcome, ok, invalid, ◌>>=◌, slice,
}
use summer.Buffer.{Buffer, find_crlf, find_crlf_from, retrieve_until}

pub data ParseResult : Type 0 where
  success proceed error : ParseResult

-- The three strings that `parseMessage` writes to.
pub record Message : Type 0 where
  pub cmd : List ℕ
  pub topic : List ℕ
  pub content : List ℕ

abbrev pub pub_cmd : List ℕ
pub_cmd = b'p' ∷ b'u' ∷ b'b' ∷ []

-- `==` of std::string
unfoldable pub same : List ℕ → List ℕ → Bool
same [] [] = true
same [] (y ∷ ys) = false
same (x ∷ xs) [] = false
same (x ∷ xs) (y ∷ ys) = x == y && same xs ys

-- `std::find`, as an offset; the length is the end of the range.
unfoldable pub find_byte : ℕ → List ℕ → ℕ
find_byte c [] = 0
find_byte c (x ∷ xs) = if x == c then 0 else suc (find_byte c xs)

abbrev pub Parsed : Type 0
Parsed = ParseResult × Message × Buffer

-- The body of `if(*cmd == "pub")`. It tests `crlf`, which is not NULL there, where `secCrlf` was
-- meant: with `secCrlf` NULL the range `[crlf + 2, NULL)` is assigned, which is undefined.
pub parse_publish : Buffer → Message → ℕ → Outcome Parsed
parse_publish b m crlf = do
  second ← find_crlf_from b (crlf + 2)
  elim second [
    | none ↦ invalid
    | some sec_crlf ↦ (do
      b' ← retrieve_until b (sec_crlf + 2)
      ok (success, record m { content = slice (crlf + 2) sec_crlf b.bytes }, b'))
  ]

-- The body of `if(spacePos!=crlf)`.
pub parse_words : Buffer → Message → ℕ → ℕ → Outcome Parsed
parse_words b m crlf space_pos =
    let cmd = slice b.read_index space_pos b.bytes in
    let m' = record m { cmd = cmd; topic = slice (space_pos + 1) crlf b.bytes } in
    if same cmd pub_cmd
    then parse_publish b m' crlf
    else (do b' ← retrieve_until b (crlf + 2); ok (success, m', b'))

-- The body of `if(crlf)`.
pub parse_line : Buffer → Message → ℕ → Outcome Parsed
parse_line b m crlf =
    let space_pos = b.read_index + find_byte b' ' (slice b.read_index crlf b.bytes) in
    if space_pos == crlf then ok (error, m, b) else parse_words b m crlf space_pos

pub parse_message : Buffer → Message → Outcome Parsed
parse_message b m = elim (find_crlf b) [
  | none ↦ ok (proceed, m, b)
  | some crlf ↦ parse_line b m crlf
]
