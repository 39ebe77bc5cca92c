-- ===== src/Codec/Tests.antt =====
-- Runs of the parser, and the theorems about it at such inputs.
use summer.Prelude.{◌+◌, ◌≡◌, refl, arith, List, ℕ, [], ◌∷◌, ◌++◌, Returns, length, replicate}
use summer.Buffer.{Buffer, content}
use summer.Buffer.Invariant.{IsValid}
use summer.Codec.{Message, success, pub_cmd, parse_message}
use summer.Codec.Lines.{read_line, Meets, parse_message-Meets}
use summer.Codec.Requests.{sub_cmd, crlf, publish_request}
use summer.Codec.RoundTrip.{parse_message-publish}

-- A buffer that holds a text behind its prepend space.
abbrev holding : List ℕ → Buffer
holding xs = record { bytes = replicate 8 0 ++ xs; read_index = 8; write_index = 8 + length xs }

abbrev blank : Message
blank = record { cmd = []; topic = []; content = [] }

abbrev sub_a : List ℕ
sub_a = (sub_cmd ++ (b' ' ∷ b'a' ∷ [])) ++ (crlf ++ (1 ∷ []))

abbrev pub_a : List ℕ
pub_a = ((pub_cmd ++ (b' ' ∷ b'a' ∷ [])) ++ crlf) ++ ((b'x' ∷ []) ++ crlf)

abbrev half : List ℕ
half = (pub_cmd ++ (b' ' ∷ b'a' ∷ [])) ++ (crlf ++ (b'x' ∷ []))

parse_message-Meets_example :
    Meets (holding half) blank (read_line half) (parse_message (holding half) blank)
parse_message-Meets_example = parse_message-Meets (holding half) blank (omega arith)

parse_message-publish_example :
    Returns
      (λ p.
        (p.0 ≡ success)
        × (p.1 ≡ record { cmd = pub_cmd; topic = b'a' ∷ []; content = b'x' ∷ [] })
        × IsValid p.2
        × (content p.2 ≡ []))
      (parse_message (holding pub_a) blank)
unfolding publish_request
parse_message-publish_example =
    parse_message-publish (holding pub_a) blank (omega arith) (b'a' ∷ []) (b'x' ∷ []) []
      (omega arith) (omega arith) refl
