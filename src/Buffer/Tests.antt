-- ===== src/Buffer/Tests.antt =====
-- Runs of Buffer at small vectors, and the theorems about it at such inputs.
use summer.Prelude.{some, ◌≡◌, refl, arith, inl, [], ◌∷◌, ◌++◌, ok, Returns, replicate}
use summer.Buffer.{Buffer, append, find_crlf, search_crlf}
use summer.Buffer.Invariant.{IsValid}
use summer.Buffer.Contents.{Appended}
use summer.Buffer.Room.{append-Appended}

-- Eight free bytes in front, two to read and six free behind them.
abbrev roomy : Buffer
roomy = record {
  bytes = replicate 8 0 ++ (1 ∷ 2 ∷ replicate 6 0);
  read_index = 8;
  write_index = 10;
}

-- Nothing to read, and one byte free.
abbrev tight : Buffer
tight = record { bytes = replicate 12 0; read_index = 11; write_index = 11 }

-- Two bytes to read, and none free.
abbrev full : Buffer
full = record { bytes = replicate 8 0 ++ (1 ∷ 2 ∷ []); read_index = 8; write_index = 10 }

roomy-IsValid : IsValid roomy
roomy-IsValid = omega arith

tight-IsValid : IsValid tight
tight-IsValid = omega arith

full-IsValid : IsValid full
full-IsValid = omega arith

append_run :
    append roomy (7 ∷ [])
    ≡ ok (record roomy { bytes = replicate 8 0 ++ (1 ∷ 2 ∷ 7 ∷ replicate 5 0); write_index = 11 })
unfolding append
append_run = refl

find_crlf_run : find_crlf (record roomy { bytes = replicate 8 0 ++ (13 ∷ 10 ∷ []) }) ≡ some 8
unfolding find_crlf search_crlf
find_crlf_run = refl

append-Appended_example : Returns (Appended roomy (7 ∷ 8 ∷ [])) (append roomy (7 ∷ 8 ∷ []))
append-Appended_example =
    append-Appended roomy (7 ∷ 8 ∷ []) roomy-IsValid (omega arith) (inl (omega arith))
