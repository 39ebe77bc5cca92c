-- ===== src/Buffer/Search.antt =====
-- `findCRLF`: the search for the end of a line.
use mathlib.Core.Option
use summer.Prelude.{
  ℕ, ◌+◌, ◌≤◌, ◌≡◌, ◌≢◌, refl, arith, List, [], ◌∷◌, ◌++◌, Option-cases, inl, inr, none, some,
  length, take, drop, slice, take-take, ◌-◌, drop-slice, ok, inl, inr, ap, ◌∙◌, sym,
}
use summer.Buffer.{Buffer, content, find_crlf, find_crlf_from, search_crlf}
use summer.Buffer.Invariant.{IsValid, length-content}

-- No carriage return.
abbrev pub NoCr : List ℕ → Type 0
NoCr [] = Unit
NoCr (x ∷ xs) = (x ≢ 13) × NoCr xs

-- A line end that is found lies inside the text.
pub search_crlf-le : (xs : List ℕ) {k : ℕ} → search_crlf xs ≡ some k → k + 2 ≤ length xs
unfolding search_crlf
search_crlf-le [] h = cc
search_crlf-le (x ∷ []) h = cc
search_crlf-le (x ∷ y ∷ r) h = elim (Option-cases (search_crlf (y ∷ r))) [
  | inl e ↦ ground arith
  | inr (j, e) ↦ ground (arith, search_crlf-le (y ∷ r) e)
]

-- Behind a line without a carriage return the line end is found, and not before.
pub search_crlf-append :
    (xs ys : List ℕ) → NoCr xs → search_crlf (xs ++ (13 ∷ 10 ∷ ys)) ≡ some (length xs)
unfolding search_crlf
search_crlf-append [] ys h = refl
search_crlf-append (x ∷ []) ys h = ground (arith, search_crlf-append [] ys tt)
search_crlf-append (x ∷ y ∷ r) ys h = ground (arith, search_crlf-append (y ∷ r) ys h.1)

pub search_crlf-none : (xs : List ℕ) → NoCr xs → search_crlf xs ≡ none
unfolding search_crlf
search_crlf-none [] h = refl
search_crlf-none (x ∷ []) h = refl
search_crlf-none (x ∷ y ∷ r) h = ground (arith, search_crlf-none (y ∷ r) h.1)

pub find_crlf_lem :
    (b : Buffer) → find_crlf b ≡ Option.map (λ k. b.read_index + k) (search_crlf (content b))
unfolding find_crlf
find_crlf_lem b = refl

-- A search from a position inside the waiting bytes passes its assertions.
pub find_crlf_from_lem :
    (b : Buffer) (start n : ℕ)
    → IsValid b
    → start ≡ b.read_index + n
    → n ≤ length (content b)
    → find_crlf_from b start ≡ ok (Option.map (λ k. start + k) (search_crlf (drop n (content b))))
unfolding find_crlf_from
find_crlf_from_lem b start n v e h =
    ground (arith, length-content b v, drop-slice n b.read_index b.write_index b.bytes)

-- Bytes addressed in the vector are bytes of the content.
pub slice-content :
    (b : Buffer) (start stop i n : ℕ)
    → IsValid b
    → start ≡ b.read_index + i
    → stop ≡ start + n
    → i + n ≤ length (content b)
    → slice start stop b.bytes ≡ take n (drop i (content b))
slice-content b start stop i n v e f h =
    ap (λ k. take k (drop start b.bytes)) {x = stop - start} {y = n} (omega arith)
    ∙ ap (λ k. take n (drop k b.bytes)) e
    ∙ sym (
        take-take n (b.write_index - (b.read_index + i)) (drop (b.read_index + i) b.bytes)
          (omega (arith, length-content b v)))
    ∙ ap (take n) (sym (drop-slice i b.read_index b.write_index b.bytes))
