-- ===== src/Buffer/Room.antt =====
-- `append` and `makespace`: for which lengths the call succeeds, fails its assertion or writes
-- outside the vector.
use summer.Prelude.{
  ℕ, ◌+◌, ◌%◌, ◌^◌, ◌≤◌, ◌<◌, ◌≡◌, refl, ap, ◌∙◌, ◌⊎◌, inl, inr, arith, List, ◌++◌, aborted,
  invalid, length, Returns, length-overwrite,
}
use summer.Buffer.{
  Buffer, int_max, cheap_prepend, writeable_bytes, content, grow, write_back, append,
}
use summer.Buffer.Invariant.{IsValid, length-content}
use summer.Buffer.Contents.{
  Appended, Kept, moved, moved-Kept, move_to_front_lem, grow-Kept, length-resize,
  write_back-Appended,
}

-- `n` bytes go behind the write position as it is, after the bytes have moved to the front, or
-- after the vector has grown.
abbrev pub Fits : Buffer → ℕ → Type 0
Fits b n =
    (n < writeable_bytes b)
    ⊎ ((writeable_bytes b < n) × (n + cheap_prepend < writeable_bytes b + b.read_index))
    ⊎ ((writeable_bytes b < n)
        × (writeable_bytes b + b.read_index < n + cheap_prepend)
        × (b.write_index < writeable_bytes b))

-- The free space equals the length asked for, or the grown vector is no larger than that.
abbrev pub Jams : Buffer → ℕ → Type 0
Jams b n =
    (n ≡ writeable_bytes b)
    ⊎ ((writeable_bytes b < n) × (n + cheap_prepend ≡ writeable_bytes b + b.read_index))
    ⊎ ((writeable_bytes b < n)
        × (writeable_bytes b + b.read_index < n + cheap_prepend)
        × (writeable_bytes b ≤ b.write_index)
        × (b.write_index ≤ writeable_bytes b + n))

-- The "grown" vector ends before the write position.
abbrev pub Overruns : Buffer → ℕ → Type 0
Overruns b n =
    (writeable_bytes b < n)
    × (writeable_bytes b + b.read_index < n + cheap_prepend)
    × (writeable_bytes b + n < b.write_index)

pub append_total : (b : Buffer) (n : ℕ) → IsValid b → Fits b n ⊎ (Jams b n) ⊎ Overruns b n
append_total b n v = grind arith

write_index-grow : (b : Buffer) (n : ℕ) → (grow b n).write_index ≡ b.write_index
unfolding grow
write_index-grow b n = refl

module _ (b : Buffer) (src : List ℕ) (v : IsValid b)
    (small : length b.bytes + length src < int_max) where
  append-in_place : length src ≤ writeable_bytes b → append b src ≡ write_back b src
  unfolding append
  append-in_place h = ground arith

  append-moved :
      writeable_bytes b < length src
      → length src + cheap_prepend ≤ writeable_bytes b + b.read_index
      → append b src ≡ write_back (moved b) src
  unfolding append
  append-moved h k =
      ground (arith, move_to_front_lem b v (omega (arith, length-content b v)), length-content b v)

  append-grown :
      writeable_bytes b < length src
      → writeable_bytes b + b.read_index < length src + cheap_prepend
      → append b src ≡ write_back (grow b (length src)) src
  unfolding append
  append-grown h k = ground arith

  length-moved :
      length (content b) + cheap_prepend ≤ length b.bytes → length (moved b).bytes ≡ length b.bytes
  length-moved h = length-overwrite b.bytes cheap_prepend (content b) (omega arith)

  after_layout :
      (c : Buffer)
      → Kept b c
      → length src < writeable_bytes c
      → Returns (Appended b src) (write_back c src)
  after_layout c (cv, e) h =
      let (d, run, a) = write_back-Appended c src cv h in
      (d, run, (a.0, a.1 ∙ ap (λ t. t ++ src) e))

  -- On a valid buffer, where the vector and the bytes together stay below 2 ^ 31 and the bytes fit,
  -- `append` puts them behind those that wait, and the buffer stays valid.
  pub append-Appended : Fits b (length src) → Returns (Appended b src) (append b src)
  append-Appended (inl h) = rw (append-in_place (omega arith)) (write_back-Appended b src v h)
  append-Appended (inr (inl (h, k))) = rw (append-moved h (omega arith)) (
      after_layout (moved b) (moved-Kept b v (omega (arith, length-content b v)))
        (omega (arith, length-content b v, length-moved (omega (arith, length-content b v)))))
  append-Appended (inr (inr (h, k, m))) =
      let (kept, e) = grow-Kept b (length src) v m h (omega arith) in
      rw (append-grown h k) (
        after_layout (grow b (length src)) kept (omega (arith, e, write_index-grow b (length src))))

  -- Where the space is used up exactly, the assertion of `append` fails.
  pub append-aborted : Jams b (length src) → append b src ≡ aborted
  unfolding write_back grow
  append-aborted (inl h) = append-in_place (omega arith) ∙ ground arith
  append-aborted (inr (inl (h, k))) =
      append-moved h (omega arith)
      ∙ ground (arith, length-content b v, length-moved (omega (arith, length-content b v)))
  append-aborted (inr (inr (h, k, m, p))) =
      append-grown h k
      ∙ ground (arith, length-resize b.bytes ((writeable_bytes b + length src) % 2 ^ 64))

  -- Where the vector shrinks below the write position, `append` writes outside of it.
  pub append-invalid : Overruns b (length src) → append b src ≡ invalid
  unfolding write_back grow
  append-invalid (h, k, m) =
      append-grown h k
      ∙ ground (arith, length-resize b.bytes ((writeable_bytes b + length src) % 2 ^ 64))
