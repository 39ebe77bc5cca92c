-- ===== src/Buffer/Contents.antt =====
-- What the operations of Buffer do to the bytes that wait to be read.
use summer.Prelude.{
  ℕ, ◌+◌, ◌-◌, ◌%◌, ◌^◌, ◌≤◌, ◌<◌, ◌≡◌, refl, ap, sym, ◌∙◌, arith, List, ◌++◌, ok, length, take,
  drop, replicate, slice, overwrite, length-overwrite, length-append, length-take, length-replicate,
  Returns, slice-overwrite_back, slice-overwrite_front, slice-overwrite_self, slice-append,
  drop-slice, take_all,
}
use summer.Buffer.{
  Buffer, int_max, retrieve_until, cheap_prepend, writeable_bytes, retrieve, content, resize, grow,
  move_to_front, write_back, shrink, prepend, prependable_bytes,
}
use summer.Buffer.Invariant.{IsValid, length-content}

-- What it means that `src` was put behind the bytes of `b`.
abbrev pub Appended : Buffer → List ℕ → Buffer → Type 0
Appended b src b' = IsValid b' × (content b' ≡ content b ++ src)

pub write_back-Appended :
    (b : Buffer) (src : List ℕ)
    → IsValid b
    → length src < writeable_bytes b
    → Returns (Appended b src) (write_back b src)
unfolding write_back
write_back-Appended b src v h = (
  record b {
    bytes = overwrite b.bytes b.write_index src;
    write_index = b.write_index + length src;
  },
  ground arith,
  (
    omega (arith, length-overwrite b.bytes b.write_index src),
    slice-overwrite_back b.read_index b.write_index b.bytes src v.ordered v.inside,
  ),
)

-- `b` laid out anew, with the same bytes to read.
abbrev pub Kept : Buffer → Buffer → Type 0
Kept b b' = IsValid b' × (content b' ≡ content b)

pub length-resize : (xs : List ℕ) (n : ℕ) → length (resize xs n) ≡ n
unfolding resize
length-resize xs n = omega (
  arith,
  length-append (take n xs) (replicate (n - length xs) 0),
  length-take n xs,
  length-replicate {A = ℕ} (n - length xs) 0,
)

-- `resize` makes room only where more is free than lies in front of the write position.
pub grow-Kept :
    (b : Buffer) (n : ℕ)
    → IsValid b
    → b.write_index < writeable_bytes b
    → writeable_bytes b < n
    → writeable_bytes b + n < int_max
    → Kept b (grow b n) × (length (grow b n).bytes ≡ writeable_bytes b + n)
unfolding grow resize
grow-Kept b n v h k small = (
  (
    omega (arith, grown),
    ap (λ xs. slice b.read_index b.write_index (xs ++ replicate (size - length b.bytes) 0))
          (take_all size b.bytes (omega arith))
        ∙ slice-append b.read_index b.write_index b.bytes _ v.ordered v.inside,
  ),
  omega (arith, grown),
)
  where
    size : ℕ
    size = (writeable_bytes b + n) % 2 ^ 64

    grown : length (resize b.bytes size) ≡ size
    grown = length-resize b.bytes size

abbrev pub moved : Buffer → Buffer
moved b = record b {
  bytes = overwrite b.bytes cheap_prepend (content b);
  read_index = cheap_prepend;
  write_index = cheap_prepend + length (content b);
}

pub moved-Kept :
    (b : Buffer)
    → IsValid b
    → cheap_prepend + length (content b) ≤ length b.bytes
    → Kept b (moved b)
moved-Kept b v h = (
  omega (arith, length-overwrite b.bytes cheap_prepend (content b)),
  slice-overwrite_self b.bytes cheap_prepend (content b) v.front,
)

pub move_to_front_lem :
    (b : Buffer)
    → IsValid b
    → cheap_prepend + length (content b) ≤ length b.bytes
    → move_to_front b ≡ ok (moved b)
unfolding move_to_front
move_to_front_lem b v h = ground (arith, length-content b v)

-- `retrieve` of no more than the waiting bytes drops that many of them, and the buffer stays valid.
pub retrieve_lem :
    (b : Buffer) (n : ℕ)
    → IsValid b
    → n ≤ length (content b)
    → Returns (λ b'. IsValid b' × (content b' ≡ drop n (content b))) (retrieve b n)
unfolding retrieve
retrieve_lem b n v h = (
  record b { read_index = b.read_index + n },
  ground (arith, length-content b v),
  (omega (arith, length-content b v), sym (drop-slice n b.read_index b.write_index b.bytes)),
)

-- `prepend` of fewer bytes than stand free in front puts them before those that wait, and the
-- buffer stays valid.
pub prepend_lem :
    (b : Buffer) (src : List ℕ)
    → IsValid b
    → length src < prependable_bytes b
    → Returns (λ b'. IsValid b' × (content b' ≡ src ++ content b)) (prepend b src)
unfolding prepend
prepend_lem b src v h = (
  record b {
    bytes = overwrite b.bytes (b.read_index - length src) src;
    read_index = b.read_index - length src;
  },
  ground arith,
  (
    omega (arith, length-overwrite b.bytes (b.read_index - length src) src),
    slice-overwrite_front b.read_index b.write_index b.bytes src v.ordered v.inside (omega arith),
  ),
)

-- `shrink` keeps the waiting bytes, leaves the prepend space in front of them and the reserve
-- behind them, and the buffer stays valid.
pub shrink_lem :
    (b : Buffer) (reserve : ℕ)
    → IsValid b
    → cheap_prepend + length (content b) + reserve < int_max
    → Returns
        (λ b'.
          Kept b b'
          × (length b'.bytes ≡ cheap_prepend + length (content b) + reserve)
          × (b'.read_index ≡ cheap_prepend))
        (shrink b reserve)
unfolding shrink
shrink_lem b reserve v h = (
  record b {
    bytes = overwrite (replicate (size) 0) cheap_prepend (content b);
    read_index = cheap_prepend;
    write_index = cheap_prepend + length (content b);
  },
  ground (arith, length-content b v, sized),
  (
    (
      omega (arith, sized, length-overwrite (replicate size 0) cheap_prepend (content b)),
      slice-overwrite_self (replicate size 0) cheap_prepend (content b) (omega (arith, sized)),
    ),
    omega (arith, sized, length-overwrite (replicate size 0) cheap_prepend (content b)),
    refl,
  ),
)
  where
    size : ℕ
    size = cheap_prepend + length (content b) + reserve

    sized : length {A = ℕ} (replicate size 0) ≡ size
    sized = length-replicate size 0

pub retrieve_until_lem :
    (b : Buffer) (end n : ℕ)
    → IsValid b
    → end ≡ b.read_index + n
    → n ≤ length (content b)
    → Returns (λ b'. IsValid b' × (content b' ≡ drop n (content b))) (retrieve_until b end)
unfolding retrieve_until
retrieve_until_lem b end n v e h = (
  record b { read_index = b.read_index + (end - b.read_index) },
  ground (arith, length-content b v),
  (
    omega (arith, length-content b v),
    ap (λ k. slice k b.write_index b.bytes) (omega arith)
        ∙ sym (drop-slice n b.read_index b.write_index b.bytes),
  ),
)
