-- ===== src/Buffer/Input.antt =====
-- `readFd`: what arrives from the descriptor ends up behind the waiting bytes, as long as the rest
-- that did not go into the vector leaves room at its front.
use summer.Prelude.{
  ℕ, ◌+◌, ◌-◌, ◌≤◌, ◌<◌, ◌≡◌, refl, ap, ◌∙◌, ◌⊎◌, inl, inr, arith, List, ◌++◌, invalid, length,
  Returns, take, drop, slice, overwrite, length-overwrite, length-take, length-drop,
  slice-overwrite_back, append_assoc, take-append-drop,
}
use native.Mathlib.Decide.{dec_le}
use summer.Buffer.{
  Buffer, received, int_max, cheap_prepend, writeable_bytes, content, append, read_fd,
}
use summer.Buffer.Invariant.{IsValid}
use summer.Buffer.Contents.{Appended}
use summer.Buffer.Room.{append-Appended, append-invalid}

module _ (b : Buffer) (src : List ℕ) (v : IsValid b)
    (small : length b.bytes + length src < int_max) where
  -- The vector filled to its end, which is the state in which the rest is appended.
  filled : Buffer
  filled = record b {
    bytes = overwrite b.bytes b.write_index (take (writeable_bytes b) src);
    write_index = length (overwrite b.bytes b.write_index (take (writeable_bytes b) src));
  }

  rest : List ℕ
  rest = drop (writeable_bytes b) src

  read_fd-in_place :
      length src ≤ writeable_bytes b → Returns (Appended b src) (read_fd b (received src))
  unfolding read_fd
  read_fd-in_place h = (
    record b {
      bytes = overwrite b.bytes b.write_index src;
      write_index = b.write_index + length src;
    },
    ground arith,
    (
      omega (arith, length-overwrite b.bytes b.write_index src),
      slice-overwrite_back b.read_index b.write_index b.bytes src v.ordered v.inside,
    ),
  )

  module _ (more : writeable_bytes b < length src) where
    length-first : length (take (writeable_bytes b) src) ≡ writeable_bytes b
    length-first = omega (arith, length-take (writeable_bytes b) src)

    length-rest : length rest ≡ length src - writeable_bytes b
    unfolding rest
    length-rest = length-drop (writeable_bytes b) src

    length-filled : length filled.bytes ≡ length b.bytes
    unfolding filled
    length-filled =
        length-overwrite b.bytes b.write_index (take (writeable_bytes b) src)
          (omega (arith, length-first))

    read_fd-rest : read_fd b (received src) ≡ append filled rest
    unfolding read_fd filled rest
    read_fd-rest = ground (arith, length-first, length-filled)

    filled-Appended : Appended b (take (writeable_bytes b) src) filled
    unfolding filled
    filled-Appended = (
      omega (arith, length-filled),
      ap (λ w. slice b.read_index w filled.bytes) (omega (arith, length-filled, length-first))
          ∙ slice-overwrite_back b.read_index b.write_index b.bytes _ v.ordered v.inside,
    )

    write_index-filled : filled.write_index ≡ length filled.bytes
    unfolding filled
    write_index-filled = refl

    read_index-filled : filled.read_index ≡ b.read_index
    unfolding filled
    read_index-filled = refl

    filled-small : length filled.bytes + length rest < int_max
    filled-small = omega (arith, length-filled, length-rest)

    read_fd-extra :
        length src - writeable_bytes b + cheap_prepend < b.read_index
        → Returns (Appended b src) (read_fd b (received src))
    read_fd-extra h =
        let (c, run, a) = append-Appended filled rest filled-Appended.0 filled-small (
          inr (
            inl (
              omega (arith, write_index-filled, length-rest),
              omega (arith, write_index-filled, read_index-filled, length-rest, length-filled),
            ))) in
        (
          c,
          read_fd-rest ∙ run,
          (
            a.0,
            a.1
                ∙ ap (λ t. t ++ rest) filled-Appended.1
                ∙ append_assoc (content b) (take (writeable_bytes b) src) rest
                ∙ ap (◌++◌ (content b)) whole,
          ),
        )
      where
        whole : take (writeable_bytes b) src ++ rest ≡ src
        whole = unfold rest in take-append-drop (writeable_bytes b) src

  -- What arrives is put behind the waiting bytes if it fits behind them, or if the excess and the
  -- prepend space fit in front of them with a byte to spare.
  pub read_fd-Appended :
      (length src ≤ writeable_bytes b)
        ⊎ (length src - writeable_bytes b + cheap_prepend < b.read_index)
      → Returns (Appended b src) (read_fd b (received src))
  read_fd-Appended (inl h) = read_fd-in_place h
  read_fd-Appended (inr h) = elim (dec_le (length src) (writeable_bytes b)) [
    | yes fits ↦ read_fd-in_place fits
    | no more ↦ read_fd-extra (omega arith) h
  ]

  -- Input that exceeds the free space by less than the size of the vector, while the excess does
  -- not fit in front of the waiting bytes, makes `readFd` write outside the vector.
  pub read_fd-invalid :
      writeable_bytes b < length src
      → b.read_index < length src - writeable_bytes b + cheap_prepend
      → length src - writeable_bytes b < length b.bytes
      → read_fd b (received src) ≡ invalid
  read_fd-invalid h k m =
      read_fd-rest h
      ∙ append-invalid filled rest (filled-Appended h).0 (filled-small h) (
        omega (arith, write_index-filled, length-rest),
        omega (arith, write_index-filled, read_index-filled, length-rest, length-filled),
        omega (arith, write_index-filled, length-rest, length-filled),
      )
