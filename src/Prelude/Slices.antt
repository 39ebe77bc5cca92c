-- ===== src/Prelude/Slices.antt =====
-- The part of a list between two positions, and how writes around it show in it.
use Prim.Native.Nat.{ℕ, zero, suc, ◌+◌, ◌-◌, ◌≤◌}
use mathlib.Core.Path.{◌≡◌, refl, sym, ap, ◌∙◌}
use mathlib.Core.List.{List, [], ◌∷◌, ◌++◌, append_assoc}
use native.Mathlib.Omega.{arith}
use summer.Prelude.Lists.{
  length, take, drop, length-append, length-take, length-drop, take-append-drop,
}

module _ {ℓ} {A : Type ℓ} where
  -- The elements at `[start, stop)`.
  abbrev pub slice : ℕ → ℕ → List A → List A
  slice start stop xs = take (stop - start) (drop start xs)

  pub take-append : (n : ℕ) (xs ys : List A) → n ≡ length xs → take n (xs ++ ys) ≡ xs
  take-append zero [] ys e = refl
  take-append zero (x ∷ xs) ys e = absurd (omega arith)
  take-append (suc n) [] ys e = absurd (omega arith)
  take-append (suc n) (x ∷ xs) ys e = ap (◌∷◌ x) (take-append n xs ys (omega arith))

  pub drop-append : (n : ℕ) (xs ys : List A) → n ≡ length xs → drop n (xs ++ ys) ≡ ys
  drop-append zero [] ys e = refl
  drop-append zero (x ∷ xs) ys e = absurd (omega arith)
  drop-append (suc n) [] ys e = absurd (omega arith)
  drop-append (suc n) (x ∷ xs) ys e = drop-append n xs ys (omega arith)

  pub take_all : (n : ℕ) (xs : List A) → length xs ≤ n → take n xs ≡ xs
  take_all zero [] h = refl
  take_all zero (x ∷ xs) h = absurd (omega arith)
  take_all (suc n) [] h = refl
  take_all (suc n) (x ∷ xs) h = ap (◌∷◌ x) (take_all n xs (omega arith))

  pub drop_nil : (n : ℕ) → drop {A = A} n [] ≡ []
  drop_nil zero = refl
  drop_nil (suc n) = refl

  pub take_nil : (n : ℕ) → take {A = A} n [] ≡ []
  take_nil zero = refl
  take_nil (suc n) = refl

  pub drop-drop : (m n : ℕ) (xs : List A) → drop m (drop n xs) ≡ drop (n + m) xs
  drop-drop m zero xs = ap (λ k. drop k xs) (omega arith)
  drop-drop m (suc n) [] = drop_nil m ∙ sym (drop_nil (suc n + m))
  drop-drop m (suc n) (x ∷ xs) =
      drop-drop m n xs ∙ ap (λ k. drop k (x ∷ xs)) {x = suc (n + m)} {y = suc n + m} (omega arith)

  pub length-slice : (r w : ℕ) (xs : List A) → w ≤ length xs → length (slice r w xs) ≡ w - r
  length-slice r w xs h = omega (arith, length-take (w - r) (drop r xs), length-drop r xs)

  -- A list falls into what stands before, in and behind a slice.
  pub split_slice : (r w : ℕ) (xs : List A) → r ≤ w → xs ≡ take r xs ++ (slice r w xs ++ drop w xs)
  split_slice r w xs h =
      sym (take-append-drop r xs)
      ∙ ap (◌++◌ (take r xs)) (
          sym (take-append-drop (w - r) (drop r xs))
          ∙ ap (◌++◌ (slice r w xs)) (drop-drop (w - r) r xs ∙ ap (λ k. drop k xs) (omega arith)))

  pub slice_middle :
      (r w : ℕ) (xs ys zs : List A)
      → r ≡ length xs
      → w ≡ r + length ys
      → slice r w (xs ++ (ys ++ zs)) ≡ ys
  slice_middle r w xs ys zs e f =
      ap (take (w - r)) (drop-append r xs (ys ++ zs) e) ∙ take-append (w - r) ys zs (omega arith)

  pub take-slice : (r w : ℕ) (xs : List A) → r ≤ w → take w xs ≡ take r xs ++ slice r w xs
  take-slice zero w xs h = ap (λ k. take k xs) {x = w} {y = w - 0} (omega arith)
  take-slice (suc r) zero xs h = absurd (omega arith)
  take-slice (suc r) (suc w) [] h = sym (take_nil (suc w - suc r))
  take-slice (suc r) (suc w) (x ∷ xs) h = ap (◌∷◌ x) (
      take-slice r w xs (omega arith)
      ∙ ap (λ k. take r xs ++ take k (drop r xs)) {x = w - r} {y = suc w - suc r} (omega arith))

  -- A slice that a list is known to hold.
  pub slice_of_split :
      (r w : ℕ) (all xs ys zs : List A)
      → all ≡ xs ++ (ys ++ zs)
      → r ≡ length xs
      → w ≡ r + length ys
      → slice r w all ≡ ys
  slice_of_split r w all xs ys zs e p q = ap (slice r w) e ∙ slice_middle r w xs ys zs p q

  -- `src` written over `xs` from position `at` on.
  abbrev pub overwrite : List A → ℕ → List A → List A
  overwrite xs at src = take at xs ++ (src ++ drop (at + length src) xs)

  module _ (r w : ℕ) (xs src : List A) (ordered : r ≤ w) (inside : w ≤ length xs) where
    -- Written behind a slice, it extends the slice.
    pub slice-overwrite_back : slice r (w + length src) (overwrite xs w src) ≡ slice r w xs ++ src
    slice-overwrite_back =
        slice_of_split r (w + length src) (overwrite xs w src) (take r xs) (slice r w xs ++ src)
          (drop (w + length src) xs)
          (ap (λ t. t ++ (src ++ drop (w + length src) xs)) (take-slice r w xs ordered)
            ∙ append_assoc (take r xs) (slice r w xs) _
            ∙ ap (◌++◌ (take r xs)) (sym (append_assoc (slice r w xs) src _)))
          (omega (arith, length-take r xs))
          (omega (arith, length-append (slice r w xs) src, length-slice r w xs inside))

    -- Written just in front of it, it comes first.
    pub slice-overwrite_front :
        length src ≤ r
        → slice (r - length src) w (overwrite xs (r - length src) src) ≡ src ++ slice r w xs
    slice-overwrite_front fits =
        slice_of_split (r - length src) w (overwrite xs (r - length src) src)
          (take (r - length src) xs) (src ++ slice r w xs) (drop w xs)
          (ap (λ t. take (r - length src) xs ++ (src ++ t))
              (ap (λ k. drop k xs) {x = r - length src + length src} {y = r} (omega arith)
                ∙ tail_split)
            ∙ ap (◌++◌ (take (r - length src) xs)) (sym (append_assoc src (slice r w xs) _)))
          (omega (arith, length-take (r - length src) xs))
          (omega (arith, length-append src (slice r w xs), length-slice r w xs inside))
      where
        tail_split : drop r xs ≡ slice r w xs ++ drop w xs
        tail_split =
            sym (take-append-drop (w - r) (drop r xs))
            ∙ ap (◌++◌ (slice r w xs)) (
                drop-drop (w - r) r xs
                ∙ ap (λ k. drop k xs) {x = r + (w - r)} {y = w} (omega arith))

  -- More elements at the end do not change it.
  pub slice-append :
      (r w : ℕ) (xs ys : List A) → r ≤ w → w ≤ length xs → slice r w (xs ++ ys) ≡ slice r w xs
  slice-append r w xs ys ordered inside =
      slice_of_split r w (xs ++ ys) (take r xs) (slice r w xs) (drop w xs ++ ys)
        (ap (λ t. t ++ ys) (split_slice r w xs ordered)
          ∙ append_assoc (take r xs) (slice r w xs ++ drop w xs) ys
          ∙ ap (◌++◌ (take r xs)) (append_assoc (slice r w xs) (drop w xs) ys))
        (omega (arith, length-take r xs)) (omega (arith, length-slice r w xs inside))

  pub length-overwrite :
      (xs : List A) (at : ℕ) (src : List A)
      → at + length src ≤ length xs
      → length (overwrite xs at src) ≡ length xs
  length-overwrite xs at src h = omega (
    arith,
    length-append (take at xs) (src ++ drop (at + length src) xs),
    length-append src (drop (at + length src) xs),
    length-take at xs,
    length-drop (at + length src) xs,
  )

  -- The written elements themselves.
  pub slice-overwrite_self :
      (xs : List A) (at : ℕ) (src : List A)
      → at ≤ length xs
      → slice at (at + length src) (overwrite xs at src) ≡ src
  slice-overwrite_self xs at src h =
      slice_middle at (at + length src) (take at xs) src (drop (at + length src) xs)
        (omega (arith, length-take at xs)) refl

  pub drop-take : (n k : ℕ) (xs : List A) → drop n (take k xs) ≡ take (k - n) (drop n xs)
  drop-take zero k xs = ap (λ m. take m xs) {x = k} {y = k - 0} (omega arith)
  drop-take (suc n) zero xs =
      ap (λ m. take m (drop (suc n) xs)) {x = 0} {y = 0 - suc n} (omega arith)
  drop-take (suc n) (suc k) [] = sym (take_nil (suc k - suc n))
  drop-take (suc n) (suc k) (x ∷ xs) =
      drop-take n k xs ∙ ap (λ m. take m (drop n xs)) {x = k - n} {y = suc k - suc n} (omega arith)

  pub drop-slice : (n r w : ℕ) (xs : List A) → drop n (slice r w xs) ≡ slice (r + n) w xs
  drop-slice n r w xs =
      drop-take n (w - r) (drop r xs)
      ∙ ap (take (w - r - n)) (drop-drop n r xs)
      ∙ ap (λ m. take m (drop (r + n) xs)) {x = w - r - n} {y = w - (r + n)} (omega arith)

  pub take-take : (m n : ℕ) (xs : List A) → m ≤ n → take m (take n xs) ≡ take m xs
  take-take zero n xs h = refl
  take-take (suc m) zero xs h = absurd (omega arith)
  take-take (suc m) (suc n) [] h = refl
  take-take (suc m) (suc n) (x ∷ xs) h = ap (◌∷◌ x) (take-take m n xs (omega arith))

  -- A slice of a slice is a slice of the whole.
  pub slice-slice :
      (i j r w : ℕ) (xs : List A)
      → i ≤ j
      → r + j ≤ w
      → slice (r + i) (r + j) xs ≡ slice i j (slice r w xs)
  slice-slice i j r w xs h k =
      ap (λ m. take m (drop (r + i) xs)) {x = r + j - (r + i)} {y = j - i} (omega arith)
      ∙ sym (take-take (j - i) (w - (r + i)) (drop (r + i) xs) (omega arith))
      ∙ ap (take (j - i)) (sym (drop-slice i r w xs))
