-- ===== src/Decimal.antt =====
-- What `snprintf` prints of numbers: `%d` of one that is not negative, `%06d` and `%5d`, as the
-- code of base/Timestamp.cc, base/Logging.cc, net/TcpServer.cc, net/TcpClient.cc and
-- net/SocketOpts.cc uses it.
use summer.Prelude.{
  ℕ, zero, suc, ◌+◌, ◌-◌, ◌*◌, ◌/◌, ◌%◌, ◌≤◌, ◌<◌, ◌≡◌, ◌≢◌, ◌==◌, refl, sym, ap, ◌∙◌, arith, ltb,
  if◌then◌else◌, List, [], ◌∷◌, ◌++◌, length, take, length-append, inl, inr, Bool-cases,
}

abbrev pub Text : Type 0
Text = List ℕ

-- What `%d` prints of a number that is not negative.
unfoldable pub digits : ℕ → ℕ → Text
digits zero n = []
digits (suc fuel) n =
    let front = digits fuel (n / 10) in
    if ltb n 10 then (48 + n) ∷ [] else front ++ ((48 + n % 10) ∷ [])

abbrev pub decimal : ℕ → Text
decimal n = digits (suc n) n

-- The number that a row of digits stands for.
abbrev pub value_from : ℕ → Text → ℕ
value_from acc [] = acc
value_from acc (d ∷ ds) = value_from (acc * 10 + (d - 48)) ds

pub value-snoc :
    (acc : ℕ) (ds : Text) (d : ℕ)
    → value_from acc (ds ++ (d ∷ [])) ≡ value_from acc ds * 10 + (d - 48)
value-snoc acc [] d = refl
value-snoc acc (e ∷ ds) d = value-snoc (acc * 10 + (e - 48)) ds d

pub value-digits : (fuel n : ℕ) → n < fuel → value_from 0 (digits fuel n) ≡ n
unfolding digits
value-digits zero n h = absurd (omega arith)
value-digits (suc fuel) n h = elim (Bool-cases (ltb n 10)) [
  | inl s ↦ rw s (omega arith)
  | inr s ↦
      let big : 10 ≤ n = ground (arith, s) in
      rw
        (
          s,
          value-snoc 0 (digits fuel (n / 10)) (48 + n % 10),
          value-digits fuel (n / 10) (omega arith),
        )
        (omega arith)
]

abbrev pub tens : ℕ → ℕ
tens zero = 1
tens (suc k) = 10 * tens k

pub length-digits : (k fuel n : ℕ) → n < tens k → 0 < k → length (digits fuel n) ≤ k
unfolding digits
length-digits k zero n h p = omega arith
length-digits zero (suc fuel) n h p = absurd (omega arith)
length-digits (suc zero) (suc fuel) n h p = ground (arith, h)
length-digits (suc (suc k)) (suc fuel) n h p = elim (Bool-cases (ltb n 10)) [
  | inl s ↦ rw s (omega arith)
  | inr s ↦ rw s (
      omega (
        arith,
        length-append (digits fuel (n / 10)) ((48 + n % 10) ∷ []),
        length-digits (suc k) fuel (n / 10) (omega arith) (omega arith),
      ))
]

pub take_all : (n : ℕ) (xs : Text) → length xs ≤ n → take n xs ≡ xs
take_all zero [] h = refl
take_all zero (x ∷ xs) h = absurd (omega arith)
take_all (suc n) [] h = refl
take_all (suc n) (x ∷ xs) h = ap (◌∷◌ x) (take_all n xs (omega arith))

pub cancel : (xs ys zs : Text) → xs ++ ys ≡ xs ++ zs → ys ≡ zs
cancel [] ys zs e = e
cancel (x ∷ xs) ys zs e = cancel xs ys zs (tail_of e)
  where
    tail_of : {y z : ℕ} {us vs : Text} → y ∷ us ≡ z ∷ vs → us ≡ vs
    tail_of f = cc

pub value-decimal : (n : ℕ) → value_from 0 (decimal n) ≡ n
value-decimal n = value-digits (suc n) n (omega arith)

pub length-decimal : (k n : ℕ) → n < tens k → 0 < k → length (decimal n) ≤ k
length-decimal k n h p = length-digits k (suc n) n h p

pub decimal-injective : (m n : ℕ) → decimal m ≡ decimal n → m ≡ n
decimal-injective m n e =
    sym (value-digits (suc m) m (omega arith))
    ∙ ap (value_from 0) e
    ∙ value-digits (suc n) n (omega arith)

unfoldable pub fills : ℕ → ℕ → Text
fills c zero = []
fills c (suc n) = c ∷ fills c n

-- A text behind so many of the character that it is at least `width` long.
unfoldable pub padded : ℕ → ℕ → Text → Text
padded c width t = fills c (width - length t) ++ t

pub length-fills : (c n : ℕ) → length (fills c n) ≡ n
unfolding fills
length-fills c zero = refl
length-fills c (suc n) = ap suc (length-fills c n)

pub length-padded : (c width : ℕ) (t : Text) → length t ≤ width → length (padded c width t) ≡ width
unfolding padded
length-padded c width t h =
    omega (arith, length-append (fills c (width - length t)) t, length-fills c (width - length t))

value-fills : (n : ℕ) (t : Text) → value_from 0 (fills b'0' n ++ t) ≡ value_from 0 t
unfolding fills
value-fills zero t = refl
value-fills (suc n) t = value-fills n t

pub value-padded : (width : ℕ) (t : Text) → value_from 0 (padded b'0' width t) ≡ value_from 0 t
unfolding padded
value-padded width t = value-fills (width - length t) t

-- The character does not stand in the text.
abbrev pub Without : ℕ → Text → Type 0
Without c [] = Unit {0}
Without c (x ∷ t) = (x ≢ c) × Without c t

pub Without-append : (c : ℕ) (s t : Text) → Without c s → Without c t → Without c (s ++ t)
Without-append c [] t hs ht = ht
Without-append c (x ∷ s) t (d, hs) ht = (d, Without-append c s t hs ht)

pub Without-digits : (c fuel n : ℕ) → c < b'0' → Without c (digits fuel n)
unfolding digits
Without-digits c zero n h = tt
Without-digits c (suc fuel) n h = elim (Bool-cases (ltb n 10)) [
  | inl s ↦ rw s (λ e. absurd (omega (arith, e)), tt)
  | inr s ↦ rw s (
      Without-append c (digits fuel (n / 10)) ((48 + n % 10) ∷ [])
        (Without-digits c fuel (n / 10) h) (λ e. absurd (omega (arith, e)), tt))
]

pub Without-decimal : (c n : ℕ) → c < b'0' → Without c (decimal n)
Without-decimal c n h = Without-digits c (suc n) n h

-- What stands before the first such character, and behind it.
abbrev pub front : ℕ → Text → Text
front c [] = []
front c (x ∷ t) = let rest = front c t in if x == c then [] else x ∷ rest

abbrev pub behind : ℕ → Text → Text
behind c [] = []
behind c (x ∷ t) = let rest = behind c t in if x == c then t else rest

pub front-append : (c : ℕ) (s t : Text) → Without c s → front c (s ++ (c ∷ t)) ≡ s
front-append c [] t h = ground arith
front-append c (x ∷ s) t (d, h) = ground (arith, d, front-append c s t h)

pub behind-append : (c : ℕ) (s t : Text) → Without c s → behind c (s ++ (c ∷ t)) ≡ t
behind-append c [] t h = ground arith
behind-append c (x ∷ s) t (d, h) = ground (arith, d, behind-append c s t h)
