-- ===== src/Hub/Audience.antt =====
-- The set of connections that listen to a topic.
use summer.Prelude.{
  ℕ, ◌+◌, ◌≤◌, ◌<◌, ◌≡◌, refl, arith, Bool, false, ◌&&◌, ◌||◌, not, ◌==◌, if◌then◌else◌, List, [],
  ◌∷◌, map,
}
use summer.Hub.{insert, erase, Effect, sent, Text}

abbrev pub has : ℕ → List ℕ → Bool
has c [] = false
has c (x ∷ xs) = c == x || has c xs

-- Strictly ascending, from a bound on.
abbrev pub Ascending : ℕ → List ℕ → Type 0
Ascending n [] = Unit {0}
Ascending n (x ∷ xs) = (n ≤ x) × Ascending (x + 1) xs

pub has-insert : (d c : ℕ) (xs : List ℕ) → has d (insert c xs) ≡ (d == c || has d xs)
unfolding insert
has-insert d c [] = refl
has-insert d c (x ∷ xs) = ground (arith, has-insert d c xs)

has_below : (n d : ℕ) (xs : List ℕ) → Ascending n xs → d < n → has d xs ≡ false
has_below n d [] a h = refl
has_below n d (x ∷ xs) a h = ground (arith, has_below (x + 1) d xs a.1)

pub has-erase :
    (n d c : ℕ) (xs : List ℕ) → Ascending n xs → has d (erase c xs) ≡ (not (d == c) && has d xs)
unfolding erase
has-erase n d c [] a = ground arith
has-erase n d c (x ∷ xs) a =
    ground (arith, has-erase (x + 1) d c xs a.1, has_below (x + 1) d xs a.1)

pub insert-Ascending : (n c : ℕ) (xs : List ℕ) → n ≤ c → Ascending n xs → Ascending n (insert c xs)
unfolding insert
insert-Ascending n c [] h a = (h, tt)
insert-Ascending n c (x ∷ xs) h a = ground (arith, insert-Ascending (x + 1) c xs)

Ascending-mono : (m n : ℕ) (xs : List ℕ) → m ≤ n → Ascending n xs → Ascending m xs
Ascending-mono m n [] h a = tt
Ascending-mono m n (x ∷ xs) h a = (omega arith, a.1)

pub erase-Ascending : (n c : ℕ) (xs : List ℕ) → Ascending n xs → Ascending n (erase c xs)
unfolding erase
erase-Ascending n c [] a = tt
erase-Ascending n c (x ∷ xs) a =
    ground (arith, erase-Ascending (x + 1) c xs a.1, Ascending-mono n (x + 1) xs)

-- How many messages go to a connection.
abbrev pub deliveries : ℕ → List Effect → ℕ
deliveries c [] = 0
deliveries c (sent d text ∷ es) = (if c == d then 1 else 0) + deliveries c es

pub deliveries-map :
    (n c : ℕ) (text : Text) (xs : List ℕ)
    → Ascending n xs
    → deliveries c (map (λ conn. sent conn text) xs) ≡ (if has c xs then 1 else 0)
deliveries-map n c text [] a = refl
deliveries-map n c text (x ∷ xs) a =
    ground (arith, deliveries-map (x + 1) c text xs a.1, has_below (x + 1) c xs a.1)
