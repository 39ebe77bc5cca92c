-- ===== src/Prelude/Pairs.antt =====
-- `std::set` of pairs of numbers, in the order of `std::pair`: ascending lists.
use Prim.Native.Nat.{ℕ, suc}
use mathlib.Core.Bool.{Bool, true, false, not, ◌&&◌, ◌||◌}
use mathlib.Core.List.{List, [], ◌∷◌}
use mathlib.Core.Path.{◌≡◌, refl}
use native.Mathlib.Omega.{arith}
use summer.Prelude.Lists.{length}
use summer.Prelude.Tests.{ltb, ◌==◌, if◌then◌else◌}

abbrev pub Pair : Type 0
Pair = ℕ × ℕ

-- `operator<` and `operator==` of `std::pair`.
abbrev pub less : Pair → Pair → Bool
less (a, b) (c, d) = ltb a c || (a == c && ltb b d)

abbrev pub same_pair : Pair → Pair → Bool
same_pair (a, b) (c, d) = a == c && b == d

-- `find(e) != end()`
unfoldable pub has : Pair → List Pair → Bool
has e [] = false
has e (x ∷ xs) = same_pair e x || has e xs

unfoldable pub put : Pair → List Pair → List Pair
put e [] = e ∷ []
put e (x ∷ xs) = if less e x then e ∷ x ∷ xs else if same_pair e x then x ∷ xs else x ∷ put e xs

unfoldable pub delete : Pair → List Pair → List Pair
delete e [] = []
delete e (x ∷ xs) = if same_pair e x then xs else x ∷ delete e xs

-- Every element is above the pair; the list is strictly ascending.
abbrev pub Above : Pair → List Pair → Type 0
Above e [] = Unit {0}
Above e (x ∷ xs) = (less e x ≡ true) × Above e xs

abbrev pub Sorted : List Pair → Type 0
Sorted [] = Unit {0}
Sorted (x ∷ xs) = Above x xs × Sorted xs

pub has-put : (d e : Pair) (xs : List Pair) → has d (put e xs) ≡ (same_pair d e || has d xs)
unfolding has put
has-put d e [] = ground arith
has-put d e (x ∷ xs) = ground (arith, has-put d e xs)

pub has-Above : (d : Pair) (xs : List Pair) → Above d xs → has d xs ≡ false
unfolding has
has-Above d [] a = refl
has-Above d (x ∷ xs) a = ground (arith, has-Above d xs a.1)

pub has-delete :
    (d e : Pair) (xs : List Pair)
    → Sorted xs
    → has d (delete e xs) ≡ (not (same_pair d e) && has d xs)
unfolding has delete
has-delete d e [] s = ground arith
has-delete d e (x ∷ xs) s = ground (arith, has-delete d e xs s.1, has-Above x xs s.0)

pub Above-put : (d e : Pair) (xs : List Pair) → less d e ≡ true → Above d xs → Above d (put e xs)
unfolding put
Above-put d e [] h a = (h, tt)
Above-put d e (x ∷ xs) h a = ground (arith, Above-put d e xs)

pub Above-trans : (d e : Pair) (xs : List Pair) → less d e ≡ true → Above e xs → Above d xs
Above-trans d e [] h a = tt
Above-trans d e (x ∷ xs) h a = (ground (arith, a.0), Above-trans d e xs h a.1)

pub put-Sorted : (e : Pair) (xs : List Pair) → Sorted xs → Sorted (put e xs)
unfolding put
put-Sorted e [] s = (tt, tt)
put-Sorted e (x ∷ xs) s = ground (arith, put-Sorted e xs s.1, Above-put x e xs, Above-trans e x xs)

pub Above-delete : (d e : Pair) (xs : List Pair) → Above d xs → Above d (delete e xs)
unfolding delete
Above-delete d e [] a = tt
Above-delete d e (x ∷ xs) a = ground (arith, Above-delete d e xs a.1)

pub delete-Sorted : (e : Pair) (xs : List Pair) → Sorted xs → Sorted (delete e xs)
unfolding delete
delete-Sorted e [] s = tt
delete-Sorted e (x ∷ xs) s = ground (arith, delete-Sorted e xs s.1, Above-delete x e xs s.0)

pub length-put :
    (e : Pair) (xs : List Pair) → has e xs ≡ false → length (put e xs) ≡ suc (length xs)
unfolding has put
length-put e [] h = refl
length-put e (x ∷ xs) h = ground (arith, length-put e xs)

pub length-delete :
    (e : Pair) (xs : List Pair) → has e xs ≡ true → suc (length (delete e xs)) ≡ length xs
unfolding has delete
length-delete e [] h = cc
length-delete e (x ∷ xs) h = ground (arith, length-delete e xs)
