-- ===== src/Logging/Names.antt =====
-- The name of the file that a line gives.
use summer.Prelude.{◌≡◌, refl, arith, [], ◌∷◌, ◌++◌}
use summer.Decimal.{Text, Without}
use summer.Logging.{base_from, base_name}

base_from-without : (base t : Text) → Without b'/' t → base_from base t ≡ base
unfolding base_from
base_from-without base [] h = refl
base_from-without base (x ∷ t) (d, h) = ground (arith, d, base_from-without base t h)

base_from-last :
    (base dir name : Text) → Without b'/' name → base_from base (dir ++ (b'/' ∷ name)) ≡ name
unfolding base_from
base_from-last base [] name h = ground (arith, base_from-without name name h)
base_from-last base (x ∷ dir) name h =
    ground (arith, base_from-last base dir name h, base_from-last (dir ++ (b'/' ∷ name)) dir name h)

-- Of a path the name behind its last slash is written, and of a name without one all of it.
pub base_name-last :
    (dir name : Text)
    → Without b'/' name
    → (base_name (dir ++ (b'/' ∷ name)) ≡ name) × (base_name name ≡ name)
base_name-last dir name h =
    (base_from-last (dir ++ (b'/' ∷ name)) dir name h, base_from-without name name h)
