-- ===== src/Hub/Topics.antt =====
-- The map of topics: what stands under a name after a change.
use summer.Prelude.{◌≡◌, ◌↔◌, refl, arith, true, if◌then◌else◌, List, [], ◌∷◌}
use summer.Codec.{same}
use summer.Hub.{Text, Topic, get_topic, put_topic}

pub same_refl : (xs : Text) → same xs xs ≡ true
unfolding same
same_refl [] = refl
same_refl (x ∷ xs) = ground (arith, same_refl xs)

pub eq_of_same : (xs ys : Text) → same xs ys ≡ true → xs ≡ ys
unfolding same
eq_of_same [] [] h = refl
eq_of_same [] (y ∷ ys) h = cc
eq_of_same (x ∷ xs) [] h = cc
eq_of_same (x ∷ xs) (y ∷ ys) h = ground (arith, eq_of_same xs ys)

pub same_iff : (xs ys : Text) → (same xs ys ≡ true) ↔ (xs ≡ ys)
same_iff xs ys = (eq_of_same xs ys, λ e. rw e (same_refl ys))

-- A topic that was put under a name is found there, and every other name leads where it led.
pub get_topic-put_topic :
    (m : List (Text × Topic)) (name other : Text) (t : Topic)
    → get_topic (put_topic m name t) other ≡ (if same name other then t else get_topic m other)
unfolding get_topic put_topic
get_topic-put_topic [] name other t = refl
get_topic-put_topic ((key, u) ∷ m) name other t = ground (
  arith,
  same_iff key name,
  same_iff key other,
  same_iff name other,
  get_topic-put_topic m name other t,
)
