-- ===== src/PollPoller/Entries.antt =====
-- The list of entries and the map of channels agree.
use summer.Prelude.{
  ℤ, pos, negsuc, ℕ, zero, suc, ◌<◌, ◌≡◌, refl, arith, true, ◌&&◌, ◌||◌, ◌==◌, ltb, if◌then◌else◌,
  List, [], ◌∷◌, ◌++◌, Option, none, some, length, get_elem?, set, take,
}
use summer.Channel.{Channel}
use summer.PollPoller.{same_fd, PollFd, Poller, fd_of, updated}

-- A registered channel knows the index of its entry, and an entry's channel is registered.
pub record IsValid (p : Poller) : Type 0 where
  pub registered :
      (fd c : ℕ)
      → p.channels fd ≡ some c
      → (i : ℕ) × (pfd : PollFd) × ((p.heap c).fd ≡ fd)
        × ((p.heap c).index ≡ some i)
        × (get_elem? p.pollfds i ≡ some pfd)
        × (fd_of pfd.fd ≡ fd)
  pub listed :
      (i : ℕ) (pfd : PollFd)
      → get_elem? p.pollfds i ≡ some pfd
      → (c : ℕ) × (p.channels (fd_of pfd.fd) ≡ some c) × ((p.heap c).index ≡ some i)

module _ {A : Type 0} where
  pub get_elem?-snoc :
      (xs : List A) (y : A) (i : ℕ)
      → get_elem? (xs ++ (y ∷ [])) i ≡ (if i == length xs then some y else get_elem? xs i)
  get_elem?-snoc [] y zero = refl
  get_elem?-snoc [] y (suc i) = ground arith
  get_elem?-snoc (x ∷ xs) y zero = ground arith
  get_elem?-snoc (x ∷ xs) y (suc i) = ground (arith, get_elem?-snoc xs y i)

  pub get_elem?-lt : (xs : List A) (i : ℕ) (y : A) → get_elem? xs i ≡ some y → i < length xs
  get_elem?-lt [] i y h = cc
  get_elem?-lt (x ∷ xs) zero y h = omega arith
  get_elem?-lt (x ∷ xs) (suc i) y h = omega (arith, get_elem?-lt xs i y h)

  pub get_elem?-of_lt : (xs : List A) (i : ℕ) → i < length xs → (y : A) × (get_elem? xs i ≡ some y)
  get_elem?-of_lt [] i h = absurd (omega arith)
  get_elem?-of_lt (x ∷ xs) zero h = (x, refl)
  get_elem?-of_lt (x ∷ xs) (suc i) h = get_elem?-of_lt xs i (omega arith)

  pub get_elem?-set :
      (xs : List A) (i j : ℕ) (y : A)
      → get_elem? (set xs i y) j ≡ (if j == i && ltb i (length xs) then some y else get_elem? xs j)
  get_elem?-set [] i j y = ground arith
  get_elem?-set (x ∷ xs) zero zero y = ground arith
  get_elem?-set (x ∷ xs) zero (suc j) y = ground arith
  get_elem?-set (x ∷ xs) (suc i) zero y = ground arith
  get_elem?-set (x ∷ xs) (suc i) (suc j) y = ground (arith, get_elem?-set xs i j y)

  pub get_elem?-take :
      (n : ℕ) (xs : List A) (i : ℕ)
      → get_elem? (take n xs) i ≡ (if ltb i n then get_elem? xs i else none)
  get_elem?-take zero xs i = ground arith
  get_elem?-take (suc n) [] i = ground arith
  get_elem?-take (suc n) (x ∷ xs) zero = ground arith
  get_elem?-take (suc n) (x ∷ xs) (suc i) = ground (arith, get_elem?-take n xs i)

-- The entry of a channel keeps its descriptor, up to being ignored.
pub fd_of-updated :
    (c : Channel) (pfd : PollFd) → fd_of pfd.fd ≡ c.fd → fd_of (updated c pfd).fd ≡ c.fd
unfolding updated
fd_of-updated c pfd e = ground (arith, e)

pub same_fd_of : (z : ℤ) (n : ℕ) → fd_of z ≡ n → (same_fd z (pos n) || same_fd z (negsuc n)) ≡ true
same_fd_of (pos m) n e = ground (arith, e)
same_fd_of (negsuc m) n e = ground (arith, e)

-- The entry of the channel that is registered for a descriptor.
abbrev pub entry_at : List PollFd → Option ℕ → Option PollFd
entry_at pollfds none = none
entry_at pollfds (some i) = get_elem? pollfds i

abbrev pub entry_of_channel : Poller → Option ℕ → Option PollFd
entry_of_channel p none = none
entry_of_channel p (some c) = entry_at p.pollfds (p.heap c).index

abbrev pub entry_of : Poller → ℕ → Option PollFd
entry_of p fd = entry_of_channel p (p.channels fd)

-- The entry of a descriptor stands where its channel says.
pub index_of_entry :
    (p : Poller) (fd c j : ℕ) (pfd : PollFd)
    → IsValid p
    → p.channels fd ≡ some c
    → get_elem? p.pollfds j ≡ some pfd
    → fd_of pfd.fd ≡ fd
    → (p.heap c).index ≡ some j
index_of_entry p fd c j pfd v e g k =
    let (d, f, h) = v.listed j pfd g in let same : c ≡ d = ground (arith, e, f, k) in rw same h
