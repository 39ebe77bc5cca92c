-- ===== src/PollPoller/Remove.antt =====
-- `removeChannel`: the two ways in which an entry goes.
use summer.Prelude.{
  ℕ, ◌-◌, ◌≡◌, refl, arith, true, Bool-cases, inl, inr, ◌==◌, if◌then◌else◌, none, some, Returns,
  length, get_elem?,
}
use summer.Channel.{is_none_event}
use summer.PollPoller.{PollFd, Poller, check_entry, remove_entry, remove_channel}
use summer.PollPoller.Entries.{IsValid, get_elem?-lt, get_elem?-of_lt, entry_of}
use summer.PollPoller.Cut.{other_fd, cut, cut-IsValid, cut-entry}
use summer.PollPoller.Swap.{swapped, swapped-IsValid, swapped-entry}

-- What it means that a channel was taken out of the poller.
abbrev pub Removed : Poller → ℕ → Poller → Type 0
Removed p fd r =
    IsValid r
    × ((k : ℕ) → r.channels k ≡ (if k == fd then none else p.channels k))
    × ((k : ℕ) → entry_of r k ≡ (if k == fd then none else entry_of p k))

-- The removal of a registered channel without events, whose entry is ignored and has no events,
-- returns: the channel is no longer registered, every other channel keeps its registration and its
-- entry, wherever that stands now, and the entries and the map still agree.
pub remove_channel-Removed :
    (p : Poller) (channel i : ℕ) (pfd : PollFd)
    → IsValid p
    → p.channels (p.heap channel).fd ≡ some channel
    → (p.heap channel).index ≡ some i
    → get_elem? p.pollfds i ≡ some pfd
    → is_none_event (p.heap channel) ≡ true
    → check_entry (p.heap channel) (some pfd) ≡ true
    → Returns (Removed p (p.heap channel).fd) (remove_channel p channel)
unfolding remove_channel remove_entry cut swapped
remove_channel-Removed p channel i pfd v e f g idle checked =
    elim (Bool-cases (i == length p.pollfds - 1)) [
      | inl s ↦
          let last : i ≡ length p.pollfds - 1 = ground (arith, s) in
          (
            cut p channel i pfd v e f g,
            rw (e, f, g) (ground (arith, idle, checked, s)),
            (
              cut-IsValid p channel i pfd v e f g last,
              λ k. refl,
              cut-entry p channel i pfd v e f g last,
            ),
          )
      | inr s ↦
          let (last, at_end) =
            get_elem?-of_lt p.pollfds (length p.pollfds - 1)
              (ground (arith, s, get_elem?-lt p.pollfds i pfd g)) in
          let (moved, there, knows) = v.listed (length p.pollfds - 1) last at_end in
          let other =
            other_fd p channel i pfd v e f g (length p.pollfds - 1) last at_end
              (ground (arith, s)) in
          (
            swapped p channel i pfd v e f g last moved s at_end there knows,
            rw (e, f, g, s, at_end) (ground (arith, idle, checked, other, there)),
            (
              swapped-IsValid p channel i pfd v e f g last moved s at_end there knows,
              λ k. refl,
              swapped-entry p channel i pfd v e f g last moved s at_end there knows,
            ),
          )
    ]
