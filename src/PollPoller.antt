-- ===== src/PollPoller.antt =====
-- The poller over `poll`, net/poller/PollPoller.h and net/poller/PollPoller.cc, and the parts of
-- net/Poller.h. A `Channel*` is a number and `heap` has the channel that stands there; what `poll`
-- answers is an argument.
pub mod Entries
pub mod Update
pub mod Cut
pub mod Swap
pub mod Remove
pub mod Active
mod Tests
use summer.Prelude.{
  ℤ, pos, negsuc, ℕ, zero, suc, ◌+◌, ◌-◌, Bool, true, false, not, ◌&&◌, ◌||◌, ◌==◌, ltb,
  if◌then◌else◌, List, [], ◌∷◌, ◌++◌, Option, none, some, Outcome, ok, aborted, invalid, ◌>>=◌,
  ◌>>◌, assert, length, get_elem?, set, take,
}
use summer.Channel.{Mask, none_event, is_none_mask, Channel, is_none_event, set_revents}

-- The descriptor of a `pollfd` is signed: `negsuc n` is -n-1, with which `poll` ignores the entry.
abbrev pub same_fd : ℤ → ℤ → Bool
same_fd (pos m) (pos n) = m == n
same_fd (negsuc m) (negsuc n) = m == n
same_fd _ _ = false

pub record PollFd : Type 0 where
  pub fd : ℤ
  pub events : Mask
  pub revents : Mask

pub record Poller : Type 0 where
  pub pollfds : List PollFd
  pub channels : ℕ → Option ℕ
  pub heap : ℕ → Channel

unfoldable pub init : (ℕ → Channel) → Poller
init heap = record { pollfds = []; channels = λ fd. none; heap = heap }

abbrev pub is_none : Option ℕ → Bool
is_none none = true
is_none (some c) = false

-- `channels_[fd] == channel`, where there is an entry.
abbrev pub is_at : Option ℕ → ℕ → Bool
is_at none channel = false
is_at (some c) channel = c == channel

abbrev pub with_channel : (ℕ → Option ℕ) → ℕ → Option ℕ → ℕ → Option ℕ
with_channel channels fd c k = if k == fd then c else channels k

abbrev pub with_index : (ℕ → Channel) → ℕ → ℕ → ℕ → Channel
with_index heap channel i k =
    if k == channel then record (heap channel) { index = some i } else heap k

-- `==` of the two masks.
abbrev pub same_bit : Bool → Bool → Bool
same_bit true b = b
same_bit false b = not b

abbrev pub same_mask : Mask → Mask → Bool
same_mask m n =
    same_bit m.pollin n.pollin
    && (same_bit m.pollpri n.pollpri
        && (same_bit m.pollout n.pollout
            && (same_bit m.pollerr n.pollerr
                && (same_bit m.pollhup n.pollhup
                    && (same_bit m.pollnval n.pollnval && same_bit m.pollrdhup n.pollrdhup)))))

-- The branch of a new channel.
unfoldable pub add_channel : Poller → ℕ → Outcome Poller
add_channel p channel =
    let c = p.heap channel in
    (do
      assert (is_none (p.channels c.fd))
      ok (record {
        pollfds =
            p.pollfds ++ (record { fd = pos c.fd; events = c.events; revents = none_event } ∷ []);
        channels = with_channel p.channels c.fd (some channel);
        heap = with_index p.heap channel (length p.pollfds);
      }))

-- What the update of a channel makes of its entry.
unfoldable pub updated : Channel → PollFd → PollFd
updated c pfd = record {
  fd = if is_none_event c then negsuc c.fd else pfd.fd;
  events = c.events;
  revents = none_event;
}

abbrev pub update_entry : Poller → Channel → ℕ → Option PollFd → Outcome Poller
update_entry p c i none = aborted
update_entry p c i (some pfd) = do
  assert (same_fd pfd.fd (pos c.fd) || same_fd pfd.fd (negsuc c.fd))
  ok (record p { pollfds = set p.pollfds i (updated c pfd) })

-- The branch of a channel that has an index. An index behind the end fails the assertion.
unfoldable pub update_existing : Poller → ℕ → ℕ → Outcome Poller
update_existing p channel i =
    let c = p.heap channel in
    (do assert (is_at (p.channels c.fd) channel); update_entry p c i (get_elem? p.pollfds i))

abbrev pub update_at : Poller → ℕ → Option ℕ → Outcome Poller
update_at p channel none = add_channel p channel
update_at p channel (some i) = update_existing p channel i

unfoldable pub update_channel : Poller → ℕ → Outcome Poller
update_channel p channel = update_at p channel (p.heap channel).index

-- `channelAtEnd`
abbrev pub fd_of : ℤ → ℕ
fd_of (pos fd) = fd
fd_of (negsuc fd) = fd

-- The entry at the end takes the place that is free, and its channel learns of it; a descriptor
-- without a channel would be used through a null pointer.
abbrev pub move_last : Poller → ℕ → Option PollFd → Outcome Poller
move_last p i none = invalid
move_last p i (some last) = elim (p.channels (fd_of last.fd)) [
  | none ↦ invalid
  | some moved ↦ ok (record p {
    pollfds = take (length p.pollfds - 1) (set p.pollfds i last);
    heap = with_index p.heap moved i;
  })
]

unfoldable pub remove_entry : Poller → ℕ → Outcome Poller
remove_entry p i =
    if i == length p.pollfds - 1
    then ok (record p { pollfds = take (length p.pollfds - 1) p.pollfds })
    else move_last p i (get_elem? p.pollfds (length p.pollfds - 1))

abbrev pub check_entry : Channel → Option PollFd → Bool
check_entry c none = false
check_entry c (some pfd) = same_fd pfd.fd (negsuc c.fd) && same_mask pfd.events c.events

abbrev pub remove_at : Poller → Channel → Option ℕ → Outcome Poller
remove_at p c none = aborted
remove_at p c (some i) = do
  assert (check_entry c (get_elem? p.pollfds i))
  remove_entry (record p { channels = with_channel p.channels c.fd none }) i

unfoldable pub remove_channel : Poller → ℕ → Outcome Poller
remove_channel p channel =
    let c = p.heap channel in
    (do assert (is_at (p.channels c.fd) channel); assert (is_none_event c); remove_at p c c.index)

-- The channel of an entry with events; `find` of a negative descriptor finds nothing.
abbrev pub find_fd : Poller → ℤ → Option ℕ
find_fd p (pos fd) = p.channels fd
find_fd p (negsuc n) = none

abbrev pub set_active : Poller → Option ℕ → PollFd → Outcome (ℕ × Poller)
set_active p none pfd = aborted
set_active p (some channel) pfd = do
  assert (same_fd (pos (p.heap channel).fd) pfd.fd)
  ok (
    channel,
    record p { heap = λ k. if k == channel then set_revents (p.heap k) pfd.revents else p.heap k },
  )

-- The entry has events, and one more is looked for.
abbrev pub is_active : ℕ → PollFd → Bool
is_active num_events pfd = ltb 0 num_events && not (is_none_mask pfd.revents)

-- The loop of `fillActiveChannels` over the entries left; a round without events changes nothing.
unfoldable pub fill_active_channels : ℕ → List PollFd → Poller → Outcome (List ℕ × Poller)
fill_active_channels num_events [] p = ok ([], p)
fill_active_channels num_events (pfd ∷ pfds) p = elim (is_active num_events pfd) [
  | false ↦ fill_active_channels num_events pfds p
  | true ↦ (do
    r ← set_active p (find_fd p pfd.fd) pfd
    s ← fill_active_channels (num_events - 1) pfds r.1
    ok (r.0 ∷ s.0, s.1))
]

-- `poll` writes what has happened into the entries.
abbrev pub with_revents : List PollFd → List Mask → List PollFd
with_revents pfds [] = pfds
with_revents [] (m ∷ ms) = []
with_revents (pfd ∷ pfds) (m ∷ ms) = record pfd { revents = m } ∷ with_revents pfds ms

-- The number of entries with events, and the events; an error leaves the entries as they are.
pub data Answer : Type 0 where
  ready : ℕ → List Mask → Answer
  poll_failed : Answer

unfoldable pub poll : Poller → Answer → Outcome (List ℕ × Poller)
poll p poll_failed = ok ([], p)
poll p (ready num_events events) =
    let p' = record p { pollfds = with_revents p.pollfds events } in
    fill_active_channels num_events p'.pollfds p'
