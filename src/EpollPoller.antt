-- ===== src/EpollPoller.antt =====
-- The poller over `epoll`, net/poller/EpollPoller.h and net/poller/EpollPoller.cc. A `Channel*` is a
-- number and `heap` has the channel that stands there. `epoll_ctl` is a parameter, which answers the
-- kernel's new state or an error; what `epoll_wait` answers is an argument.
pub mod Interest
pub mod Events
mod Tests
use summer.Prelude.{
  ℕ, zero, suc, ◌+◌, ◌*◌, ◌≡◌, Bool, true, false, not, ◌&&◌, ◌==◌, leb, if◌then◌else◌, List, [],
  ◌∷◌, Option, none, some, Outcome, ok, aborted, ◌>>=◌, ◌>>◌, assert, length,
}
use summer.Channel.{Mask, Channel, is_none_event, set_revents}
use summer.PollPoller.{is_none, is_at, with_channel, with_index}

-- `EPOLL_CTL_ADD`, `EPOLL_CTL_MOD` and `EPOLL_CTL_DEL`
pub data Operation : Type 0 where
  ctl_add ctl_mod ctl_del : Operation

-- `size` is that of `events_`.
pub record Epoll : Type 0 where
  pub channels : ℕ → Option ℕ
  pub heap : ℕ → Channel
  pub size : ℕ

abbrev pub init_max_events : ℕ
init_max_events = 20

unfoldable pub init : (ℕ → Channel) → Epoll
init heap = record { channels = λ fd. none; heap = heap; size = init_max_events }

-- `index() == 1`
abbrev pub is_one : Option ℕ → Bool
is_one none = false
is_one (some i) = i == 1

module _ {K : Type 0} (epoll_ctl : Operation → ℕ → Mask → ℕ → K → Option K) where
  abbrev pub checked : Option K → Outcome K
  checked none = aborted
  checked (some k) = ok k

  -- An error is logged by LOG_SYSFATAL, which aborts.
  unfoldable pub update : Operation → Epoll → ℕ → K → Outcome K
  update operation p channel k =
      let c = p.heap channel in checked (epoll_ctl operation c.fd c.events channel k)

  abbrev pub update_at : Epoll → ℕ → K → Option ℕ → Outcome (Epoll × K)
  update_at p channel k none =
      let fd = (p.heap channel).fd in
      let p' = record p {
        channels = with_channel p.channels fd (some channel);
        heap = with_index p.heap channel 1;
      } in
      (do assert (is_none (p.channels fd)); k' ← update ctl_add p' channel k; ok (p', k'))
  update_at p channel k (some i) = (do
    assert (is_at (p.channels (p.heap channel).fd) channel)
    assert (i == 1)
    k' ← update ctl_mod p channel k
    ok (p, k'))

  unfoldable pub update_channel : Epoll → ℕ → K → Outcome (Epoll × K)
  update_channel p channel k = update_at p channel k (p.heap channel).index

  -- The index of the channel stays as it is.
  unfoldable pub remove_channel : Epoll → ℕ → K → Outcome (Epoll × K)
  remove_channel p channel k =
      let fd = (p.heap channel).fd in
      let p' = record p { channels = with_channel p.channels fd none } in
      (do
        assert (is_at (p.channels fd) channel)
        assert (is_none_event (p.heap channel))
        k' ← update ctl_del p' channel k
        ok (p', k'))

-- The loop of `fillActiveChannels` over the events that `epoll_wait` has written.
unfoldable pub fill : Epoll → List (ℕ × Mask) → Outcome (List ℕ × Epoll)
fill p [] = ok ([], p)
fill p ((channel, events) ∷ rest) = do
  assert (is_at (p.channels (p.heap channel).fd) channel)
  assert (is_one (p.heap channel).index)
  r ←
      fill
        (record p { heap = λ k. if k == channel then set_revents (p.heap k) events else p.heap k })
        rest
  ok (channel ∷ r.0, r.1)

-- `poll`, when `epoll_wait` has written these events; none are written on a timeout or an error.
unfoldable pub poll : Epoll → List (ℕ × Mask) → Outcome (List ℕ × Epoll)
poll p [] = ok ([], p)
poll p (e ∷ es) = do
  assert (leb (length (e ∷ es)) p.size)
  r ← fill p (e ∷ es)
  ok (r.0, record r.1 { size = if length (e ∷ es) == r.1.size then r.1.size * 2 else r.1.size })
