-- ===== src/EpollPoller/Tests.antt =====
-- A kernel that does what epoll_ctl(2) says, and the theorems at runs with it.
use summer.Prelude.{
  ℕ, ◌≡◌, ◌⊎◌, aborted, inl, inr, refl, arith, true, ◌==◌, if◌then◌else◌, List, [], ◌∷◌, Option,
  none, some, Returns,
}
use summer.Channel.{Mask, none_event, with_read, Channel}
use summer.Channel
use summer.PollPoller.{with_channel, with_index}
use summer.EpollPoller.{Operation, ctl_add, ctl_mod, ctl_del, Epoll, init, update_channel}
use summer.EpollPoller.Interest.{Watch, IsEpoll, IsValid, asks, update_channel-asks}

abbrev Kernel : Type 0
Kernel = ℕ → Option Watch

abbrev kernel_set : Kernel → ℕ → Option Watch → Kernel
kernel_set k fd w j = if j == fd then w else k j

abbrev ctl_of : Operation → ℕ → Watch → Kernel → Option Watch → Option Kernel
ctl_of ctl_add fd w k none = some (kernel_set k fd (some w))
ctl_of ctl_add fd w k (some old) = none
ctl_of ctl_mod fd w k none = none
ctl_of ctl_mod fd w k (some old) = some (kernel_set k fd (some w))
ctl_of ctl_del fd w k none = none
ctl_of ctl_del fd w k (some old) = some (kernel_set k fd none)

abbrev epoll_ctl : Operation → ℕ → Mask → ℕ → Kernel → Option Kernel
epoll_ctl operation fd m c k = ctl_of operation fd (m, c) k (k fd)

abbrev watches : Kernel → ℕ → Option Watch
watches k fd = k fd

kernel : IsEpoll epoll_ctl watches
kernel = record {
  adds = λ fd m c k e. inr (kernel_set k fd (some (m, c)), rw e refl, λ j. refl);
  changes = λ fd m c k w e. inr (kernel_set k fd (some (m, c)), rw e refl, λ j. refl);
  drops = λ fd m c k w e. inr (kernel_set k fd none, rw e refl, λ j. refl);
}

abbrev reading : ℕ → Channel
reading fd = record (Channel.init fd) { events = with_read none_event }

abbrev heap : ℕ → Channel
heap k = if k == 1 then reading 5 else Channel.init 6

abbrev nothing : Kernel
nothing fd = none

update_channel-asks_example :
    (epoll_ctl ctl_add 5 (reading 5).events 1 nothing ≡ none)
      × (update_channel epoll_ctl (init heap) 1 nothing ≡ aborted)
    ⊎ (k' : Kernel) × (epoll_ctl ctl_add 5 (reading 5).events 1 nothing ≡ some k')
      × Returns
          (λ r.
            IsValid r.0
            × (r.0.channels 5 ≡ some 1)
            × (r.1 ≡ k')
            × ((fd : ℕ) → watches r.1 fd ≡ asks r.0 fd))
          (update_channel epoll_ctl (init heap) 1 nothing)
unfolding init Channel.init
update_channel-asks_example =
    update_channel-asks epoll_ctl watches kernel (init heap) 1 nothing (λ fd c h. cc)
      ((λ j h. refl), (λ h. refl), λ c h. cc) (inl (refl, refl))

-- Channel 2, without events, is registered.
abbrev one : Epoll
one = record {
  channels = with_channel (λ fd. none) 6 (some 2);
  heap = with_index heap 2 1;
  size = 2;
}

one-IsValid : IsValid one
unfolding Channel.init
one-IsValid fd c h = ground (arith, h)

abbrev watched : Kernel
watched = kernel_set nothing 6 (some (none_event, 2))

watched-asks : (fd : ℕ) → watches watched fd ≡ asks one fd
unfolding Channel.init
watched-asks fd = ground arith

abbrev reports : List (ℕ × Mask)
reports = (2, record none_event { pollhup = true }) ∷ []
