-- ===== src/EpollPoller/Interest.antt =====
-- What the kernel watches is what the channels ask for.
use summer.Prelude.{
  ℕ, ◌≡◌, refl, ap, ◌∙◌, arith, true, false, inl, inr, ◌==◌, ◌⊎◌, if◌then◌else◌, Option, none, some,
  aborted, ok, Returns,
}
use summer.Channel.{Mask, Channel, is_none_event}
use summer.PollPoller.{with_channel, with_index}
use summer.EpollPoller.{
  Operation, ctl_add, ctl_mod, ctl_del, Epoll, update, update_channel, remove_channel,
}

-- The events and the channel that the kernel has for a descriptor.
abbrev pub Watch : Type 0
Watch = Mask × ℕ

-- What epoll_ctl(2) documents, of a view of the kernel's state as a map: it fails, or it adds a
-- descriptor that is not there, and changes or takes off one that is.
pub record IsEpoll {K : Type 0} (epoll_ctl : Operation → ℕ → Mask → ℕ → K → Option K)
    (watches : K → ℕ → Option Watch) : Type 0 where
  pub adds :
      (fd : ℕ) (m : Mask) (c : ℕ) (k : K)
      → watches k fd ≡ none
      → (epoll_ctl ctl_add fd m c k ≡ none)
        ⊎ ((k' : K) × (epoll_ctl ctl_add fd m c k ≡ some k')
            × ((j : ℕ) → watches k' j ≡ (if j == fd then some (m, c) else watches k j)))
  pub changes :
      (fd : ℕ) (m : Mask) (c : ℕ) (k : K) (w : Watch)
      → watches k fd ≡ some w
      → (epoll_ctl ctl_mod fd m c k ≡ none)
        ⊎ ((k' : K) × (epoll_ctl ctl_mod fd m c k ≡ some k')
            × ((j : ℕ) → watches k' j ≡ (if j == fd then some (m, c) else watches k j)))
  pub drops :
      (fd : ℕ) (m : Mask) (c : ℕ) (k : K) (w : Watch)
      → watches k fd ≡ some w
      → (epoll_ctl ctl_del fd m c k ≡ none)
        ⊎ ((k' : K) × (epoll_ctl ctl_del fd m c k ≡ some k')
            × ((j : ℕ) → watches k' j ≡ (if j == fd then none else watches k j)))

-- A registered channel has that descriptor and the index 1.
abbrev pub IsValid : Epoll → Type 0
IsValid p = (fd c : ℕ) → p.channels fd ≡ some c → ((p.heap c).fd ≡ fd) × ((p.heap c).index ≡ some 1)

-- What the channels ask for.
abbrev pub asked_by : (ℕ → Channel) → Option ℕ → Option Watch
asked_by heap none = none
asked_by heap (some c) = some ((heap c).events, c)

abbrev pub asks : Epoll → ℕ → Option Watch
asks p fd = asked_by p.heap (p.channels fd)

-- The call that `updateChannel` makes for a channel with this index.
abbrev pub operation_for : Option ℕ → Operation
operation_for none = ctl_add
operation_for (some i) = ctl_mod

asked_by-with_index :
    (heap : ℕ → Channel) (channel i : ℕ) (o : Option ℕ)
    → asked_by (with_index heap channel i) o ≡ asked_by heap o
asked_by-with_index heap channel i none = refl
asked_by-with_index heap channel i (some c) = ground arith

module _ {K : Type 0} (epoll_ctl : Operation → ℕ → Mask → ℕ → K → Option K)
    (watches : K → ℕ → Option Watch) (kernel : IsEpoll epoll_ctl watches) where
  -- The kernel watches for what is asked, but for the events of one descriptor that may have changed.
  abbrev pub AgreesBut : ℕ → Epoll → K → Type 0
  AgreesBut fd p k =
      ((j : ℕ) → j == fd ≡ false → watches k j ≡ asks p j)
      × (p.channels fd ≡ none → watches k fd ≡ none)
      × ((c : ℕ) → p.channels fd ≡ some c → (w : Watch) × (watches k fd ≡ some w))

  -- If the sets are valid, and the kernel watches for what is asked on every descriptor but that of the
  -- channel, which it has if and only if a channel is registered there, then, whatever events the channel
  -- now has, its update makes its one call of `epoll_ctl`, if it is new and its descriptor is not in use,
  -- or if it is registered. No assertion fails before: if that call fails, the update aborts, and if not,
  -- it returns, the channel is registered, and the kernel watches for just what the channels ask for.
  pub update_channel-asks :
      (p : Epoll) (channel : ℕ) (k : K)
      → IsValid p
      → AgreesBut (p.heap channel).fd p k
      → ((p.heap channel).index ≡ none) × (p.channels (p.heap channel).fd ≡ none)
        ⊎ (p.channels (p.heap channel).fd ≡ some channel)
      → let c = p.heap channel in
        (epoll_ctl (operation_for c.index) c.fd c.events channel k ≡ none)
          × (update_channel epoll_ctl p channel k ≡ aborted)
        ⊎ (k' : K) × (epoll_ctl (operation_for c.index) c.fd c.events channel k ≡ some k')
          × Returns
              (λ r.
                IsValid r.0
                × (r.0.channels c.fd ≡ some channel)
                × (r.1 ≡ k')
                × ((fd : ℕ) → watches r.1 fd ≡ asks r.0 fd))
              (update_channel epoll_ctl p channel k)
  unfolding update_channel update
  update_channel-asks p channel k v (same, absent, present) (inl (new, unused)) =
      let c = p.heap channel in
      let self : channel == channel ≡ true = ground arith in
      let p' : Epoll = record p {
        channels = with_channel p.channels c.fd (some channel);
        heap = with_index p.heap channel 1;
      } in
      elim (kernel.adds c.fd c.events channel k (absent unused)) [
        | inl failed ↦ inl (rw new failed, rw (new, unused, self, failed) refl)
        | inr (k', added, now) ↦ inr (
          k',
          rw new added,
          (
            (p', k'),
            rw (new, unused, self, added) refl,
            (
              λ fd d h. ground (arith, h, v fd d),
              ground arith,
              refl,
              λ fd.
                  ground
                    (arith, now fd, same fd, asked_by-with_index p.heap channel 1 (p.channels fd)),
            ),
          ),
        )
      ]
  update_channel-asks p channel k v (same, absent, present) (inr old) =
      let c = p.heap channel in
      let (w, there) = present channel old in
      let one = (v c.fd channel old).1 in
      elim (kernel.changes c.fd c.events channel k w there) [
        | inl failed ↦ inl (rw one failed, rw (one, old, failed) (ground arith))
        | inr (k', changed, now) ↦ inr (
          k',
          rw one changed,
          (
            (p, k'),
            rw (one, old, changed) (ground arith),
            (v, old, refl, λ fd. ground (arith, now fd, same fd, old)),
          ),
        )
      ]

  -- The removal of a registered channel without events, with the kernel watching for what is asked,
  -- aborts if its call of `epoll_ctl` fails. If not, it returns: the channel is no longer registered, and
  -- the kernel watches for the others and not for it.
  pub remove_channel-asks :
      (p : Epoll) (channel : ℕ) (k : K)
      → IsValid p
      → ((fd : ℕ) → watches k fd ≡ asks p fd)
      → p.channels (p.heap channel).fd ≡ some channel
      → is_none_event (p.heap channel) ≡ true
      → let c = p.heap channel in
        (epoll_ctl ctl_del c.fd c.events channel k ≡ none)
          × (remove_channel epoll_ctl p channel k ≡ aborted)
        ⊎ Returns
            (λ r.
              IsValid r.0
              × ((fd : ℕ) → r.0.channels fd ≡ (if fd == c.fd then none else p.channels fd))
              × ((fd : ℕ) → watches r.1 fd ≡ asks r.0 fd))
            (remove_channel epoll_ctl p channel k)
  unfolding remove_channel update
  remove_channel-asks p channel k v same old idle =
      let c = p.heap channel in
      let there : watches k c.fd ≡ some (c.events, channel) =
        same c.fd ∙ ap (asked_by p.heap) old in
      let p' : Epoll = record p { channels = with_channel p.channels c.fd none } in
      elim (kernel.drops c.fd c.events channel k (c.events, channel) there) [
        | inl failed ↦ inl (failed, rw (old, idle, failed) (ground arith))
        | inr (k', dropped, now) ↦ inr (
          (p', k'),
          rw (old, idle, dropped) (ground arith),
          (λ fd d h. ground (arith, h, v fd d), λ fd. refl, λ fd. ground (arith, now fd, same fd)),
        )
      ]

  -- A channel that has been removed cannot be updated again: its index still says that it is
  -- registered, and the assertion that it is fails.
  pub update_channel-aborted :
      (p q : Epoll) (channel : ℕ) (k k' : K)
      → IsValid p
      → p.channels (p.heap channel).fd ≡ some channel
      → remove_channel epoll_ctl p channel k ≡ ok (q, k')
      → update_channel epoll_ctl q channel k' ≡ aborted
  unfolding remove_channel update_channel update
  update_channel-aborted p q channel k k' v old run =
      let one = (v (p.heap channel).fd channel old).1 in ground (arith, run, one)
