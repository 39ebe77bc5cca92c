-- ===== src/PollPoller/Active.antt =====
-- `poll` and `fillActiveChannels`: which channels become active.
use summer.Prelude.{
  ℤ, pos, negsuc, ℕ, suc, ◌-◌, ◌≤◌, ◌≡◌, refl, ap, ◌∙◌, arith, Bool, true, false, Bool-cases, inl,
  inr, ◌==◌, if◌then◌else◌, List, [], ◌∷◌, Option, none, some, ok, Returns, get_elem?,
}
use summer.Channel.{Mask, is_none_mask, set_revents}
use summer.PollPoller.{
  PollFd, Poller, fd_of, find_fd, set_active, is_active, fill_active_channels, with_revents, poll,
  ready,
}
use summer.PollPoller.Entries.{IsValid}

-- The kernel reports nothing for an entry that is ignored.
abbrev pub ignored : ℤ → Bool
ignored (pos n) = false
ignored (negsuc n) = true

abbrev pub Honest : List PollFd → Type 0
Honest [] = Unit {0}
Honest (pfd ∷ pfds) = (ignored pfd.fd ≡ true → is_none_mask pfd.revents ≡ true) × Honest pfds

abbrev pub count_active : List PollFd → ℕ
count_active [] = 0
count_active (pfd ∷ pfds) =
    let n = count_active pfds in if is_none_mask pfd.revents then n else suc n

-- The registered channel of an entry with events.
abbrev pub channel_of : (ℕ → Option ℕ) → PollFd → Option ℕ
channel_of channels pfd = if is_none_mask pfd.revents then none else channels (fd_of pfd.fd)

abbrev pub cons_some : Option ℕ → List ℕ → List ℕ
cons_some none cs = cs
cons_some (some c) cs = c ∷ cs

abbrev pub active_of : (ℕ → Option ℕ) → List PollFd → List ℕ
active_of channels [] = []
active_of channels (pfd ∷ pfds) = cons_some (channel_of channels pfd) (active_of channels pfds)

-- The events that a channel has when the entries are through.
abbrev pub is_of : Option ℕ → ℕ → Bool
is_of none k = false
is_of (some c) k = k == c

abbrev pub revents_of : (ℕ → Option ℕ) → List PollFd → ℕ → Mask → Mask
revents_of channels [] k m = m
revents_of channels (pfd ∷ pfds) k m =
    revents_of channels pfds k (if is_of (channel_of channels pfd) k then pfd.revents else m)

-- Each entry with events is that of a registered channel.
abbrev Known : Poller → List PollFd → Type 0
Known p [] = Unit {0}
Known p (pfd ∷ pfds) =
    (is_none_mask pfd.revents ≡ false
      → (fd c : ℕ) × (pfd.fd ≡ pos fd) × (p.channels fd ≡ some c) × ((p.heap c).fd ≡ fd))
    × Known p pfds

Fills : Poller → List PollFd → List ℕ × Poller → Type 0
Fills p pfds r =
    (r.0 ≡ active_of p.channels pfds)
    × (r.1.pollfds ≡ p.pollfds)
    × (r.1.channels ≡ p.channels)
    × ((k : ℕ)
        → r.1.heap k
          ≡ record (p.heap k) { revents = revents_of p.channels pfds k (p.heap k).revents })

-- Setting the events of a channel changes no descriptor.
abbrev marked : Poller → ℕ → Mask → Poller
marked p c m = record p { heap = λ k. if k == c then set_revents (p.heap k) m else p.heap k }

Known-marked :
    (p : Poller) (c : ℕ) (m : Mask) (pfds : List PollFd) → Known p pfds → Known (marked p c m) pfds
unfolding set_revents
Known-marked p c m [] h = tt
Known-marked p c m (pfd ∷ pfds) (h, rest) = (
  λ a. let (fd, d, e, f, g) = h a in (fd, d, e, f, ground (arith, g)),
  Known-marked p c m pfds rest,
)

-- A round with events.
fill_round :
    (n : ℕ) (p p' : Poller) (pfd : PollFd) (pfds : List PollFd) (c : ℕ) (r : List ℕ × Poller)
    → is_active n pfd ≡ true
    → set_active p (find_fd p pfd.fd) pfd ≡ ok (c, p')
    → fill_active_channels (n - 1) pfds p' ≡ ok r
    → fill_active_channels n (pfd ∷ pfds) p ≡ ok (c ∷ r.0, r.1)
unfolding fill_active_channels
fill_round n p p' pfd pfds c r active set run = rw (fill_active_channels, active, set, run) refl

fill-Fills :
    (n : ℕ) (p : Poller) (pfds : List PollFd)
    → Known p pfds
    → count_active pfds ≤ n
    → Returns (Fills p pfds) (fill_active_channels n pfds p)
unfolding fill_active_channels Fills set_revents
fill-Fills n p [] h e = (([], p), refl, (refl, refl, refl, λ k. refl))
fill-Fills n p (pfd ∷ pfds) (h, rest) e = elim (Bool-cases (is_none_mask pfd.revents)) [
  | inl s ↦
      let (r, run, (a, b, c, d)) = fill-Fills n p pfds rest (ground (arith, e, s)) in
      (r, ground (arith, s, run), (rw s a, b, c, λ k. rw s (d k)))
  | inr s ↦
      let (fd, ch, f, g, k) = h s in
      let p' = marked p ch pfd.revents in
      let (r, run, (a, b, c, d)) =
        fill-Fills (n - 1) p' pfds (Known-marked p ch pfd.revents pfds rest)
          (ground (arith, e, s)) in
      let active : is_active n pfd ≡ true = ground (arith, e, s) in
      let target : channel_of p.channels pfd ≡ some ch = rw (s, f) g in
      let set : set_active p (find_fd p pfd.fd) pfd ≡ ok (ch, p') = rw (f, g) (ground (arith, k)) in
      (
        (ch ∷ r.0, r.1),
        fill_round n p p' pfd pfds ch r active set run,
        (
          rw target (ap (◌∷◌ ch) a),
          b,
          c,
          λ j. d j ∙ (elim (Bool-cases (j == ch)) [
            | inl t ↦ rw (target, t) refl
            | inr t ↦ rw (target, t) refl
          ]),
        ),
      )
]

shown : (z : ℤ) → ignored z ≡ false → z ≡ pos (fd_of z)
shown (pos n) h = refl
shown (negsuc n) h = cc

entry_known :
    (p q : Poller)
    → IsValid p
    → q.channels ≡ p.channels
    → q.heap ≡ p.heap
    → (pfd : PollFd) (m : Mask) → (i : ℕ) × (get_elem? p.pollfds i ≡ some pfd)
    → (ignored pfd.fd ≡ true → is_none_mask m ≡ true)
    → is_none_mask m ≡ false
    → (fd c : ℕ) × (pfd.fd ≡ pos fd) × (q.channels fd ≡ some c) × ((q.heap c).fd ≡ fd)
entry_known p q v same_channels same_heap pfd m (i, g) honest busy =
    let (c, a, b) = v.listed i pfd g in
    let (j, entry, d, known, at_j, same_fd) = v.registered (fd_of pfd.fd) c a in
    (
      fd_of pfd.fd,
      c,
      shown pfd.fd (ground (arith, honest, busy)),
      ap (λ f. f (fd_of pfd.fd)) same_channels ∙ a,
      ap (λ f. (f c).fd) same_heap ∙ d,
    )

-- The entries that `poll` has written are those of registered channels.
with_revents-Known :
    (p q : Poller)
    → IsValid p
    → q.channels ≡ p.channels
    → q.heap ≡ p.heap
    → (pfds : List PollFd) (events : List Mask)
    → ((i : ℕ) (pfd : PollFd)
        → get_elem? pfds i ≡ some pfd
        → (j : ℕ) × (get_elem? p.pollfds j ≡ some pfd))
    → Honest (with_revents pfds events)
    → Known q (with_revents pfds events)
with_revents-Known p q v same_channels same_heap [] [] part h = tt
with_revents-Known p q v same_channels same_heap [] (m ∷ events) part h = tt
with_revents-Known p q v same_channels same_heap (pfd ∷ pfds) [] part h = (
  entry_known p q v same_channels same_heap pfd pfd.revents (part 0 pfd refl) h.0,
  with_revents-Known p q v same_channels same_heap pfds [] (λ i e g. part (suc i) e g) h.1,
)
with_revents-Known p q v same_channels same_heap (pfd ∷ pfds) (m ∷ events) part h = (
  entry_known p q v same_channels same_heap pfd m (part 0 pfd refl) h.0,
  with_revents-Known p q v same_channels same_heap pfds events (λ i e g. part (suc i) e g) h.1,
)

-- On a poller whose entries and map agree, where what `poll` reports is reported of entries that are
-- not ignored and counted in full, `poll` makes active the channels of the entries with events, in
-- order; each channel has its events afterwards, and nothing else changes.
pub poll-active :
    (p : Poller) (n : ℕ) (events : List Mask)
    → IsValid p
    → Honest (with_revents p.pollfds events)
    → count_active (with_revents p.pollfds events) ≤ n
    → Returns
        (λ r.
          (r.0 ≡ active_of p.channels (with_revents p.pollfds events))
          × (r.1.pollfds ≡ with_revents p.pollfds events)
          × (r.1.channels ≡ p.channels)
          × ((k : ℕ)
              → r.1.heap k ≡ record (p.heap k) {
                revents =
                    revents_of p.channels (with_revents p.pollfds events) k (p.heap k).revents;
              }))
        (poll p (ready n events))
unfolding poll Fills
poll-active p n events v h e =
    fill-Fills n (record p { pollfds = with_revents p.pollfds events })
      (with_revents p.pollfds events)
      (with_revents-Known p (record p { pollfds = with_revents p.pollfds events }) v refl refl
        p.pollfds events (λ i pfd g. (i, g)) h)
      e
