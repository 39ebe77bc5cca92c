-- ===== src/PollPoller/Cut.antt =====
-- The entry that goes is the last one, and which entries are not that of the channel.
use summer.Prelude.{
  ℕ, ◌-◌, ◌≡◌, refl, sym, ap, ◌∙◌, arith, false, Bool-cases, inl, inr, ◌==◌, if◌then◌else◌, none,
  some, Option-cases, length, get_elem?, take,
}
use summer.PollPoller.{PollFd, Poller, with_channel, fd_of}
use summer.PollPoller.Entries.{IsValid, get_elem?-lt, get_elem?-take, index_of_entry, entry_of}

module _ (p : Poller) (channel i : ℕ) (pfd : PollFd) (v : IsValid p)
    (e : p.channels (p.heap channel).fd ≡ some channel) (f : (p.heap channel).index ≡ some i)
    (g : get_elem? p.pollfds i ≡ some pfd) where
  abbrev gone : ℕ
  gone = (p.heap channel).fd

  -- Another entry is that of another descriptor, and the other way round.
  pub other_fd :
      (j : ℕ) (entry : PollFd)
      → get_elem? p.pollfds j ≡ some entry
      → j == i ≡ false
      → fd_of entry.fd == gone ≡ false
  other_fd j entry h n = elim (Bool-cases (fd_of entry.fd == gone)) [
    | inl s ↦
        let k = index_of_entry p gone channel j entry v e h (ground (arith, s)) in
        absurd (ground (arith, k, f, n))
    | inr s ↦ s
  ]

  pub other_index :
      (fd c x : ℕ)
      → p.channels fd ≡ some c
      → (p.heap c).index ≡ some x
      → fd == gone ≡ false
      → x == i ≡ false
  other_index fd c x h k n =
      let (y, entry, a, b, d, o) = v.registered fd c h in
      let (z, old, a', b', d', o') = v.registered gone channel e in
      let same : x ≡ y = ground (arith, b, k) in
      let here : z ≡ i = ground (arith, f, b') in
      elim (Bool-cases (x == i)) [
        | inl s ↦
            let w : some entry ≡ some old =
              sym d
              ∙ ap (get_elem? p.pollfds) {x = y} {y = z} (ground (arith, same, here, s))
              ∙ d' in
            absurd (ground (arith, w, o, o', n))
        | inr s ↦ s
      ]

  -- The entry that goes is the last one.
  unfoldable pub cut : Poller
  cut = record p {
    channels = with_channel p.channels gone none;
    pollfds = take (length p.pollfds - 1) p.pollfds;
  }

  pub cut-IsValid : i ≡ length p.pollfds - 1 → IsValid cut
  unfolding cut
  cut-IsValid last = record {
    registered = λ fd c h.
        let n : fd == gone ≡ false = ground (arith, h) in
        let h' : p.channels fd ≡ some c = ground (arith, h, n) in
        let (x, entry, a, b, d, o) = v.registered fd c h' in
        (
          x,
          entry,
          a,
          b,
          ground (
            arith,
            d,
            other_index fd c x h' b n,
            get_elem?-lt p.pollfds x entry d,
            get_elem?-take (length p.pollfds - 1) p.pollfds x,
            last,
          ),
          o,
        );
    listed = λ j entry h.
        let h' : get_elem? p.pollfds j ≡ some entry =
          ground (arith, h, get_elem?-take (length p.pollfds - 1) p.pollfds j) in
        let n : j == i ≡ false =
          ground (arith, h, get_elem?-take (length p.pollfds - 1) p.pollfds j, last) in
        let (c, a, b) = v.listed j entry h' in (c, ground (arith, a, other_fd j entry h' n), b);
  }

  pub cut-entry :
      i ≡ length p.pollfds - 1
      → (fd : ℕ) → entry_of cut fd ≡ (if fd == gone then none else entry_of p fd)
  unfolding cut
  cut-entry last fd = elim (Bool-cases (fd == gone)) [
    | inl s ↦ rw s refl
    | inr s ↦ elim (Option-cases (p.channels fd)) [
      | inl h ↦ rw (s, h) refl
      | inr (c, h) ↦
          let (x, entry, a, b, d, o) = v.registered fd c h in
          rw (s, h)
            (ground (
              arith,
              b,
              d,
              last,
              other_index fd c x h b s,
              get_elem?-lt p.pollfds x entry d,
              get_elem?-take (length p.pollfds - 1) p.pollfds x,
            ))
    ]
  ]
