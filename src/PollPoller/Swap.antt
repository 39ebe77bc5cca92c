-- ===== src/PollPoller/Swap.antt =====
-- The entry at the end takes the place of the one that goes.
use summer.Prelude.{
  ℕ, ◌-◌, ◌<◌, ◌≡◌, refl, sym, ap, ◌∙◌, arith, true, false, Bool-cases, inl, inr, ◌==◌, ltb,
  if◌then◌else◌, none, some, Option-cases, length, get_elem?, set, take,
}
use summer.PollPoller.{PollFd, Poller, with_channel, with_index, fd_of}
use summer.PollPoller.Entries.{IsValid, get_elem?-lt, get_elem?-set, get_elem?-take, entry_of}
use summer.PollPoller.Cut.{other_fd, other_index}

module _ (p : Poller) (channel i : ℕ) (pfd : PollFd) (v : IsValid p)
    (e : p.channels (p.heap channel).fd ≡ some channel) (f : (p.heap channel).index ≡ some i)
    (g : get_elem? p.pollfds i ≡ some pfd) where
  abbrev gone : ℕ
  gone = (p.heap channel).fd

  abbrev end : ℕ
  end = length p.pollfds - 1

  -- The last entry moves to the place of the one that goes.
  module _ (last : PollFd) (moved : ℕ) (ne : i == end ≡ false)
      (at_end : get_elem? p.pollfds end ≡ some last)
      (there : p.channels (fd_of last.fd) ≡ some moved)
      (knows : (p.heap moved).index ≡ some end) where
    unfoldable pub swapped : Poller
    swapped = record {
      channels = with_channel p.channels gone none;
      pollfds = take end (set p.pollfds i last);
      heap = with_index p.heap moved i;
    }

    read_swapped :
        (j : ℕ)
        → get_elem? (take end (set p.pollfds i last)) j
          ≡ (if ltb j end then if j == i then some last else get_elem? p.pollfds j else none)
    read_swapped j = ground (
      arith,
      get_elem?-take end (set p.pollfds i last) j,
      get_elem?-set p.pollfds i j last,
      get_elem?-lt p.pollfds i pfd g,
    )

    below : i < end
    below = ground (arith, ne, get_elem?-lt p.pollfds i pfd g)

    -- Where the index tells, the channel is the moved one.
    is_moved :
        (fd c x : ℕ) (entry : PollFd)
        → p.channels fd ≡ some c
        → get_elem? p.pollfds x ≡ some entry
        → fd_of entry.fd ≡ fd
        → x == end ≡ true
        → (c ≡ moved) × (fd ≡ fd_of last.fd)
    is_moved fd c x entry h d o s =
        let w : some entry ≡ some last =
          sym d ∙ ap (get_elem? p.pollfds) {x = x} {y = end} (ground (arith, s)) ∙ at_end in
        let k : fd ≡ fd_of last.fd = ground (arith, w, o) in (ground (arith, h, k, there), k)

    pub swapped-IsValid : IsValid swapped
    unfolding swapped
    swapped-IsValid = record {
      registered = λ fd c h.
          let n : fd == gone ≡ false = ground (arith, h) in
          let h' : p.channels fd ≡ some c = ground (arith, h, n) in
          let (x, entry, a, b, d, o) = v.registered fd c h' in
          elim (Bool-cases (x == end)) [
            | inl s ↦
                let (is, k) = is_moved fd c x entry h' d o s in
                (
                  i,
                  last,
                  ground (arith, a, is),
                  ground (arith, is),
                  read_swapped i ∙ ground (arith, below),
                  sym k,
                )
            | inr s ↦
                let other : c == moved ≡ false = ground (arith, b, knows, s) in
                (
                  x,
                  entry,
                  ground (arith, a, other),
                  ground (arith, b, other),
                  read_swapped x
                      ∙ ground (
                        arith,
                        d,
                        s,
                        other_index p channel i pfd v e f g fd c x h' b n,
                        get_elem?-lt p.pollfds x entry d,
                      ),
                  o,
                )
          ];
      listed = λ j entry h.
          let h' = sym (read_swapped j) ∙ h in
          elim (Bool-cases (j == i)) [
            | inl s ↦
                let w : last ≡ entry = ground (arith, s, h', below) in
                (
                  moved,
                  rw (sym w) (
                      ground (
                        arith,
                        there,
                        other_fd p channel i pfd v e f g end last at_end (ground (arith, ne)),
                      )),
                  ground (arith, s),
                )
            | inr s ↦
                let h'' : get_elem? p.pollfds j ≡ some entry = ground (arith, s, h') in
                let (c, a, b) = v.listed j entry h'' in
                let other : c == moved ≡ false = ground (arith, b, knows, h') in
                (
                  c,
                  ground (arith, a, other_fd p channel i pfd v e f g j entry h'' s),
                  ground (arith, b, other),
                )
          ];
    }

    pub swapped-entry :
        (fd : ℕ) → entry_of swapped fd ≡ (if fd == gone then none else entry_of p fd)
    unfolding swapped
    swapped-entry fd = elim (Bool-cases (fd == gone)) [
      | inl s ↦ rw s refl
      | inr s ↦ elim (Option-cases (p.channels fd)) [
        | inl h ↦ rw (s, h) refl
        | inr (c, h) ↦
            let (x, entry, a, b, d, o) = v.registered fd c h in
            elim (Bool-cases (x == end)) [
              | inl t ↦
                  let (is, k) = is_moved fd c x entry h d o t in
                  rw (s, h) (ground (arith, is, b, t, at_end, below, read_swapped i))
              | inr t ↦
                  let other : c == moved ≡ false = ground (arith, b, knows, t) in
                  rw (s, h)
                    (ground (
                      arith,
                      other,
                      b,
                      d,
                      t,
                      read_swapped x,
                      other_index p channel i pfd v e f g fd c x h b s,
                      get_elem?-lt p.pollfds x entry d,
                    ))
            ]
      ]
    ]
