-- ===== src/PollPoller/Update.antt =====
-- `updateChannel`: a new channel gets an entry, a registered one has its entry changed.
use summer.Prelude.{
  pos, negsuc, ℕ, ◌<◌, ◌≡◌, refl, sym, ◌∙◌, arith, true, false, Bool-cases, inl, inr, ◌==◌,
  if◌then◌else◌, List, [], ◌∷◌, ◌++◌, none, some, ok, Returns, length, get_elem?, set,
}
use summer.Channel.{none_event, Channel, is_none_event}
use summer.PollPoller.{
  PollFd, Poller, add_channel, updated, update_existing, update_channel, with_channel, with_index,
  fd_of,
}
use summer.PollPoller.Entries.{
  IsValid, get_elem?-snoc, get_elem?-lt, get_elem?-set, fd_of-updated, same_fd_of,
}

abbrev new_entry : Channel → PollFd
new_entry c = record { fd = pos c.fd; events = c.events; revents = none_event }

module _ (p : Poller) (channel : ℕ) (v : IsValid p)
    (unused : p.channels (p.heap channel).fd ≡ none) where
  -- The poller with one more entry.
  added : Poller
  added = record {
    pollfds = p.pollfds ++ (new_entry (p.heap channel) ∷ []);
    channels = with_channel p.channels (p.heap channel).fd (some channel);
    heap = with_index p.heap channel (length p.pollfds);
  }

  added-IsValid : IsValid added
  unfolding added
  added-IsValid = record {
    registered = λ fd c h. elim (Bool-cases (fd == (p.heap channel).fd)) [
      | inl s ↦ (
        length p.pollfds,
        new_entry (p.heap channel),
        ground (arith, h, s),
        ground (arith, h, s),
        ground (arith, get_elem?-snoc p.pollfds (new_entry (p.heap channel)) (length p.pollfds)),
        ground (arith, s),
      )
      | inr s ↦
          let (i, pfd, e, f, g, k) = v.registered fd c (ground (arith, h, s)) in
          let other : c == channel ≡ false = ground (arith, e, s) in
          (
            i,
            pfd,
            ground (arith, e, other),
            ground (arith, f, other),
            ground (
              arith,
              g,
              get_elem?-lt p.pollfds i pfd g,
              get_elem?-snoc p.pollfds (new_entry (p.heap channel)) i,
            ),
            k,
          )
    ];
    listed = λ i pfd h. elim (Bool-cases (i == length p.pollfds)) [
      | inl s ↦
          let e : new_entry (p.heap channel) ≡ pfd =
            ground (arith, s, h, get_elem?-snoc p.pollfds (new_entry (p.heap channel)) i) in
          (channel, rw (sym e) (ground arith), ground (arith, s))
      | inr s ↦
          let (c, e, f) =
            v.listed i pfd
              (ground (arith, s, h, get_elem?-snoc p.pollfds (new_entry (p.heap channel)) i)) in
          let (j, entry, g, k, l, m) = v.registered (fd_of pfd.fd) c e in
          let other : c == channel ≡ false = ground (arith, e, g, unused) in
          (c, ground (arith, e, g, unused), ground (arith, f, other))
    ];
  }

  -- A new channel is added, with its events, and everything stays as valid as it was.
  add_lem : (p.heap channel).index ≡ none → update_channel p channel ≡ ok added
  unfolding added update_channel add_channel
  add_lem e = rw (e, unused) refl

-- A new channel whose descriptor is not in use gets an entry at the end, with its events; the channel
-- is registered, and the entries and the map still agree.
pub update_channel-new :
    (p : Poller) (channel : ℕ)
    → IsValid p
    → (p.heap channel).index ≡ none
    → p.channels (p.heap channel).fd ≡ none
    → Returns
        (λ r.
          IsValid r
          × ((fd : ℕ)
              → r.channels fd ≡ (if fd == (p.heap channel).fd then some channel else p.channels fd))
          × (r.pollfds
              ≡ p.pollfds
                ++ (record {
                  fd = pos (p.heap channel).fd;
                  events = (p.heap channel).events;
                  revents = none_event;
                }
                    ∷ [])))
        (update_channel p channel)
unfolding added
update_channel-new p channel v e unused = (
  added p channel v unused,
  add_lem p channel v unused e,
  (added-IsValid p channel v unused, λ fd. refl, refl),
)

set_at :
    (xs : List PollFd) (i j : ℕ) (y : PollFd)
    → j == i ≡ true
    → i < length xs
    → get_elem? (set xs i y) j ≡ some y
set_at xs i j y s inside = ground (arith, s, inside, get_elem?-set xs i j y)

some-injective : {x y : PollFd} → some x ≡ some y → x ≡ y
some-injective e = cc

-- An entry may be changed, if its descriptor stays that of its channel.
set-IsValid :
    (p : Poller)
    → IsValid p
    → (i : ℕ) (old new : PollFd) → get_elem? p.pollfds i ≡ some old
    → fd_of new.fd ≡ fd_of old.fd
    → IsValid (record p { pollfds = set p.pollfds i new })
set-IsValid p v i old new g same = record {
  registered = λ fd c n.
      let (x, entry, a, b, d, o) = v.registered fd c n in
      elim (Bool-cases (x == i)) [
        | inl s ↦ (
          x,
          new,
          a,
          b,
          ground (arith, s, inside, get_elem?-set p.pollfds i x new),
          ground (arith, s, d, g, o, same),
        )
        | inr s ↦ (x, entry, a, b, ground (arith, s, d, get_elem?-set p.pollfds i x new), o)
      ];
  listed = λ j entry n. elim (Bool-cases (j == i)) [
    | inl s ↦
        let e : new ≡ entry = some-injective (sym (set_at p.pollfds i j new s inside) ∙ n) in
        let (c, a, b) = v.listed i old g in (c, rw (sym e, same) a, ground (arith, b, s))
    | inr s ↦ v.listed j entry (ground (arith, s, n, get_elem?-set p.pollfds i j new))
  ];
}
  where
    inside : i < length p.pollfds
    inside = get_elem?-lt p.pollfds i old g

-- The update of a registered channel changes its entry and nothing else: it gets the events of the
-- channel, is ignored if there are none, and otherwise keeps its descriptor, so that an entry that was
-- ignored stays so whatever the events are. The entries and the map still agree.
pub update_channel-registered :
    (p : Poller) (channel : ℕ)
    → IsValid p
    → p.channels (p.heap channel).fd ≡ some channel
    → (i : ℕ) (pfd : PollFd) → (p.heap channel).index ≡ some i
    → get_elem? p.pollfds i ≡ some pfd
    → Returns
        (λ r.
          IsValid r
          × (r.channels ≡ p.channels)
          × (r.heap ≡ p.heap)
          × ((j : ℕ)
              → get_elem? r.pollfds j ≡ (
                  if j == i
                  then some (record {
                    fd =
                        if is_none_event (p.heap channel)
                        then negsuc (p.heap channel).fd
                        else pfd.fd;
                    events = (p.heap channel).events;
                    revents = none_event;
                  })
                  else get_elem? p.pollfds j)))
        (update_channel p channel)
unfolding update_channel update_existing updated
update_channel-registered p channel v e i pfd f g =
    let (j, entry, h, k, l, m) = v.registered (p.heap channel).fd channel e in
    let known : fd_of pfd.fd ≡ (p.heap channel).fd = ground (arith, f, g, k, l, m) in
    let inside = get_elem?-lt p.pollfds i pfd g in
    let new = updated (p.heap channel) pfd in
    (
      record p { pollfds = set p.pollfds i new },
      rw (f, e, g, same_fd_of pfd.fd (p.heap channel).fd known) (ground arith),
      (
        set-IsValid p v i pfd new g (fd_of-updated (p.heap channel) pfd known ∙ sym known),
        refl,
        refl,
        λ j'. ground (arith, inside, get_elem?-set p.pollfds i j' new),
      ),
    )
