-- ===== src/EpollPoller/Events.antt =====
-- `poll`: the channels that the kernel reports become active, and `events_` grows when it was full.
use summer.Prelude.{
  ℕ, ◌*◌, ◌≤◌, ◌<◌, ◌≡◌, refl, ap, ◌∙◌, arith, true, Bool-cases, inl, inr, ◌==◌, if◌then◌else◌,
  List, [], ◌∷◌, map, some, Returns, length,
}
use summer.Channel.{Mask, set_revents}
use summer.EpollPoller.{Epoll, fill, poll}
use summer.EpollPoller.Interest.{IsValid}

-- Each report is of a channel that is registered for its descriptor.
abbrev pub Registered : Epoll → List (ℕ × Mask) → Type 0
Registered p [] = Unit {0}
Registered p ((c, m) ∷ es) = (p.channels (p.heap c).fd ≡ some c) × Registered p es

-- The events that a channel has after the reports.
abbrev pub revents_of : List (ℕ × Mask) → ℕ → Mask → Mask
revents_of [] k m = m
revents_of ((c, e) ∷ es) k m = revents_of es k (if k == c then e else m)

abbrev marked : Epoll → ℕ → Mask → Epoll
marked p c m = record p { heap = λ k. if k == c then set_revents (p.heap k) m else p.heap k }

marked-IsValid : (p : Epoll) (c : ℕ) (m : Mask) → IsValid p → IsValid (marked p c m)
unfolding set_revents
marked-IsValid p c m v fd d h = ground (arith, v fd d h)

marked-Registered :
    (p : Epoll) (c : ℕ) (m : Mask) (es : List (ℕ × Mask))
    → Registered p es
    → Registered (marked p c m) es
unfolding set_revents
marked-Registered p c m [] h = tt
marked-Registered p c m ((d, e) ∷ es) (h, rest) =
    (ground (arith, h), marked-Registered p c m es rest)

Fills : Epoll → List (ℕ × Mask) → List ℕ × Epoll → Type 0
Fills p es r =
    (r.0 ≡ map (λ e. e.0) es)
    × (r.1.channels ≡ p.channels)
    × (r.1.size ≡ p.size)
    × ((k : ℕ) → r.1.heap k ≡ record (p.heap k) { revents = revents_of es k (p.heap k).revents })

fill-Fills :
    (p : Epoll) (es : List (ℕ × Mask))
    → IsValid p
    → Registered p es
    → Returns (Fills p es) (fill p es)
unfolding fill Fills set_revents
fill-Fills p [] v h = (([], p), refl, (refl, refl, refl, λ k. refl))
fill-Fills p ((c, m) ∷ es) v (h, rest) =
    let (r, run, (a, b, d, f)) =
      fill-Fills (marked p c m) es (marked-IsValid p c m v) (marked-Registered p c m es rest) in
    let self : c == c ≡ true = ground arith in
    (
      (c ∷ r.0, r.1),
      rw (h, (v (p.heap c).fd c h).1, self, run) refl,
      (
        ap (◌∷◌ c) a,
        b,
        d,
        λ k. f k ∙ (elim (Bool-cases (k == c)) [ inl t ↦ rw t refl | inr t ↦ rw t refl ]),
      ),
    )

-- Of a valid poller, and reports of registered channels, no more than `events_` has room for, `poll`
-- makes active the channels reported, in order, each with its events afterwards; it changes nothing
-- else but the room, which is doubled when it was used up.
pub poll-reports :
    (p : Epoll) (es : List (ℕ × Mask))
    → IsValid p
    → Registered p es
    → 0 < p.size
    → length es ≤ p.size
    → Returns
        (λ r.
          (r.0 ≡ map (λ e. e.0) es)
          × (r.1.channels ≡ p.channels)
          × (r.1.size ≡ (if length es == p.size then p.size * 2 else p.size))
          × ((k : ℕ)
              → r.1.heap k ≡ record (p.heap k) { revents = revents_of es k (p.heap k).revents }))
        (poll p es)
unfolding poll Fills
poll-reports p [] v h room fits = (([], p), refl, (refl, refl, ground (arith, room), λ k. refl))
poll-reports p (e ∷ es) v h room fits =
    let (r, run, (a, b, d, f)) = fill-Fills p (e ∷ es) v h in
    (
      (r.0, record r.1 { size = if length (e ∷ es) == r.1.size then r.1.size * 2 else r.1.size }),
      ground (arith, fits, run),
      (a, b, ap (λ n. if length (e ∷ es) == n then n * 2 else n) d, f),
    )
