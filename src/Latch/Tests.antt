-- ===== src/Latch/Tests.antt =====
-- A run of a latch, and the theorems about it.
use summer.Prelude.{
  pos, ◌≤◌, ◌≡◌, refl, sym, subst, arith, inl, inr, List, [], ◌∷◌, none, some, Option-cases,
}
use summer.Latch.{
  returned, Latch, init, Event, calls_wait, calls_down, locks, unlocks, tests, sleeps, counts,
  notifies, step, taken, count_down, notify_all, Reach, here, next,
}
use summer.Latch.Contract.{run, returned-counted, wait-ends}

-- The latch behind the events, up to the first that cannot happen.
last : Latch → List Event → Latch
last l [] = l
last l (e ∷ es) = elim (step l e) [ none ↦ l | some m ↦ last m es ]

last-none : (m : Latch) (e : Event) (es : List Event) → step m e ≡ none → last m (e ∷ es) ≡ m
unfolding last
last-none m e es h = ground (arith, h)

last-some :
    (m k : Latch) (e : Event) (es : List Event) → step m e ≡ some k → last m (e ∷ es) ≡ last k es
unfolding last
last-some m k e es h = ground (arith, h)

last-Reach : {l : Latch} (m : Latch) (es : List Event) → Reach l m → Reach l (last m es)
unfolding last
last-Reach m [] r = r
last-Reach {l} m (e ∷ es) r = elim (Option-cases (step m e)) [
  | inl h ↦ subst (Reach l) (sym (last-none m e es h)) r
  | inr (k, h) ↦ subst (Reach l) (sym (last-some m k e es h)) (last-Reach k es (next r e h))
]

-- Thread 1 waits for one count, and thread 2 gives it, up to the end of its call.
abbrev counting_down : List Event
counting_down =
    calls_wait 1
    ∷ locks 1
    ∷ tests 1
    ∷ sleeps 1
    ∷ calls_down 2
    ∷ locks 2
    ∷ counts 2
    ∷ notifies 2
    ∷ []

abbrev told : Latch
told = last (init (pos 1)) counting_down

abbrev free : Latch
free = last told (unlocks 2 ∷ [])

abbrev done : Latch
done = last free (locks 1 ∷ tests 1 ∷ unlocks 1 ∷ [])

told-Reach : Reach (init (pos 1)) told
told-Reach = last-Reach (init (pos 1)) counting_down here

free-Reach : Reach (init (pos 1)) free
free-Reach = last-Reach told (unlocks 2 ∷ []) told-Reach

returned-counted_example : 1 ≤ done.downs
unfolding last step taken count_down notify_all init
returned-counted_example =
    returned-counted 1 1 (last-Reach free (locks 1 ∷ tests 1 ∷ unlocks 1 ∷ []) free-Reach) refl

wait-ends_example :
    (k : Latch) × (run free (locks 1 ∷ tests 1 ∷ unlocks 1 ∷ []) ≡ some k) × (k.pc 1 ≡ returned)
unfolding last step taken count_down notify_all init
wait-ends_example = wait-ends 1 1 free-Reach (omega arith) refl refl
