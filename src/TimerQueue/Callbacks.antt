-- ===== src/TimerQueue/Callbacks.antt =====
-- `handleRead`: the expired timers run, and their callbacks add and cancel timers.
use summer.Prelude.{
  ℕ, ◌<◌, ◌≡◌, refl, ap, arith, Bool, true, false, ltb, if◌then◌else◌, List, [], ◌∷◌, ◌++◌, none,
  some, ok, Returns, of_returns,
}
use summer.Prelude.Pairs.{Pair, has}
use summer.TimerQueue.{
  Timer, TimerQueue, Effect, armed, uintptr_max, next_expired, get_expired, Call, adding,
  cancelling, call, calls, run_all, handle_read,
}
use summer.TimerQueue.Invariant.{IsValid, IsIdle}
use summer.TimerQueue.Calls.{add_timer_lem, cancel_in_loop_lem}
use summer.TimerQueue.Expiry.{Idle, get_expired_lem}
use summer.TimerQueue.Reset.{reset_lem}

-- `new` answers a place where nothing is; what is cancelled is active.
abbrev pub Allowed : TimerQueue → Call → Type 0
Allowed q (adding timer t) = (q.heap timer ≡ none) × (timer < uintptr_max)
Allowed q (cancelling id) = has id q.active ≡ true

abbrev pub AllAllowed : TimerQueue → List Call → Type 0
AllAllowed q [] = Unit {0}
AllAllowed q (c ∷ cs) =
    Allowed q c × ((r : TimerQueue × List Effect) → call q c ≡ ok r → AllAllowed r.0 cs)

-- Each callback in turn makes calls that are allowed.
abbrev pub RunsAllowed : (ℕ → List Call) → TimerQueue → List Pair → Type 0
RunsAllowed callback q [] = Unit {0}
RunsAllowed callback q ((when, timer) ∷ es) =
    AllAllowed q (callback timer)
    × ((r : TimerQueue × List Effect)
        → calls q (callback timer) ≡ ok r
        → RunsAllowed callback r.0 es)

-- Timers that are idle and allocated stay so.
abbrev Keeps : List Pair → TimerQueue → Type 0
Keeps es r = IsValid r × Idle r es

Idle-moved :
    (q r : TimerQueue) (es : List Pair)
    → ((k : ℕ) (t : Timer) → q.heap k ≡ some t → IsIdle q k → (r.heap k ≡ some t) × IsIdle r k)
    → Idle q es
    → Idle r es
Idle-moved q r [] move i = tt
Idle-moved q r ((when, timer) ∷ es) move ((t, e, n), small, idle, absent, rest) =
    let m = move timer t e idle in ((t, m.0, n), small, m.1, absent, Idle-moved q r es move rest)

call-Keeps :
    (q : TimerQueue) (c : Call) (es : List Pair)
    → Keeps es q
    → Allowed q c
    → Returns (λ r. Keeps es r.0) (call q c)
unfolding call
call-Keeps q (adding timer t) es (v, i) (free, small) =
    let (r, run, (w, timers, active, heap, rearmed)) = add_timer_lem q timer t v free small in
    (
      r,
      run,
      (
        w,
        Idle-moved q r.0 es
            (λ k u e idle. (
              ground (arith, heap k, e, free),
              λ s. ground (arith, active (k, s), idle s, e, free),
            ))
            i,
      ),
    )
call-Keeps q (cancelling (timer, sequence)) es (v, i) h =
    let (r, run, (w, idle_now, heap, active)) = cancel_in_loop_lem q timer sequence v h in
    (
      (r, []),
      rw run refl,
      (
        w,
        Idle-moved q r es
            (λ k u e idle. (
              ground (arith, heap k, e, h, idle sequence),
              λ s. ground (arith, active (k, s), idle s),
            ))
            i,
      ),
    )

calls-Keeps :
    (q : TimerQueue) (cs : List Call) (es : List Pair)
    → Keeps es q
    → AllAllowed q cs
    → Returns (λ r. Keeps es r.0) (calls q cs)
unfolding calls
calls-Keeps q [] es k a = ((q, []), refl, k)
calls-Keeps q (c ∷ cs) es k (a, next) =
    let (r, run, kept) = call-Keeps q c es k a in
    let (s, rest, done) = calls-Keeps r.0 cs es kept (next r run) in
    ((s.0, r.1 ++ s.1), rw (run, rest) refl, done)

-- The marks of `handleRead` do not matter to the sets.
marked :
    (q : TimerQueue) (doing : Bool) (cancelled : List Pair) (es : List Pair)
    → Keeps es q
    → Keeps es (record q { doing_expired = doing; cancelled = cancelled })
marked q doing cancelled es (v, i) = (
  record {
    timers_sorted = v.timers_sorted;
    active_sorted = v.active_sorted;
    sized = v.sized;
    filed = v.filed;
    named = v.named;
  },
  Idle-moved q (record q { doing_expired = doing; cancelled = cancelled }) es (λ k t e j. (e, j)) i,
)

module _ (callback : ℕ → List Call) where
  -- The timers that have run are a part of `all`, which stay idle.
  run_all-Keeps :
      (q : TimerQueue) (all es : List Pair)
      → Keeps all q
      → Idle q es
      → RunsAllowed callback q es
      → Returns (λ r. Keeps all r.0) (run_all callback q es)
  unfolding run_all
  run_all-Keeps q all [] k i a = ((q, []), refl, k)
  run_all-Keeps q all ((when, timer) ∷ es) k ((t, e, n), small, idle, absent, rest) (a, next) =
      let (r, run, kept) = calls-Keeps q (callback timer) all k a in
      let kept_es = of_returns r (calls-Keeps q (callback timer) es (k.0, rest) a) run in
      let (s, others, done) = run_all-Keeps r.0 all es kept kept_es.1 (next r run) in
      ((s.0, r.1 ++ s.1), rw (e, run, others) refl, done)

  -- Whatever time it is, if the callbacks of the expired timers add timers where nothing is allocated
  -- and cancel timers that are active, then `handleRead` returns, the sets stay valid, and the last
  -- thing done is to arm the descriptor for the first timer, if there is one with a valid time.
  pub handle_read_lem :
      (q : TimerQueue) (now : ℕ)
      → IsValid q
      → ((r : List Pair × TimerQueue)
          → get_expired q now ≡ ok r
          → RunsAllowed callback (record r.1 { doing_expired = true; cancelled = [] }) r.0)
      → Returns
          (λ r.
            IsValid r.0
            × ((es : List Effect) × (r.1
                  ≡ es
                    ++ (if ltb 0 (next_expired r.0.timers)
                        then armed (next_expired r.0.timers) ∷ []
                        else []))))
          (handle_read callback q now)
  unfolding handle_read
  handle_read_lem q now v allowed =
      let (r, run, (w, split, due, later, idle)) = get_expired_lem q now v in
      let running : TimerQueue = record r.1 { doing_expired = true; cancelled = [] } in
      let started = marked r.1 true [] r.0 (w, idle) in
      let (s, ran, kept) = run_all-Keeps running r.0 r.0 started started.1 (allowed r run) in
      let ended = marked s.0 false s.0.cancelled r.0 kept in
      let (u, done, (valid_end, timers, heap, effects)) =
        reset_lem (record s.0 { doing_expired = false }) now r.0 ended.0 ended.1 in
      ((u.0, s.1 ++ u.1), rw (run, ran, done) refl, (valid_end, (s.1, ap (◌++◌ s.1) effects)))
