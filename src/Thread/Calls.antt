-- ===== src/Thread/Calls.antt =====
-- The order in which a thread may be started and joined, and the number that it finds for itself.
use summer.Prelude.{
  ℕ, ◌≡◌, ◌≢◌, refl, arith, Bool, true, false, not, ◌&&◌, if◌then◌else◌, List, [], ◌∷◌, Outcome, ok,
  aborted, ◌>>=◌,
}
use summer.Thread.{Thread, start, join, Current, tid}

pub data Call : Type 0 where
  starts joins : Call

abbrev pub call : Thread → Call → Outcome Thread
call t starts = start t
call t joins = join t

abbrev pub calls : Thread → List Call → Outcome Thread
calls t [] = ok t
calls t (c ∷ cs) = do u ← call t c; calls u cs

-- The calls alternate, and the first is `join` if the thread is started.
abbrev pub alternate : Bool → List Call → Bool
alternate started [] = true
alternate started (starts ∷ cs) = not started && alternate true cs
alternate started (joins ∷ cs) = started && alternate false cs

abbrev pub started_behind : Bool → List Call → Bool
started_behind started [] = started
started_behind started (starts ∷ cs) = started_behind true cs
started_behind started (joins ∷ cs) = started_behind false cs

-- A row of calls of `start` and `join` goes through if they alternate, and then the last one tells whether
-- the thread is started; any other row fails an assertion.
pub calls-alternate :
    (t : Thread) (cs : List Call)
    → calls t cs ≡ (
        if alternate t.started cs
        then ok (record t { started = started_behind t.started cs })
        else aborted)
unfolding start join
calls-alternate t [] = refl
calls-alternate t (starts ∷ cs) = ground (arith, calls-alternate (record t { started = true }) cs)
calls-alternate t (joins ∷ cs) = ground (arith, calls-alternate (record t { started = false }) cs)

-- What a row of calls of `tid` answers; `gettid` need not answer the same each time.
abbrev pub tids : Current → List ℕ → List ℕ
tids c [] = []
tids c (g ∷ gs) = let r = tid c g in r.0 ∷ tids r.1 gs

abbrev pub repeated : ℕ → List ℕ → List ℕ
repeated t [] = []
repeated t (g ∷ gs) = t ∷ repeated t gs

cached : (c : Current) (gs : List ℕ) → c.cached_tid ≢ 0 → tids c gs ≡ repeated c.cached_tid gs
unfolding tid
cached c [] h = refl
cached c (g ∷ gs) h = ground (arith, h, cached c gs h)

-- After the first, `tid` does not ask the system again: it goes on with the number that it got then.
pub tids-repeated :
    (c : Current) (g : ℕ) (gs : List ℕ)
    → c.cached_tid ≡ 0
    → g ≢ 0
    → tids c (g ∷ gs) ≡ repeated g (g ∷ gs)
unfolding tid
tids-repeated c g gs e h = ground (arith, e, cached (record c { cached_tid = g }) gs h)
