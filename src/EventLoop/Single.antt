-- ===== src/EventLoop/Single.antt =====
-- No thread has two event loops.
use summer.Prelude.{ℕ, ◌<◌, ◌≡◌, arith, Bool, false, some, ok, ◌↔◌}
use summer.EventLoop.Owners.{
  Loops, none_built, create_eventfd, build, destroy, get_event_of_current_thread,
  assert_in_loop_thread, builds, destroys, Reach, here, next,
}

-- A loop is its thread's loop, and a thread's loop is that thread's.
pub record IsMatched (s : Loops) : Type 0 where
  pub listed : (loop thread : ℕ) → s.owner loop ≡ some thread → s.slot thread ≡ some loop
  pub owned : (loop thread : ℕ) → s.slot thread ≡ some loop → s.owner loop ≡ some thread
  pub new : (loop thread : ℕ) → s.owner loop ≡ some thread → loop < s.next

step_builds :
    (s t : Loops) (thread : ℕ) (created : Bool)
    → IsMatched s
    → build s thread created ≡ ok t
    → IsMatched t
unfolding build create_eventfd
step_builds s t thread created v h = record {
  listed = λ loop other e. ground (arith, h, e, v.listed loop other, v.new loop other);
  owned = λ loop other e. ground (arith, h, e, v.owned loop other, v.new loop other);
  new = λ loop other e. ground (arith, h, e, v.new loop other);
}

step_destroys :
    (s t : Loops) (loop thread : ℕ)
    → IsMatched s
    → s.owner loop ≡ some thread
    → destroy s loop thread false ≡ ok t
    → IsMatched t
unfolding destroy
step_destroys s t loop thread v o h = record {
  listed = λ l other e. ground (arith, h, e, o, v.listed l other, v.listed loop thread);
  owned = λ l other e. ground (arith, h, e, o, v.owned l other, v.listed loop thread);
  new = λ l other e. ground (arith, h, e, v.new l other);
}

none_built-IsMatched : IsMatched none_built
unfolding none_built
none_built-IsMatched = record {
  listed = λ loop thread e. cc;
  owned = λ loop thread e. cc;
  new = λ loop thread e. cc;
}

Reach-IsMatched : {s : Loops} → Reach none_built s → IsMatched s
Reach-IsMatched here = none_built-IsMatched
Reach-IsMatched (next {t} {u} r (builds thread created) o h) =
    step_builds t u thread created (Reach-IsMatched r) h
Reach-IsMatched (next {t} {u} r (destroys loop thread) o h) =
    step_destroys t u loop thread (Reach-IsMatched r) o h

-- As long as each loop is destroyed in its own thread, a loop that is there is the one that its thread
-- finds, no other loop belongs to that thread, and just that thread passes the loop's assertion.
pub Reach-single :
    {s : Loops} (loop thread : ℕ)
    → Reach none_built s
    → s.owner loop ≡ some thread
    → (get_event_of_current_thread s thread ≡ some loop)
      × ((other : ℕ) → s.owner other ≡ some thread → other ≡ loop)
      × ((current : ℕ) → (assert_in_loop_thread s loop current ≡ ok tt) ↔ (current ≡ thread))
unfolding get_event_of_current_thread assert_in_loop_thread
Reach-single {s} loop thread r o =
    let v = Reach-IsMatched r in
    let here = v.listed loop thread o in
    (here, λ other p. cc (here, v.listed other thread p), λ current. ground (arith, o))
