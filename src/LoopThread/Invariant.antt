-- ===== src/LoopThread/Invariant.antt =====
-- What holds of a thread and its loop as long as nobody but the destructor quits the loop.
use summer.Prelude.{◌≡◌, ◌≢◌, refl, arith, ◌⊎◌, Bool, true, false, some}
use summer.LoopThread.{
  by_caller, by_thread, Caller, ready, testing, dozing, sleeping, leaving, reading, holding,
  quitting, joining, joined, gone, crashed, Thread, absent, setting, notifying, unlocking, entering,
  looping, ended, finished, LoopThread, init, Event, other_quits, start_loop, caller_step,
  thread_step, step, Reach, here, next,
}

abbrev pub IsQuiet : Event → Type 0
IsQuiet other_quits = ⊥
IsQuiet _ = Unit {0}

-- The loop is there for others.
abbrev pub is_published : Thread → Bool
is_published notifying = true
is_published unlocking = true
is_published entering = true
is_published looping = true
is_published ended = true
is_published _ = false

abbrev pub caller_inside : Caller → Bool
caller_inside testing = true
caller_inside dozing = true
caller_inside leaving = true
caller_inside _ = false

abbrev pub thread_inside : Thread → Bool
thread_inside setting = true
thread_inside notifying = true
thread_inside unlocking = true
thread_inside _ = false

-- The caller has seen that the loop is there, and has not yet asked it to quit.
abbrev pub has_seen : Caller → Bool
has_seen leaving = true
has_seen reading = true
has_seen (holding b) = true
has_seen quitting = true
has_seen _ = false

abbrev pub has_quit : Caller → Bool
has_quit joining = true
has_quit joined = true
has_quit _ = false

pub record IsSound (s : LoopThread) : Type 0 where
  pub caller_locks : caller_inside s.caller ≡ true → s.owner ≡ by_caller
  pub thread_locks : thread_inside s.thread ≡ true → s.owner ≡ by_thread
  pub published : s.loop ≡ is_published s.thread
  pub dozes : s.caller ≡ dozing → s.loop ≡ false
  pub told : s.caller ≡ sleeping → (s.loop ≡ false) ⊎ (s.thread ≡ notifying)
  pub seen : has_seen s.caller ≡ true → (s.loop ≡ true) × (s.thread ≢ ended)
  pub kept : has_quit s.caller ≡ false → s.quit ≡ false
  pub ready : s.caller ≡ ready → s.thread ≡ absent
  pub gone : s.caller ≡ gone → s.thread ≡ absent
  pub joined : s.caller ≡ joined → s.thread ≡ finished
  pub result : (b : Bool) → s.caller ≡ holding b → b ≡ true
  pub whole : s.caller ≢ crashed
  pub running : has_quit s.caller ≡ false → s.thread ≢ ended × s.thread ≢ finished

-- What every step keeps, from what it rests on.
module _ (s t : LoopThread) (e : Event) (h : step s e ≡ some t) where
  step-caller_locks :
      (caller_inside s.caller ≡ true → s.owner ≡ by_caller)
      → (thread_inside s.thread ≡ true → s.owner ≡ by_thread)
      → (caller_inside t.caller ≡ true → t.owner ≡ by_caller)
  unfolding step caller_step thread_step start_loop
  step-caller_locks h_caller_locks h_thread_locks =
      ground (arith, h, h_caller_locks, h_thread_locks)

  step-thread_locks :
      (thread_inside s.thread ≡ true → s.owner ≡ by_thread)
      → (caller_inside s.caller ≡ true → s.owner ≡ by_caller)
      → (s.caller ≡ ready → s.thread ≡ absent)
      → (thread_inside t.thread ≡ true → t.owner ≡ by_thread)
  unfolding step caller_step thread_step start_loop
  step-thread_locks h_thread_locks h_caller_locks h_ready =
      ground (arith, h, h_thread_locks, h_caller_locks, h_ready)

  step-published :
      (s.loop ≡ is_published s.thread)
      → (s.caller ≡ ready → s.thread ≡ absent)
      → (t.loop ≡ is_published t.thread)
  unfolding step caller_step thread_step start_loop
  step-published h_published h_ready = ground (arith, h, h_published, h_ready)

  step-dozes :
      (s.caller ≡ dozing → s.loop ≡ false)
      → (caller_inside s.caller ≡ true → s.owner ≡ by_caller)
      → (thread_inside s.thread ≡ true → s.owner ≡ by_thread)
      → (t.caller ≡ dozing → t.loop ≡ false)
  unfolding step caller_step thread_step start_loop
  step-dozes h_dozes h_caller_locks h_thread_locks =
      ground (arith, h, h_dozes, h_caller_locks, h_thread_locks)

  step-told :
      (s.caller ≡ sleeping → (s.loop ≡ false) ⊎ (s.thread ≡ notifying))
      → (s.caller ≡ dozing → s.loop ≡ false)
      → (t.caller ≡ sleeping → (t.loop ≡ false) ⊎ (t.thread ≡ notifying))
  unfolding step caller_step thread_step start_loop
  step-told h_told h_dozes = ground (arith, h, h_told, h_dozes)

  step-seen :
      IsQuiet e
      → (has_seen s.caller ≡ true → (s.loop ≡ true) × (s.thread ≢ ended))
      → (has_quit s.caller ≡ false → s.quit ≡ false)
      → (has_quit s.caller ≡ false → (s.thread ≢ ended) × (s.thread ≢ finished))
      → (has_seen t.caller ≡ true → (t.loop ≡ true) × (t.thread ≢ ended))
  unfolding step caller_step thread_step start_loop
  step-seen q h_seen h_kept h_running = ground (arith, h, q, h_seen, h_kept, h_running)

  step-kept :
      IsQuiet e
      → (has_quit s.caller ≡ false → s.quit ≡ false)
      → (has_quit t.caller ≡ false → t.quit ≡ false)
  unfolding step caller_step thread_step start_loop
  step-kept q h_kept = ground (arith, h, q, h_kept)

  step-ready : (s.caller ≡ ready → s.thread ≡ absent) → (t.caller ≡ ready → t.thread ≡ absent)
  unfolding step caller_step thread_step start_loop
  step-ready h_ready = ground (arith, h, h_ready)

  step-gone :
      (s.caller ≡ gone → s.thread ≡ absent)
      → (s.caller ≡ ready → s.thread ≡ absent)
      → (s.loop ≡ is_published s.thread)
      → (has_seen s.caller ≡ true → (s.loop ≡ true) × (s.thread ≢ ended))
      → (t.caller ≡ gone → t.thread ≡ absent)
  unfolding step caller_step thread_step start_loop
  step-gone h_gone h_ready h_published h_seen =
      ground (arith, h, h_gone, h_ready, h_published, h_seen)

  step-joined :
      (s.caller ≡ joined → s.thread ≡ finished) → (t.caller ≡ joined → t.thread ≡ finished)
  unfolding step caller_step thread_step start_loop
  step-joined h_joined = ground (arith, h, h_joined)

  step-result :
      ((b : Bool) → s.caller ≡ holding b → b ≡ true)
      → (has_seen s.caller ≡ true → (s.loop ≡ true) × (s.thread ≢ ended))
      → ((b : Bool) → t.caller ≡ holding b → b ≡ true)
  unfolding step caller_step thread_step start_loop
  step-result h_result h_seen b = ground (arith, h, h_result b, h_seen)

  step-whole :
      (s.caller ≢ crashed)
      → (has_seen s.caller ≡ true → (s.loop ≡ true) × (s.thread ≢ ended))
      → (t.caller ≢ crashed)
  unfolding step caller_step thread_step start_loop
  step-whole h_whole h_seen = ground (arith, h, h_whole, h_seen)

  step-running :
      IsQuiet e
      → (has_quit s.caller ≡ false → (s.thread ≢ ended) × (s.thread ≢ finished))
      → (has_quit s.caller ≡ false → s.quit ≡ false)
      → (s.caller ≡ ready → s.thread ≡ absent)
      → (has_quit t.caller ≡ false → (t.thread ≢ ended) × (t.thread ≢ finished))
  unfolding step caller_step thread_step start_loop
  step-running q h_running h_kept h_ready = ground (arith, h, q, h_running, h_kept, h_ready)

  step-IsSound : IsQuiet e → IsSound s → IsSound t
  step-IsSound q v = record {
    caller_locks = step-caller_locks v.caller_locks v.thread_locks;
    thread_locks = step-thread_locks v.thread_locks v.caller_locks v.ready;
    published = step-published v.published v.ready;
    dozes = step-dozes v.dozes v.caller_locks v.thread_locks;
    told = step-told v.told v.dozes;
    seen = step-seen q v.seen v.kept v.running;
    kept = step-kept q v.kept;
    ready = step-ready v.ready;
    gone = step-gone v.gone v.ready v.published v.seen;
    joined = step-joined v.joined;
    result = step-result v.result v.seen;
    whole = step-whole v.whole v.seen;
    running = step-running q v.running v.kept v.ready;
  }

init-IsSound : IsSound init
unfolding init
init-IsSound = record {
  caller_locks = λ e. cc;
  thread_locks = λ e. cc;
  published = refl;
  dozes = λ e. cc;
  told = λ e. cc;
  seen = λ e. cc;
  kept = λ e. refl;
  ready = λ e. refl;
  gone = λ e. cc;
  joined = λ e. cc;
  result = λ b e. cc;
  whole = λ e. cc;
  running = λ e. (λ f. cc, λ f. cc);
}

pub Reach-IsSound : {s : LoopThread} → Reach IsQuiet init s → IsSound s
Reach-IsSound here = init-IsSound
Reach-IsSound (next {t} {u} r e q h) = step-IsSound t u e h q (Reach-IsSound r)
