-- ===== src/EventLoop/Owners.antt =====
-- The event loops and their threads: a loop belongs to the thread that builds it, which has no other.
use summer.Prelude.{
  ℕ, suc, ◌≡◌, Bool, true, false, not, ◌==◌, if◌then◌else◌, Option, none, some, Outcome, ok,
  aborted, ◌>>◌, assert,
}

-- `owner` is `threadId_` of the loops that are there, by their numbers; `slot` is
-- `t_loopInThisThread_` of each thread; `next` is a number that no loop has had.
pub record Loops : Type 0 where
  pub next : ℕ
  pub owner : ℕ → Option ℕ
  pub slot : ℕ → Option ℕ

unfoldable pub none_built : Loops
none_built = record { next = 0; owner = λ l. none; slot = λ t. none }

abbrev pub set : (ℕ → Option ℕ) → ℕ → Option ℕ → ℕ → Option ℕ
set f k x j = if j == k then x else f j

-- `Poller::newDefaultPoller`, by whether SUMMER_POLL is in the environment.
pub data PollerKind : Type 0 where
  poll_poller epoll_poller : PollerKind

unfoldable pub new_default_poller : Bool → PollerKind
new_default_poller true = poll_poller
new_default_poller false = epoll_poller

-- `create_eventfd`
unfoldable pub create_eventfd : Bool → Outcome (Unit {0})
create_eventfd true = ok tt
create_eventfd false = aborted

-- The constructor, in a thread, by whether the eventfd could be created; a second loop aborts.
unfoldable pub build : Loops → ℕ → Bool → Outcome Loops
build s thread created = do
  create_eventfd created
  elim (s.slot thread) [
    | none ↦ ok (record s {
      next = suc s.next;
      owner = set s.owner s.next (some thread);
      slot = set s.slot thread (some s.next);
    })
    | some other ↦ aborted
  ]

-- The destructor of a loop, in a thread that need not be its own.
unfoldable pub destroy : Loops → ℕ → ℕ → Bool → Outcome Loops
destroy s loop thread looping = do
  assert (not looping)
  ok (record s { owner = set s.owner loop none; slot = set s.slot thread none })

unfoldable pub get_event_of_current_thread : Loops → ℕ → Option ℕ
get_event_of_current_thread s thread = s.slot thread

abbrev pub is_in_loop_thread : Loops → ℕ → ℕ → Bool
is_in_loop_thread s loop thread = elim (s.owner loop) [ none ↦ false | some t ↦ t == thread ]

-- LOG_FATAL aborts.
unfoldable pub assert_in_loop_thread : Loops → ℕ → ℕ → Outcome (Unit {0})
assert_in_loop_thread s loop thread = if is_in_loop_thread s loop thread then ok tt else aborted

-- `updateChannel` and `removeChannel`: the channel's loop, and what the poller does with it.
unfoldable pub change_channel {ℓ} : {P : Type ℓ} → Loops → ℕ → ℕ → ℕ → Outcome P → Outcome P
change_channel s loop channel_loop thread poller = do
  assert (channel_loop == loop)
  assert_in_loop_thread s loop thread
  poller

pub data Event : Type 0 where
  -- a thread builds a loop; a thread destroys a loop of its own that is not looping
  builds : ℕ → Bool → Event
  destroys : ℕ → ℕ → Event

abbrev pub step : Loops → Event → Outcome Loops
step s (builds thread created) = build s thread created
step s (destroys loop thread) = destroy s loop thread false

-- A loop is destroyed in its own thread.
abbrev pub Enabled : Loops → Event → Type 0
Enabled s (builds thread created) = Unit {0}
Enabled s (destroys loop thread) = s.owner loop ≡ some thread

pub data Reach (s : Loops) : Loops → Type 0 where
  here : Reach s s
  next : {t u : Loops} → Reach s t → (e : Event) → Enabled t e → step t e ≡ ok u → Reach s u
