-- ===== src/Channel.antt =====
-- The channel of net/Channel.h and net/Channel.cc: what a descriptor is watched for, and which
-- callbacks an event calls. The bits of `poll` are the fields of Mask; their numbers are the system's.
pub mod Dispatch
mod Tests
use summer.Prelude.{
  ℕ, Bool, true, false, not, ◌&&◌, ◌||◌, if◌then◌else◌, List, [], ◌∷◌, ◌++◌, Option, none,
}

pub record Mask : Type 0 where
  pub pollin : Bool
  pub pollpri : Bool
  pub pollout : Bool
  pub pollerr : Bool
  pub pollhup : Bool
  pub pollnval : Bool
  pub pollrdhup : Bool

abbrev pub none_event : Mask
none_event = record {
  pollin = false;
  pollpri = false;
  pollout = false;
  pollerr = false;
  pollhup = false;
  pollnval = false;
  pollrdhup = false;
}

-- `kReadEvent` and `kWriteEvent` added to a mask, and `kWriteEvent` taken off.
abbrev pub with_read : Mask → Mask
with_read m = record m { pollin = true; pollpri = true }

abbrev pub with_write : Mask → Mask
with_write m = record m { pollout = true }

abbrev pub without_write : Mask → Mask
without_write m = record m { pollout = false }

-- A channel; `index` is `none` for the value -1, and a callback is a flag that it is set.
pub record Channel : Type 0 where
  pub events : Mask
  pub revents : Mask
  pub fd : ℕ
  pub index : Option ℕ
  pub event_handling : Bool
  pub has_read : Bool
  pub has_write : Bool
  pub has_error : Bool
  pub has_close : Bool

unfoldable pub init : ℕ → Channel
init fd = record {
  events = none_event;
  revents = none_event;
  fd = fd;
  index = none;
  event_handling = false;
  has_read = false;
  has_write = false;
  has_error = false;
  has_close = false;
}

-- The changes of `events_`; each is followed by `update()`, which hands the channel to the poller.
unfoldable pub enable_reading : Channel → Channel
enable_reading c = record c { events = with_read c.events }

unfoldable pub enable_writing : Channel → Channel
enable_writing c = record c { events = with_write c.events }

unfoldable pub disable_writing : Channel → Channel
disable_writing c = record c { events = without_write c.events }

unfoldable pub disable_all : Channel → Channel
disable_all c = record c { events = none_event }

abbrev pub is_writing : Channel → Bool
is_writing c = c.events.pollout

-- `events_ == kNoneEvent`
abbrev pub is_none_mask : Mask → Bool
is_none_mask m = not (
    m.pollin
    || (m.pollpri || (m.pollout || (m.pollerr || (m.pollhup || (m.pollnval || m.pollrdhup))))))

abbrev pub is_none_event : Channel → Bool
is_none_event c = is_none_mask c.events

unfoldable pub set_revents : Channel → Mask → Channel
set_revents c m = record c { revents = m }

pub data Callback : Type 0 where
  close error read write : Callback

abbrev pub call_if : Bool → Callback → List Callback
call_if b c = if b then c ∷ [] else []

-- The callbacks that `handleEvent` calls, in order. A callback does not change `revents_`, and
-- `eventHandling` is true while they run and false afterwards.
pub handle_event : Channel → List Callback × Channel
handle_event c = (
  call_if (c.revents.pollhup && not c.revents.pollin && c.has_close) close
      ++ (call_if ((c.revents.pollerr || c.revents.pollnval) && c.has_error) error
          ++ (call_if
                ((c.revents.pollin || (c.revents.pollpri || c.revents.pollrdhup)) && c.has_read)
                read
              ++ call_if (c.revents.pollout && c.has_write) write)),
  record c { event_handling = false },
)
