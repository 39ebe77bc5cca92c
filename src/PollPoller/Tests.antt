-- ===== src/PollPoller/Tests.antt =====
-- Runs of the poller, and the theorems about it.
use summer.Prelude.{
  pos, negsuc, ℕ, ◌≡◌, refl, true, ◌==◌, if◌then◌else◌, List, [], ◌∷◌, none, some, Returns,
  of_returns, get_elem?,
}
use summer.Channel.{Mask, none_event, with_read, Channel, is_none_event, set_revents}
use summer.Channel
use summer.PollPoller.{
  PollFd, Poller, init, add_channel, update_existing, updated, update_channel, remove_channel,
  with_channel, with_index, with_revents,
}
use summer.PollPoller.Entries.{IsValid}
use summer.PollPoller.Update.{update_channel-new, update_channel-registered}
use summer.PollPoller.Remove.{Removed, remove_channel-Removed}
use summer.PollPoller.Active.{active_of}

abbrev reading : ℕ → Channel
reading fd = record (Channel.init fd) { events = with_read none_event }

-- Channel 1 reads from descriptor 5, channel 2 is without events on descriptor 6.
abbrev heap : ℕ → Channel
heap k = if k == 1 then reading 5 else Channel.init 6

init-IsValid : IsValid (init heap)
unfolding init
init-IsValid = record { registered = λ fd c h. cc; listed = λ i pfd h. cc }

abbrev entry : PollFd
entry = record { fd = pos 5; events = with_read none_event; revents = none_event }

abbrev silent : PollFd
silent = record { fd = pos 6; events = none_event; revents = none_event }

abbrev one : Poller
one = record {
  pollfds = entry ∷ [];
  channels = with_channel (λ fd. none) 5 (some 1);
  heap = with_index heap 1 0;
}

abbrev two : Poller
two = record {
  pollfds = entry ∷ silent ∷ [];
  channels = with_channel one.channels 6 (some 2);
  heap = with_index one.heap 2 1;
}

one-IsValid : IsValid one
unfolding update_channel add_channel init Channel.init
one-IsValid = (of_returns one (update_channel-new (init heap) 1 init-IsValid refl refl) refl).0

two-IsValid : IsValid two
unfolding update_channel add_channel init Channel.init
two-IsValid = (of_returns two (update_channel-new one 2 one-IsValid refl refl) refl).0

abbrev three : Poller
three = record two { pollfds = entry ∷ updated (two.heap 2) silent ∷ [] }

update_channel-registered_example :
    Returns
      (λ r.
        IsValid r
        × (r.channels ≡ two.channels)
        × (r.heap ≡ two.heap)
        × ((j : ℕ)
            → get_elem? r.pollfds j ≡ (
                if j == 1
                then some (record { fd = negsuc 6; events = none_event; revents = none_event })
                else get_elem? two.pollfds j)))
      (update_channel two 2)
unfolding Channel.init
update_channel-registered_example =
    update_channel-registered two 2 two-IsValid refl 1 silent refl refl

three-IsValid : IsValid three
unfolding update_channel update_existing Channel.init
three-IsValid =
    (of_returns three (update_channel-registered two 2 two-IsValid refl 1 silent refl refl) refl).0

remove_channel-Removed_example : Returns (Removed three 6) (remove_channel three 2)
unfolding Channel.init updated
remove_channel-Removed_example =
    remove_channel-Removed three 2 1 (updated (two.heap 2) silent) three-IsValid refl refl refl refl
      refl

-- Input waits at the first descriptor.
abbrev events : List Mask
events = record none_event { pollin = true } ∷ none_event ∷ []

abbrev polled : List PollFd
polled = with_revents two.pollfds events

first_is_active : active_of two.channels polled ≡ 1 ∷ []
first_is_active = refl
