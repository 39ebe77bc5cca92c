-- ===== src/Channel/Tests.antt =====
-- Events at a channel, and the theorems about them.
use summer.Prelude.{◌≡◌, refl, true, [], ◌∷◌}
use summer.Channel.{Channel, close, none_event, init, handle_event}

abbrev hung_up : Channel
hung_up = record (init 5) {
  revents = record none_event { pollhup = true };
  has_read = true;
  has_close = true;
}

abbrev last_words : Channel
last_words = record hung_up { revents = record none_event { pollhup = true; pollin = true } }

closes : (handle_event hung_up).0 ≡ close ∷ []
unfolding handle_event init
closes = refl
