-- ===== src/Connector/Tests.antt =====
-- Runs of a connector, and the theorems about it.
use summer.Prelude.{◌≡◌, refl, arith, false, some, [], ◌∷◌, ok}
use summer.Connector.{
  connecting, closed, scheduled, einprogress, econnrefused, init, start_in_loop, on_connect,
  start_connecting, retry,
}
use summer.Connector.World.{World, starting, started, serve}
use summer.Connector.Safety.{Reach, here, next}

refused :
    start_in_loop init 7 econnrefused
    ≡ ok (record init { retry_delay_ms = 1000 }, closed 7 ∷ scheduled 500 ∷ [])
unfolding start_in_loop init on_connect retry
refused = refl

-- The connector has its socket and waits for it to become writable.
abbrev waiting : World
waiting = record {
  connector = record { state = connecting; channel = some 7; retry_delay_ms = 500 };
  starts = 0;
  resetting = false;
}

waits : Reach started waiting
unfolding started init serve start_in_loop on_connect start_connecting
waits = next here (starting 7 einprogress) (omega arith, refl) refl
