-- ===== src/TcpClient/Tests.antt =====
-- Runs of a client, and the theorems about it.
use summer.Prelude.{◌≡◌, refl, arith, true, false, none, some, [], ◌∷◌, aborted, Returns, ◌>>=◌}
use summer.Connector
use summer.Connector.{
  connected, connecting, einprogress, start_in_loop, on_connect, start_connecting, handle_write,
  remove_and_reset_channel, on_writable, reset_channel,
}
use summer.Decimal.{Text}
use summer.TcpClient.{
  Client, init, start_connect, enable_retry, relay, connected_to, client_conn_name,
}
use summer.TcpClient.World.{
  System, connects, starting, writable, resets, closing, note, serve, built, Reach, here, next,
}
use summer.TcpClient.Trying.{IsTrying}
use summer.TcpClient.Attempts.{Kept, start, later, asked, Kept-IsTrying, connects-aborted}

abbrev c : Text
c = b'c' ∷ []

abbrev joined : Client
joined = record {
  name = c;
  connector = record { state = connected; channel = none; retry_delay_ms = 500 };
  retry = false;
  connect = true;
  next_conn_id = 2;
  connection = some 1;
}

-- The client has its first connection.
abbrev online : System
online = record { client = joined; starts = 0; resetting = false }

first_name : client_conn_name c (b'h' ∷ []) 1 ≡ b'c' ∷ b'h' ∷ b'#' ∷ b'1' ∷ []
unfolding client_conn_name summer.Decimal.digits
first_name = refl

abbrev attempt : System
attempt = record {
  client = record joined {
    connector = record { state = connecting; channel = some 7; retry_delay_ms = 500 };
    next_conn_id = 1;
    connection = none;
  };
  starts = 0;
  resetting = false;
}

abbrev told : System
told = record {
  client = record joined { connector = Connector.init; next_conn_id = 1; connection = none };
  starts = 1;
  resetting = false;
}

abbrev accepted : System
accepted = record {
  client = record joined { connector = record joined.connector { channel = some 7 } };
  starts = 0;
  resetting = true;
}

goes_online : Reach (built c) online
unfolding built serve init start_connect start_in_loop on_connect start_connecting note relay
    handle_write on_writable remove_and_reset_channel connected_to reset_channel Connector.init
goes_online =
    next {u = accepted}
      (next {u = attempt}
        (next {u = told} (next here connects (refl, refl) refl) (starting 7 einprogress)
          (omega arith, refl) refl)
        (writable false (b'h' ∷ [])) (refl, refl) refl)
      resets refl refl

connects-aborted_example :
    Returns
      (λ t.
        (t.client.connection ≡ none)
        × ((serve t connects >>= (λ u. serve u (starting 9 einprogress))) ≡ aborted))
      (serve online (closing 1 8 einprogress))
connects-aborted_example =
    connects-aborted c 1 8 9 einprogress einprogress goes_online (refl, refl) refl

abbrev retrying : System
retrying = record attempt { client = record attempt.client { retry = true } }

attempts : Kept (asked c) retrying
unfolding asked serve init start_connect enable_retry start_in_loop on_connect start_connecting note
    relay Connector.init
attempts = later start (starting 7 einprogress) (omega arith, refl) tt refl

Kept-IsTrying_example : IsTrying retrying
Kept-IsTrying_example = Kept-IsTrying c attempts
