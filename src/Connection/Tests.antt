-- ===== src/Connection/Tests.antt =====
-- Runs of a connection with small buffers, and the theorems about it at such states.
use summer.Prelude.{inr, ◌≡◌, refl, arith, some, List, [], ◌∷◌, ◌++◌, ok, replicate, true, false}
use summer.Buffer.{Buffer, content, retrieve, append}
use summer.Buffer.Invariant.{IsValid}
use summer.Channel.{Channel, with_read, with_write, none_event, disable_writing, enable_writing}
use summer.Connection.{
  Connection, connected, disconnecting, after_retrieve, drained, shutdown, shutdown_in_loop, Effect,
  wrote, took, handle_write, send_buffer, send, send_in_loop, keep_rest, direct_count,
  direct_effects,
}
use summer.Connection.States.{
  writes, sends_buffer, shuts, step, accepted, Reach, here, next, Reach-stream,
}
use summer.Connection.Shutdown.{run, later, Never, is_shut, is_called, run-forward, shutdown-lost}

abbrev small : Buffer
small = record { bytes = replicate 24 0; read_index = 8; write_index = 8 }

abbrev waiting : Buffer
waiting = record {
  bytes = replicate 8 0 ++ (1 ∷ 2 ∷ replicate 14 0);
  read_index = 8;
  write_index = 10;
}

abbrev watched : Channel
watched = record {
  events = with_read none_event;
  revents = none_event;
  fd = 5;
  index = some 0;
  event_handling = false;
  has_read = true;
  has_write = true;
  has_error = true;
  has_close = true;
}

-- An idle connection, and one with two bytes to write.
abbrev idle : Connection
idle = record {
  state = connected;
  channel = watched;
  input = small;
  output = small;
  has_write_complete = false;
  has_connection = true;
  has_message = true;
  has_close = true;
}

abbrev busy : Connection
busy = record idle {
  output = waiting;
  channel = record watched { events = with_write (with_read none_event) };
}

-- The two waiting bytes are written, which empties the output buffer.
abbrev emptied : Connection
emptied = record idle { output = record waiting { read_index = 10 } }

write_run : step busy (writes (took 2)) ≡ ok (emptied, wrote (1 ∷ 2 ∷ []) ∷ [])
unfolding step handle_write after_retrieve drained shutdown disable_writing retrieve
write_run = refl

-- Two bytes of a buffer are sent, and one of them is written at once.
abbrev half_sent : Connection
half_sent = record idle {
  output = record {
    bytes = replicate 8 0 ++ (2 ∷ replicate 15 0);
    read_index = 8;
    write_index = 9;
  };
  channel = record watched { events = with_write (with_read none_event) };
}

sent_run : step idle (sends_buffer true waiting (took 1)) ≡ ok (half_sent, wrote (1 ∷ []) ∷ [])
unfolding step send_buffer send send_in_loop keep_rest direct_count direct_effects append
    enable_writing retrieve
sent_run = refl

sent_out : Reach idle half_sent (1 ∷ []) (1 ∷ 2 ∷ [])
unfolding accepted
sent_out = next here (sends_buffer true waiting (took 1)) (inr (omega arith, omega arith)) sent_run

Reach-stream_example :
    IsValid half_sent.output
    × ((1 ∷ []) ++ content half_sent.output ≡ content idle.output ++ (1 ∷ 2 ∷ []))
Reach-stream_example = Reach-stream (omega arith) sent_out

abbrev closing : Connection × List Effect
closing = (record emptied { state = disconnecting }, wrote (1 ∷ 2 ∷ []) ∷ [])

shut_run : run busy (shuts true ∷ writes (took 2) ∷ []) ≡ ok closing
unfolding run step handle_write after_retrieve drained shutdown shutdown_in_loop disable_writing
    retrieve
shut_run = refl

run-forward_example :
    (later connected disconnecting ≡ true) × (false ≡ false → Never is_called closing.1)
run-forward_example = run-forward busy (shuts true ∷ writes (took 2) ∷ []) closing shut_run

shutdown-lost_example : Never is_shut closing.1
shutdown-lost_example =
    shutdown-lost busy (writes (took 2) ∷ []) closing refl refl (refl, tt) shut_run
