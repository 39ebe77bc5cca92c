-- ===== src/Connection.antt =====
-- The connection of net/TcpConnection.h and net/TcpConnection.cc. A handler returns the new state
-- and what it did outside, in order. What `write` and `readv` answer is an argument, and the message
-- callback of the user a section's parameter: it may change the connection.
pub mod Stream
pub mod States
pub mod Shutdown
mod Tests
use summer.Prelude.{
  ℕ, ◌+◌, ◌-◌, ◌<◌, Bool, true, false, not, ◌&&◌, ◌==◌, ltb, if◌then◌else◌, List, [], ◌∷◌, ◌++◌,
  Outcome, ok, aborted, invalid, ◌>>=◌, ◌>>◌, assert, length, take, drop,
}
use summer.Buffer.{
  Buffer, Readv, failed, received, readable_bytes, content, append, retrieve, read_fd, retrieve_all,
}
use summer.Channel.{
  Channel, enable_reading, enable_writing, disable_writing, disable_all, is_writing,
}

-- `StateE`
pub data State : Type 0 where
  connected connecting disconnected disconnecting : State

abbrev pub is_connected : State → Bool
is_connected connected = true
is_connected _ = false

abbrev pub is_connecting : State → Bool
is_connecting connecting = true
is_connecting _ = false

abbrev pub is_disconnecting : State → Bool
is_disconnecting disconnecting = true
is_disconnecting _ = false

pub record Connection : Type 0 where
  pub state : State
  pub channel : Channel
  pub input : Buffer
  pub output : Buffer
  pub has_write_complete : Bool
  pub has_connection : Bool
  pub has_message : Bool
  pub has_close : Bool

-- What a handler does outside of the connection.
pub data Effect : Type 0 where
  -- `::write` has taken these bytes.
  wrote : List ℕ → Effect
  -- `loop_->queueInLoop` of the write-complete callback
  queued_write_complete : Effect
  -- `loop_->runInLoop` of `sendInLoop` or `shutdownInLoop`, from another thread
  queued_send : List ℕ → Effect
  queued_shutdown : Effect
  -- `socket_->shutdownWrite()`
  shut_write : Effect
  -- the callbacks of the user
  called_message called_connection called_close : Effect
  -- `loop_->removeChannel`
  removed_channel : Effect

-- What `::write` answers: a count, which is no more than was asked for, or an error.
pub data Write : Type 0 where
  took : ℕ → Write
  write_failed : Write

abbrev pub Step : Type 0
Step = Outcome (Connection × List Effect)

pub is_connected_now : Connection → Bool
is_connected_now c = is_connected c.state

unfoldable pub shutdown_in_loop : Connection → List Effect
shutdown_in_loop c = if is_writing c.channel then [] else shut_write ∷ []

unfoldable pub shutdown : Bool → Connection → Connection × List Effect
shutdown in_loop c =
    if is_connected c.state
    then (let c' = record c { state = disconnecting } in
        (c', if in_loop then shutdown_in_loop c' else queued_shutdown ∷ []))
    else (c, [])

-- `nwrite` of `sendInLoop`: nothing is written directly while bytes wait.
abbrev pub writes_directly : Connection → Bool
writes_directly c = not (is_writing c.channel) && readable_bytes c.output == 0

unfoldable pub direct_count : Connection → Write → ℕ
direct_count c (took n) = if writes_directly c then n else 0
direct_count c write_failed = 0

unfoldable pub direct_effects : Connection → List ℕ → Write → List Effect
direct_effects c message write_failed = []
direct_effects c message (took n) =
    if writes_directly c
    then wrote (take n message)
      ∷ (if ltb n (length message)
          then []
          else if c.has_write_complete
          then queued_write_complete ∷ []
          else [])
    else []

-- The second half of `sendInLoop`: what was not written is kept.
unfoldable pub keep_rest : Connection → List ℕ → ℕ → Outcome Connection
keep_rest c message nwrite =
    if ltb nwrite (length message)
    then (do
      output ← append c.output (drop nwrite message)
      ok (record c {
        output = output;
        channel = if is_writing c.channel then c.channel else enable_writing c.channel;
      }))
    else ok c

unfoldable pub send_in_loop : Connection → List ℕ → Write → Step
send_in_loop c message answer = do
  c' ← keep_rest c message (direct_count c answer)
  ok (c', direct_effects c message answer)

-- `send`; the bytes are copied before they are queued.
unfoldable pub send : Bool → Connection → List ℕ → Write → Step
send in_loop c message answer =
    if is_connected c.state
    then if in_loop then send_in_loop c message answer else ok (c, queued_send message ∷ [])
    else ok (c, [])

-- `send(Buffer*)`, which also empties the buffer that it is given.
unfoldable pub send_buffer :
    Bool → Connection → Buffer → Write → Outcome (Connection × Buffer × List Effect)
send_buffer in_loop c buffer answer =
    if is_connected c.state
    then (do r ← send in_loop c (content buffer) answer; ok (r.0, retrieve_all buffer, r.1))
    else ok (c, buffer, [])

-- `handleWrite` once `outputBuffer_` is empty.
unfoldable pub drained : Connection → Connection × List Effect
drained c =
    let c' = record c { channel = disable_writing c.channel } in
    let done = if c.has_write_complete then queued_write_complete ∷ [] else [] in
    if is_disconnecting c.state
    then (let (c'', es) = shutdown true c' in (c'', done ++ es))
    else (c', done)

-- `handleWrite` behind `outputBuffer_.retrieve(nwrite)`.
unfoldable pub after_retrieve : Connection → Effect → Connection × List Effect
after_retrieve c sent =
    if readable_bytes c.output == 0
    then (let (c', es) = drained c in (c', sent ∷ es))
    else (c, sent ∷ [])

unfoldable pub handle_write : Connection → Write → Step
handle_write c write_failed = ok (c, [])
handle_write c (took n) =
    if is_writing c.channel && ltb 0 n
    then (do
      output ← retrieve c.output n
      ok (after_retrieve (record c { output = output }) (wrote (take n (content c.output)))))
    else ok (c, [])

-- A call of a callback that is not set throws, which the library does not catch.
unfoldable pub handle_close : Connection → Step
handle_close c =
    if c.has_close
    then ok (record c { state = disconnected; channel = disable_all c.channel }, called_close ∷ [])
    else aborted

-- The message callback: it sees the connection and returns what it has made of it.
module _ (on_message : Connection → Step) where
  unfoldable pub handle_read : Connection → Readv → Step
  handle_read c (failed errno) = ok (c, [])
  handle_read c (received []) = handle_close c
  handle_read c (received (x ∷ xs)) = do
    input ← read_fd c.input (received (x ∷ xs))
    if c.has_message
        then (do r ← on_message (record c { input = input }); ok (r.0, called_message ∷ r.1))
        else aborted

-- The callback is called if it is set.
unfoldable pub connection_established : Connection → Step
connection_established c = do
  assert (is_connecting c.state)
  let c' = record c { state = connected; channel = enable_reading c.channel }
  ok (c', if c.has_connection then called_connection ∷ [] else [])

unfoldable pub connection_destroyed : Connection → Step
connection_destroyed c =
    if is_connecting c.state
    then (if c.has_connection
        then ok (
          record c { state = disconnected; channel = disable_all c.channel },
          called_connection ∷ removed_channel ∷ [],
        )
        else aborted)
    else ok (c, removed_channel ∷ [])
