-- ===== src/Connection/States.antt =====
-- The calls on a connection as one step function, and what holds along every sequence of them.
use summer.Prelude.{
  ℕ, ◌+◌, ◌-◌, ◌<◌, ◌≡◌, ◌⊎◌, ap, ap₂, sym, ◌∙◌, inl, inr, arith, Bool, true, false, Bool-cases,
  List, [], ◌∷◌, ◌++◌, append-nil, append_assoc, ok, ◌>>=◌, >>=-eq-ok, of_returns, length, subst,
  if◌then◌else◌,
}
use summer.Buffer.{Buffer, int_max, Readv, failed, received, content, retrieve}
use summer.Buffer.Invariant.{IsValid}
use summer.Connection.{
  Connection, Effect, Write, Step, is_connected, shutdown_in_loop, shutdown, direct_count,
  keep_rest, send_in_loop, send, send_buffer, handle_write, handle_close, handle_read,
  connection_established, connection_destroyed,
}
use summer.Connection.Stream.{
  written, stream, Admissible, HasRoom, keep_rest-HasRoom, send_in_loop-stream, handle_write-stream,
}

-- A call of another thread or of the loop; the Boolean of `sends`, `sends_buffer` and `shuts` is whether it comes from
-- the loop's thread. What another thread starts goes on by `resumes_send` and `resumes_shutdown`.
pub data Op : Type 0 where
  establishes closes destroys resumes_shutdown : Op
  sends : Bool → List ℕ → Write → Op
  sends_buffer : Bool → Buffer → Write → Op
  resumes_send : List ℕ → Write → Op
  writes : Write → Op
  reads : Readv → Op
  consumes : ℕ → Op
  shuts : Bool → Op

-- The message callback takes bytes off the input buffer by `consumes` and sends by `sends`.
abbrev no_callback : Connection → Step
no_callback c = ok (c, [])

unfoldable pub step : Connection → Op → Step
step c establishes = connection_established c
step c closes = handle_close c
step c destroys = connection_destroyed c
step c resumes_shutdown = ok (c, shutdown_in_loop c)
step c (sends in_loop message answer) = send in_loop c message answer
step c (sends_buffer in_loop buffer answer) = do
  r ← send_buffer in_loop c buffer answer
  ok (r.0, r.2)
step c (resumes_send message answer) = send_in_loop c message answer
step c (writes answer) = handle_write c answer
step c (reads answer) = handle_read (λ d. ok (d, [])) c answer
step c (consumes n) = do input ← retrieve c.input n; ok (record c { input = input }, [])
step c (shuts in_loop) = ok (shutdown in_loop c)

-- The message that a call hands to the stream.
unfoldable pub accepted : Connection → Op → List ℕ
accepted c (sends in_loop message answer) =
    if is_connected c.state then if in_loop then message else [] else []
accepted c (sends_buffer in_loop buffer answer) =
    if is_connected c.state then if in_loop then content buffer else [] else []
accepted c (resumes_send message answer) = message
accepted c _ = []

-- `write` takes no more than it is given, and the output buffer and the message together stay below the
-- greatest `int`.
abbrev pub Sends : Connection → List ℕ → Write → Type 0
Sends c message answer =
    Admissible answer (length message) × (length c.output.bytes + length message < int_max)

-- What is asked of the calls that write, if they do.
abbrev pub Admits : Connection → Op → Type 0
Admits c (sends true message answer) = (is_connected c.state ≡ false) ⊎ Sends c message answer
Admits c (sends_buffer true buffer answer) =
    (is_connected c.state ≡ false) ⊎ Sends c (content buffer) answer
Admits c (resumes_send message answer) = Sends c message answer
Admits c (writes answer) = Admissible answer (length (content c.output))
Admits c _ = Unit {0}

-- A connection with what was written and what was accepted on the way to it.
pub data Reach (c : Connection) : Connection → List ℕ → List ℕ → Type 0 where
  here : Reach c c [] []
  next :
      {d e : Connection} {w a : List ℕ} {es : List Effect}
      → Reach c d w a
      → (op : Op) → Admits d op
      → step d op ≡ ok (e, es)
      → Reach c e (w ++ written es) (a ++ accepted d op)

-- The property of a step that adds up along a run.
abbrev Streams : Connection → List ℕ → Connection × List Effect → Type 0
Streams c message r = IsValid r.0.output × (stream r.0 r.1 ≡ content c.output ++ message)

-- A step that neither writes nor touches the output buffer.
Streams-quiet :
    (c : Connection) (r : Connection × List Effect)
    → IsValid c.output
    → r.0.output ≡ c.output
    → written r.1 ≡ []
    → Streams c [] r
Streams-quiet c r v e f =
    (subst IsValid (sym e) v, ap₂ ◌++◌ f (ap content e) ∙ sym (append-nil (content c.output)))

-- What the calls without an output of their own do to it.
abbrev Quiet : Connection → Connection × List Effect → Type 0
Quiet c r = (r.0.output ≡ c.output) × (written r.1 ≡ [])

established-Quiet :
    (c : Connection) (r : Connection × List Effect) → connection_established c ≡ ok r → Quiet c r
unfolding connection_established
established-Quiet c r e = ground arith

destroyed-Quiet :
    (c : Connection) (r : Connection × List Effect) → connection_destroyed c ≡ ok r → Quiet c r
unfolding connection_destroyed
destroyed-Quiet c r e = ground arith

read-Quiet :
    (c : Connection) (answer : Readv) (r : Connection × List Effect)
    → handle_read (λ d. ok (d, [])) c answer ≡ ok r
    → Quiet c r
unfolding handle_read handle_close
read-Quiet c (failed errno) r e = ground arith
read-Quiet c (received []) r e = ground arith
read-Quiet c (received (x ∷ xs)) r e = ground arith

closed-Quiet : (c : Connection) (r : Connection × List Effect) → step c closes ≡ ok r → Quiet c r
unfolding step handle_close
closed-Quiet c r e = ground arith

resumed-Quiet :
    (c : Connection) (r : Connection × List Effect) → step c resumes_shutdown ≡ ok r → Quiet c r
unfolding step shutdown_in_loop
resumed-Quiet c r e = ground arith

consumed-Quiet :
    (c : Connection) (n : ℕ) (r : Connection × List Effect) → step c (consumes n) ≡ ok r → Quiet c r
unfolding step
consumed-Quiet c n r e = ground arith

shut-Quiet :
    (c : Connection) (in_loop : Bool) (r : Connection × List Effect)
    → step c (shuts in_loop) ≡ ok r
    → Quiet c r
unfolding step shutdown shutdown_in_loop
shut-Quiet c in_loop r e = ground arith

-- What `sendInLoop` kept had room, if it returned.
room_of_sent :
    (c : Connection) (message : List ℕ) (answer : Write) (r : Connection × List Effect)
    → IsValid c.output
    → Sends c message answer
    → send_in_loop c message answer ≡ ok r
    → HasRoom c (length message - direct_count c answer)
unfolding send_in_loop
room_of_sent c message answer r v (a, small) e =
    let (c', kept, f) = >>=-eq-ok (keep_rest c message (direct_count c answer)) _ e in
    keep_rest-HasRoom c message (direct_count c answer) c' v small kept

send_in_loop-Streams :
    (c : Connection) (message : List ℕ) (answer : Write) (r : Connection × List Effect)
    → IsValid c.output
    → Sends c message answer
    → send_in_loop c message answer ≡ ok r
    → Streams c message r
send_in_loop-Streams c message answer r v a e =
    let room = room_of_sent c message answer r v a e in
    let s = of_returns r (send_in_loop-stream c message answer v a.0 room) e in (s.0, s.1)

sent-Streams :
    (c : Connection) (in_loop : Bool) (message : List ℕ) (answer : Write)
    (r : Connection × List Effect)
    → IsValid c.output
    → Admits c (sends in_loop message answer)
    → send in_loop c message answer ≡ ok r
    → Streams c (if is_connected c.state then if in_loop then message else [] else []) r
unfolding send
sent-Streams c true message answer r v a e = elim (Bool-cases (is_connected c.state)) [
  | inl up ↦ elim a [
    | inl down ↦ absurd (cc (up, down))
    | inr s ↦ rw up (send_in_loop-Streams c message answer r v s (rw up at e))
  ]
  | inr down ↦
      rw down (Streams-quiet c r v (ground (arith, rw down at e)) (ground (arith, rw down at e)))
]
sent-Streams c false message answer r v a e = elim (Bool-cases (is_connected c.state)) [
  | inl up ↦ rw up (Streams-quiet c r v (ground (arith, rw up at e)) (ground (arith, rw up at e)))
  | inr down ↦
      rw down (Streams-quiet c r v (ground (arith, rw down at e)) (ground (arith, rw down at e)))
]

-- `send(Buffer*)` sends what the buffer holds as `send` does.
pub sent_buffer :
    (c : Connection) (in_loop : Bool) (buffer : Buffer) (answer : Write)
    → step c (sends_buffer in_loop buffer answer) ≡ step c (sends in_loop (content buffer) answer)
unfolding step send_buffer send
sent_buffer c in_loop buffer answer = ground arith

step-Streams :
    (c : Connection) (op : Op) (r : Connection × List Effect)
    → IsValid c.output
    → Admits c op
    → step c op ≡ ok r
    → Streams c (accepted c op) r
unfolding step accepted
step-Streams c establishes r v a e = let q = established-Quiet c r e in Streams-quiet c r v q.0 q.1
step-Streams c closes r v a e = let q = closed-Quiet c r e in Streams-quiet c r v q.0 q.1
step-Streams c destroys r v a e = let q = destroyed-Quiet c r e in Streams-quiet c r v q.0 q.1
step-Streams c resumes_shutdown r v a e = let q = resumed-Quiet c r e in Streams-quiet c r v q.0 q.1
step-Streams c (sends in_loop message answer) r v a e =
    sent-Streams c in_loop message answer r v a e
step-Streams c (sends_buffer true buffer answer) r v a e =
    sent-Streams c true (content buffer) answer r v a (sym (sent_buffer c true buffer answer) ∙ e)
step-Streams c (sends_buffer false buffer answer) r v a e =
    sent-Streams c false (content buffer) answer r v a (sym (sent_buffer c false buffer answer) ∙ e)
step-Streams c (resumes_send message answer) r v a e = send_in_loop-Streams c message answer r v a e
step-Streams c (writes answer) r v a e =
    let s = of_returns r (handle_write-stream c answer v a) e in
    (s.0, s.1 ∙ sym (append-nil (content c.output)))
step-Streams c (reads answer) r v a e =
    let q = read-Quiet c answer r e in Streams-quiet c r v q.0 q.1
step-Streams c (consumes n) r v a e = let q = consumed-Quiet c n r e in Streams-quiet c r v q.0 q.1
step-Streams c (shuts in_loop) r v a e =
    let q = shut-Quiet c in_loop r e in Streams-quiet c r v q.0 q.1

-- Along every sequence of calls that return, where `write` takes no more than it is given and the output
-- buffer and each message that `sendInLoop` gets stay below 2 ^ 31 bytes together, the bytes that were written, followed by those that wait in the
-- output buffer, are the bytes that waited at the start followed by the messages accepted: nothing
-- is lost, repeated or reordered, and the output buffer stays valid.
pub Reach-stream :
    {c d : Connection} {w a : List ℕ}
    → IsValid c.output
    → Reach c d w a
    → IsValid d.output × (w ++ content d.output ≡ content c.output ++ a)
Reach-stream {c} v here = (v, sym (append-nil (content c.output)))
Reach-stream {c} v (next {d} {e} {w} {a} {es} r op ok_op run) =
    let h = Reach-stream v r in
    let s = step-Streams d op (e, es) h.0 ok_op run in
    (
      s.0,
      append_assoc w (written es) (content e.output)
          ∙ ap (◌++◌ w) s.1
          ∙ sym (append_assoc w (content d.output) (accepted d op))
          ∙ ap (λ t. t ++ accepted d op) h.1
          ∙ append_assoc (content c.output) a (accepted d op),
    )
