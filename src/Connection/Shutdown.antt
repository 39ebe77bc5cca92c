-- ===== src/Connection/Shutdown.antt =====
-- The order of the states of a connection, and what closing it does and does not do.
use summer.Prelude.{
  ℕ, ◌≡◌, refl, sym, ◌∙◌, arith, Bool, true, false, Bool-cases, inl, inr, List, [], ◌∷◌, ◌++◌, ◌&&◌,
  ltb, take, ok, ◌>>=◌, >>=-eq-ok, subst,
}
use summer.Buffer.{failed, received, retrieve, content}
use summer.Channel.{is_writing}
use summer.Connection.{
  Connection, State, connected, connecting, disconnected, disconnecting, Effect, wrote, shut_write,
  called_connection, Write, took, write_failed, Step, is_connected, is_connecting, shutdown_in_loop,
  shutdown, direct_effects, keep_rest, send_in_loop, send, drained, after_retrieve, handle_write,
  handle_close, handle_read, connection_established, connection_destroyed,
}
use summer.Connection.States.{
  Op, establishes, closes, destroys, resumes_shutdown, sends, resumes_send, writes, reads, consumes,
  shuts, sends_buffer, sent_buffer, step,
}

-- The calls one after another, with all that they did.
unfoldable pub run : Connection → List Op → Step
run c [] = ok (c, [])
run c (op ∷ ops) = do r ← step c op; s ← run r.0 ops; ok (s.0, r.1 ++ s.1)

-- From the first state to the second in no or some calls: forward only.
abbrev pub later : State → State → Bool
later connecting _ = true
later connected connecting = false
later connected _ = true
later disconnecting disconnecting = true
later disconnecting disconnected = true
later disconnecting _ = false
later disconnected disconnected = true
later disconnected _ = false

later_refl : (s : State) → later s s ≡ true
later_refl connecting = refl
later_refl connected = refl
later_refl disconnecting = refl
later_refl disconnected = refl

-- No effect of a list satisfies the test.
abbrev pub Never : (Effect → Bool) → List Effect → Type 0
Never p [] = Unit {0}
Never p (x ∷ es) = (p x ≡ false) × Never p es

abbrev pub is_shut : Effect → Bool
is_shut shut_write = true
is_shut _ = false

abbrev pub is_called : Effect → Bool
is_called called_connection = true
is_called _ = false

ok-injective : {a b : Connection × List Effect} → ok a ≡ ok b → a ≡ b
ok-injective e = cc

sent_facts :
    (c : Connection) (message : List ℕ) (answer : Write) (r : Connection × List Effect)
    → send_in_loop c message answer ≡ ok r
    → (r.0.state ≡ c.state) × Never is_shut r.1 × Never is_called r.1
unfolding send_in_loop keep_rest direct_effects
sent_facts c message (took n) r e = ground arith
sent_facts c message write_failed r e = ground arith

after_retrieve_facts :
    (c : Connection) (xs : List ℕ)
    → ((after_retrieve c (wrote xs)).0.state ≡ c.state)
      × Never is_shut (after_retrieve c (wrote xs)).1
      × Never is_called (after_retrieve c (wrote xs)).1
unfolding after_retrieve drained shutdown
after_retrieve_facts c xs = ground arith

wrote_facts :
    (c : Connection) (answer : Write) (r : Connection × List Effect)
    → handle_write c answer ≡ ok r
    → (r.0.state ≡ c.state) × Never is_shut r.1 × Never is_called r.1
unfolding handle_write
wrote_facts c (took n) r e = elim (Bool-cases (is_writing c.channel && ltb 0 n)) [
  | inl on ↦
      let (out, got, f) = >>=-eq-ok (retrieve c.output n) _ (rw on at e) in
      subst (λ t. (t.0.state ≡ c.state) × Never is_shut t.1 × Never is_called t.1) (ok-injective f)
        (after_retrieve_facts (record c { output = out }) (take n (content c.output)))
  | inr off ↦ ground (arith, rw off at e)
]
wrote_facts c write_failed r e = ground arith

-- A call resumed for another thread, by which alone a shutdown in progress is finished.
abbrev pub is_resumed : Op → Bool
is_resumed resumes_shutdown = true
is_resumed _ = false

-- What every step keeps to: the state goes forward, the connection callback is called only from the
-- state `connecting`, and once the connection is closing no step but the resumed one shuts it.
abbrev Fact : Connection → Op → Connection × List Effect → Type 0
Fact c op r =
    (later c.state r.0.state ≡ true)
    × (is_connecting c.state ≡ false → Never is_called r.1)
    × (is_connecting c.state ≡ false
        → is_connected c.state ≡ false
        → is_resumed op ≡ false
        → Never is_shut r.1)

sends-Fact :
    (c : Connection) (in_loop : Bool) (message : List ℕ) (answer : Write)
    (r : Connection × List Effect)
    → step c (sends in_loop message answer) ≡ ok r
    → Fact c (sends in_loop message answer) r
unfolding step send
sends-Fact c in_loop message answer r e = (
  ground (arith, later_refl c.state, sent_facts c message answer r),
  λ h. ground (arith, sent_facts c message answer r),
  λ h k m. ground (arith, sent_facts c message answer r),
)

step-Fact :
    (c : Connection) (op : Op) (r : Connection × List Effect) → step c op ≡ ok r → Fact c op r
unfolding step connection_established connection_destroyed handle_close handle_read shutdown
    shutdown_in_loop send
step-Fact c establishes r e = (ground arith, λ h. ground arith, λ h k m. ground arith)
step-Fact c closes r e = (ground arith, λ h. ground arith, λ h k m. ground arith)
step-Fact c destroys r e =
    (ground (arith, later_refl c.state), λ h. ground arith, λ h k m. ground arith)
step-Fact c resumes_shutdown r e =
    (ground (arith, later_refl c.state), λ h. ground arith, λ h k m. ground arith)
step-Fact c (sends in_loop message answer) r e = sends-Fact c in_loop message answer r e
step-Fact c (sends_buffer in_loop buffer answer) r e =
    sends-Fact c in_loop (content buffer) answer r (sym (sent_buffer c in_loop buffer answer) ∙ e)
step-Fact c (resumes_send message answer) r e =
    let (s, n, k) = sent_facts c message answer r e in
    (ground (arith, later_refl c.state), λ h. k, λ h g m. n)
step-Fact c (writes answer) r e =
    let (s, n, k) = wrote_facts c answer r e in
    (ground (arith, later_refl c.state), λ h. k, λ h g m. n)
step-Fact c (reads (failed errno)) r e =
    (ground (arith, later_refl c.state), λ h. ground arith, λ h k m. ground arith)
step-Fact c (reads (received [])) r e = (ground arith, λ h. ground arith, λ h k m. ground arith)
step-Fact c (reads (received (x ∷ xs))) r e =
    (ground (arith, later_refl c.state), λ h. ground arith, λ h k m. ground arith)
step-Fact c (consumes n) r e =
    (ground (arith, later_refl c.state), λ h. ground arith, λ h k m. ground arith)
step-Fact c (shuts in_loop) r e =
    (ground (arith, later_refl c.state), λ h. ground arith, λ h k m. ground arith)

Never-append :
    (p : Effect → Bool) (xs ys : List Effect) → Never p xs → Never p ys → Never p (xs ++ ys)
Never-append p [] ys h k = k
Never-append p (x ∷ xs) ys h k = (h.0, Never-append p xs ys h.1 k)

later_trans : (s t u : State) → later s t ≡ true → later t u ≡ true → later s u ≡ true
later_trans s t u h k = ground arith

not_connecting_later :
    (s t : State) → later s t ≡ true → is_connecting s ≡ false → is_connecting t ≡ false
not_connecting_later s t h k = ground arith

not_connected_later :
    (s t : State)
    → later s t ≡ true
    → is_connecting s ≡ false
    → is_connected s ≡ false
    → is_connected t ≡ false
not_connected_later s t h k m = ground arith

-- A run of at least one call is a step and a run.
run_cons :
    (c : Connection) (op : Op) (ops : List Op) (r : Connection × List Effect)
    → run c (op ∷ ops) ≡ ok r
    → (q : Connection × List Effect) × (step c op ≡ ok q)
      × (s : Connection × List Effect) × (run q.0 ops ≡ ok s)
      × (r ≡ (s.0, q.1 ++ s.1))
unfolding run
run_cons c op ops r e =
    let (q, first, rest) = >>=-eq-ok (step c op) _ e in
    let (s, later_run, f) = >>=-eq-ok (run q.0 ops) _ rest in
    (q, first, s, later_run, ok-injective (sym f))

-- The state of a connection only goes forward, from connecting over connected and disconnecting to
-- disconnected; a connection that is past `connecting` calls the connection callback never again,
-- not even when it is closed and destroyed.
pub run-forward :
    (c : Connection) (ops : List Op) (r : Connection × List Effect)
    → run c ops ≡ ok r
    → (later c.state r.0.state ≡ true) × (is_connecting c.state ≡ false → Never is_called r.1)
unfolding run
run-forward c [] r e = (ground (arith, later_refl c.state), λ h. ground arith)
run-forward c (op ∷ ops) r e =
    let (q, first, s, rest, split) = run_cons c op ops r e in
    let now = step-Fact c op q first in
    let then_ = run-forward q.0 ops s rest in
    rw split (
      later_trans c.state q.0.state s.0.state now.0 then_.0,
      λ h.
          Never-append is_called q.1 s.1 (now.1 h)
            (then_.1 (not_connecting_later c.state q.0.state now.0 h)),
    )

abbrev pub NoneResumed : List Op → Type 0
NoneResumed [] = Unit {0}
NoneResumed (op ∷ ops) = (is_resumed op ≡ false) × NoneResumed ops

closing-Never :
    (c : Connection) (ops : List Op) (r : Connection × List Effect)
    → is_connecting c.state ≡ false
    → is_connected c.state ≡ false
    → NoneResumed ops
    → run c ops ≡ ok r
    → Never is_shut r.1
unfolding run
closing-Never c [] r h k n e = ground arith
closing-Never c (op ∷ ops) r h k n e =
    let (q, first, s, rest, split) = run_cons c op ops r e in
    let now = step-Fact c op q first in
    rw split (
      Never-append is_shut q.1 s.1 (now.2 h k n.0) (
        closing-Never q.0 ops s (not_connecting_later c.state q.0.state now.0 h)
          (not_connected_later c.state q.0.state now.0 h k) n.1 rest))

-- `shutdown` from the loop's thread while output waits shuts nothing, and neither does any later call
-- on the connection, such as the write that empties the output buffer: the peer never sees the end.
pub shutdown-lost :
    (c : Connection) (ops : List Op) (r : Connection × List Effect)
    → c.state ≡ connected
    → is_writing c.channel ≡ true
    → NoneResumed ops
    → run c (shuts true ∷ ops) ≡ ok r
    → Never is_shut r.1
unfolding step shutdown shutdown_in_loop
shutdown-lost c ops r up writing n e =
    let (q, first, s, rest, split) = run_cons c (shuts true) ops r e in
    rw split (
      Never-append is_shut q.1 s.1 (ground arith)
        (closing-Never q.0 ops s (ground arith) (ground arith) n rest))
