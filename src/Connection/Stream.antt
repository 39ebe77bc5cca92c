-- ===== src/Connection/Stream.antt =====
-- The byte stream of a connection: what was handed to `write` and what waits in the output buffer
-- are together the messages sent, in order.
use summer.Prelude.{
  ℕ, ◌+◌, ◌-◌, ◌≤◌, ◌<◌, ◌≡◌, refl, ap, ap₂, sym, ◌∙◌, ◌⊎◌, inl, inr, arith, true, Bool-cases, List,
  [], ◌∷◌, ◌++◌, append-nil, Returns, length, take, drop, take-append-drop, ltb, ◌==◌,
  if◌then◌else◌, subst, length-drop, ◌&&◌, ok, >>=-eq-ok,
}
use summer.Buffer.{int_max, content, append}
use summer.Buffer.Invariant.{IsValid, length-content, readable-eq}
use summer.Buffer.Contents.{retrieve_lem}
use summer.Buffer.Room.{Fits, append-Appended, append_total, append-aborted, append-invalid}
use native.Mathlib.Decide.{dec_lt}
use summer.Channel.{is_writing, enable_writing}
use summer.Connection.{
  Connection, Effect, wrote, queued_write_complete, queued_send, queued_shutdown, shut_write,
  called_message, called_connection, called_close, removed_channel, Write, took, write_failed,
  shutdown_in_loop, shutdown, writes_directly, direct_count, direct_effects, keep_rest,
  send_in_loop, drained, after_retrieve, handle_write,
}

-- The bytes that `write` took during a list of effects.
abbrev pub written : List Effect → List ℕ
written [] = []
written (wrote xs ∷ es) = xs ++ written es
written (queued_write_complete ∷ es) = written es
written (queued_send xs ∷ es) = written es
written (queued_shutdown ∷ es) = written es
written (shut_write ∷ es) = written es
written (called_message ∷ es) = written es
written (called_connection ∷ es) = written es
written (called_close ∷ es) = written es
written (removed_channel ∷ es) = written es

-- What has left the connection and what still waits in it.
abbrev pub stream : Connection → List Effect → List ℕ
stream c es = written es ++ content c.output

-- `write` takes no more than it is given.
abbrev pub Admissible : Write → ℕ → Type 0
Admissible (took n) len = n ≤ len
Admissible write_failed len = Unit {0}

-- The rest of a message has room in the output buffer.
abbrev pub HasRoom : Connection → ℕ → Type 0
HasRoom c n = (n ≡ 0) ⊎ (Fits c.output n × (length c.output.bytes + n < int_max))

content_nil : (xs : List ℕ) → length xs ≡ 0 → xs ≡ []
content_nil [] e = refl
content_nil (x ∷ xs) e = absurd (omega arith)

-- Nothing waits where `sendInLoop` writes directly.
direct-content :
    (c : Connection) → IsValid c.output → writes_directly c ≡ true → content c.output ≡ []
direct-content c v h =
    content_nil (content c.output)
      (ground (arith, length-content c.output v, readable-eq c.output v))

written-direct :
    (c : Connection) (message : List ℕ) (answer : Write)
    → Admissible answer (length message)
    → written (direct_effects c message answer) ≡ take (direct_count c answer) message
unfolding direct_effects direct_count
written-direct c message write_failed a = refl
written-direct c message (took n) a = ground (arith, append-nil (take n message))

direct_count-le :
    (c : Connection) (answer : Write) (len : ℕ)
    → Admissible answer len
    → direct_count c answer ≤ len
unfolding direct_count
direct_count-le c write_failed len a = omega arith
direct_count-le c (took n) len a = ground arith

-- Something is written directly only where nothing waits.
direct_count_cases :
    (c : Connection) (answer : Write)
    → IsValid c.output
    → (direct_count c answer ≡ 0) ⊎ (content c.output ≡ [])
unfolding direct_count
direct_count_cases c write_failed v = inl refl
direct_count_cases c (took n) v = elim (Bool-cases (writes_directly c)) [
  | inl direct ↦ inr (direct-content c v direct)
  | inr kept ↦ inl (rw kept)
]

-- What `keep_rest` leaves behind.
abbrev pub Keeps : Connection → List ℕ → Connection → Type 0
Keeps c rest c' =
    IsValid c'.output
    × (content c'.output ≡ content c.output ++ rest)
    × (c'.state ≡ c.state)
    × (is_writing c'.channel ≡ (if length rest == 0 then is_writing c.channel else true))

pub keep_rest-Keeps :
    (c : Connection) (message : List ℕ) (n : ℕ)
    → IsValid c.output
    → n ≤ length message
    → HasRoom c (length message - n)
    → Returns (Keeps c (drop n message)) (keep_rest c message n)
unfolding keep_rest enable_writing
keep_rest-Keeps c message n v h room = elim (dec_lt n (length message)) [
  | yes more ↦ kept_some more (room_of room more)
  | no all ↦ (c, ground arith, (v, none_left all, refl, ground (arith, length-drop n message)))
]
  where
    room_of :
        HasRoom c (length message - n)
        → n < length message
        → Fits c.output (length (drop n message))
          × (length c.output.bytes + length (drop n message) < int_max)
    room_of (inl e) more = absurd (omega arith)
    room_of (inr r) more =
        subst (λ k. Fits c.output k × (length c.output.bytes + k < int_max))
          (sym (length-drop n message)) r

    none_left : ¬ (n < length message) → content c.output ≡ content c.output ++ drop n message
    none_left all = sym (
        ap (◌++◌ (content c.output))
          (content_nil (drop n message) (omega (arith, length-drop n message)))
        ∙ append-nil (content c.output))

    kept_some :
        n < length message
        → Fits c.output (length (drop n message))
          × (length c.output.bytes + length (drop n message) < int_max)
        → Returns (Keeps c (drop n message)) (keep_rest c message n)
    kept_some more (fits, small) =
        let (out, run, a) = append-Appended c.output (drop n message) v small fits in
        (
          record c {
            output = out;
            channel = if is_writing c.channel then c.channel else enable_writing c.channel;
          },
          ground (arith, run),
          (a.0, a.1, refl, ground (arith, length-drop n message)),
        )

-- A rest that was kept had room.
pub keep_rest-HasRoom :
    (c : Connection) (message : List ℕ) (n : ℕ) (c' : Connection)
    → IsValid c.output
    → length c.output.bytes + length message < int_max
    → keep_rest c message n ≡ ok c'
    → HasRoom c (length message - n)
unfolding keep_rest
keep_rest-HasRoom c message n c' v small e = elim (dec_lt n (length message)) [
  | no all ↦ inl (omega arith)
  | yes more ↦
      let rest = drop n message in
      let short : length rest ≡ length message - n = length-drop n message in
      let fits : length c.output.bytes + length rest < int_max = omega arith in
      let on : ltb n (length message) ≡ true = ground arith in
      let (out, run, f) = >>=-eq-ok (append c.output rest) _ (rw on at e) in
      inr (
        subst (Fits c.output) short (elim (append_total c.output (length rest) v) [
          | inl h ↦ h
          | inr (inl h) ↦ absurd (cc (run, append-aborted c.output rest v fits h))
          | inr (inr h) ↦ absurd (cc (run, append-invalid c.output rest v fits h))
        ]),
        omega arith,
      )
]

joined :
    (xs message : List ℕ) (k : ℕ)
    → (k ≡ 0) ⊎ (xs ≡ [])
    → take k message ++ (xs ++ drop k message) ≡ xs ++ message
joined xs message k (inl e) = rw e refl
joined xs message k (inr e) = rw e (take-append-drop k message)

-- `sendInLoop` writes and keeps exactly the message: what has left the connection and what waits in
-- it is what waited before with the message behind it. The connection watches for writing from then
-- on if it did before or if a part of the message had to be kept; nothing else of its state changes.
pub send_in_loop-stream :
    (c : Connection) (message : List ℕ) (answer : Write)
    → IsValid c.output
    → Admissible answer (length message)
    → HasRoom c (length message - direct_count c answer)
    → Returns
        (λ r.
          IsValid r.0.output
          × (stream r.0 r.1 ≡ content c.output ++ message)
          × (r.0.state ≡ c.state)
          × (is_writing r.0.channel ≡ (
              if length message - direct_count c answer == 0 then is_writing c.channel else true)))
        (send_in_loop c message answer)
unfolding send_in_loop
send_in_loop-stream c message answer v a room =
    let k = direct_count c answer in
    let (c', run, kept) =
      keep_rest-Keeps c message k v (direct_count-le c answer (length message) a) room in
    (
      (c', direct_effects c message answer),
      rw run refl,
      (
        kept.0,
        ap₂ ◌++◌ (written-direct c message answer a) kept.1
            ∙ joined (content c.output) message k (direct_count_cases c answer v),
        kept.2,
        kept.3 ∙ ap (λ n. if n == 0 then is_writing c.channel else true) (length-drop k message),
      ),
    )

-- What `drained` does writes nothing and keeps the output buffer.
drained_lem : (c : Connection) → (written (drained c).1 ≡ []) × ((drained c).0.output ≡ c.output)
unfolding drained shutdown shutdown_in_loop
drained_lem c = ground arith

after_retrieve_lem :
    (c : Connection) (xs : List ℕ)
    → (written (after_retrieve c (wrote xs)).1 ≡ xs)
      × ((after_retrieve c (wrote xs)).0.output ≡ c.output)
unfolding after_retrieve
after_retrieve_lem c xs = ground (arith, drained_lem c, append-nil xs)

-- `handleWrite` moves bytes from the output buffer to `write`, in order, and loses none.
pub handle_write-stream :
    (c : Connection) (answer : Write)
    → IsValid c.output
    → Admissible answer (length (content c.output))
    → Returns
        (λ r. IsValid r.0.output × (stream r.0 r.1 ≡ content c.output))
        (handle_write c answer)
unfolding handle_write
handle_write-stream c write_failed v a = ((c, []), refl, (v, refl))
handle_write-stream c (took n) v a = elim (Bool-cases (is_writing c.channel && ltb 0 n)) [
  | inl writes ↦
      let (out, run, kept) = retrieve_lem c.output n v a in
      let c' = record c { output = out } in
      let sent = take n (content c.output) in
      (
        after_retrieve c' (wrote sent),
        rw (writes, run) refl,
        (
          rw (after_retrieve_lem c' sent).1 kept.0,
          ap₂ ◌++◌ (after_retrieve_lem c' sent).0 (ap content (after_retrieve_lem c' sent).1)
              ∙ ap (◌++◌ sent) kept.1
              ∙ take-append-drop n (content c.output),
        ),
      )
  | inr idle ↦ ((c, []), rw idle refl, (v, refl))
]
