-- ===== src/Acceptor/Reads.antt =====
-- What a run of `handleRead` comes to.
use summer.Prelude.{
  ℕ, ◌<◌, ◌≡◌, refl, arith, Bool, true, false, if◌then◌else◌, List, [], ◌∷◌, none, some, Outcome,
  ok, aborted, ◌>>=◌, >>=-assoc, >>=-same, Bool-cases, inl, inr,
}
use summer.Sockets.{
  Sockaddr, Inet, Accepted, accepted, refused, Errno, accept, on_refused, eagain, econnaborted,
  eintr, eproto, eperm,
}
use summer.Acceptor.{socket_accept, on_accepted, handle_read, handle_reads}

-- The errors that tell of one connection only.
abbrev pub is_transient : Errno → Bool
is_transient eagain = true
is_transient econnaborted = true
is_transient eintr = true
is_transient eproto = true
is_transient eperm = true
is_transient _ = false

-- The connections that are accepted before the first other error, and whether there is none.
abbrev pub connections : List (Accepted × Bool) → List (ℕ × Sockaddr)
connections [] = []
connections ((accepted connfd peer, closed) ∷ answers) = (connfd, peer) ∷ connections answers
connections ((refused errno, closed) ∷ answers) =
    let rest = connections answers in if is_transient errno then rest else []

abbrev pub goes_on : List (Accepted × Bool) → Bool
goes_on [] = true
goes_on ((accepted connfd peer, closed) ∷ answers) = goes_on answers
goes_on ((refused errno, closed) ∷ answers) =
    let rest = goes_on answers in if is_transient errno then rest else false

-- Descriptor 0 is never one of a connection.
abbrev pub IsAbove : List (ℕ × Sockaddr) → Type 0
IsAbove [] = Unit {0}
IsAbove (c ∷ cs) = (0 < c.0) × IsAbove cs

abbrev pub hand_over {ℓ} :
    {A : Type ℓ} → (A → ℕ → Sockaddr → Outcome A) → A → List (ℕ × Sockaddr) → Outcome A
hand_over call s [] = ok s
hand_over call s (c ∷ cs) = do t ← call s c.0 c.1; hand_over call t cs

on_refused-transient :
    (errno : Errno) → on_refused errno ≡ (if is_transient errno then ok none else aborted)
unfolding on_refused
on_refused-transient errno = ground arith

module _ {ℓ} {A : Type ℓ} (net : Inet) (call : A → ℕ → Sockaddr → Outcome A) where
  handle_read-accepted :
      (s : A) (connfd : ℕ) (peer : Sockaddr) (closed : Bool)
      → 0 < connfd
      → handle_read net (some call) s (accepted connfd peer) closed ≡ call s connfd peer
  unfolding handle_read socket_accept accept on_accepted
  handle_read-accepted s connfd peer closed h = ground arith

  handle_read-refused :
      (s : A) (errno : Errno) (closed : Bool)
      → handle_read net (some call) s (refused errno) closed
        ≡ (if is_transient errno then ok s else aborted)
  unfolding handle_read socket_accept accept
  handle_read-refused s errno closed = ground (arith, on_refused-transient errno)

  -- Where no descriptor is 0, a run of `handleRead` hands over each connection that is accepted, once and in
  -- order, whatever errors of single connections come between; the first other error ends it, and aborts.
  pub handle_reads-hand_over :
      (s : A) (answers : List (Accepted × Bool))
      → IsAbove (connections answers)
      → handle_reads net (some call) s answers ≡ (
          hand_over call s (connections answers)
          >>= (λ t. if goes_on answers then ok t else aborted))
  unfolding handle_reads
  handle_reads-hand_over s [] h = refl
  handle_reads-hand_over s ((accepted connfd peer, closed) ∷ answers) (above, h) =
      rw
        (
          handle_read-accepted s connfd peer closed above,
          >>=-assoc (call s connfd peer) (λ t. hand_over call t (connections answers))
              (λ t. if goes_on answers then ok t else aborted),
        )
        (>>=-same (call s connfd peer) (λ t. handle_reads-hand_over t answers h))
  handle_reads-hand_over s ((refused errno, closed) ∷ answers) h =
      elim (Bool-cases (is_transient errno)) [
        | inl e ↦
            rw (handle_read-refused s errno closed, e)
              (handle_reads-hand_over s answers (ground (arith, h, e)))
        | inr e ↦ rw (handle_read-refused s errno closed, e) refl
      ]
