-- ===== src/Sockets/Machine.antt =====
-- Conversions as a machine has them that knows its own address only, for tests.
use summer.Prelude.{ℕ, ◌+◌, ◌*◌, ◌/◌, ◌%◌, arith, ◌==◌, if◌then◌else◌, [], ◌∷◌, none, some}
use summer.Decimal.{Text}
use summer.Codec.{same}
use summer.Hub.Topics.{same_iff}
use summer.Sockets.{Inet, IsDocumented}

abbrev pub localhost : Text
localhost = b'1' ∷ b'2' ∷ b'7' ∷ b'.' ∷ b'0' ∷ b'.' ∷ b'0' ∷ b'.' ∷ b'1' ∷ []

-- The bytes of 127.0.0.1 as a number of a little-endian machine.
abbrev pub loopback : ℕ
loopback = 16777343

abbrev swapped : ℕ → ℕ
swapped n = (n % 256) * 256 + n / 256

abbrev pub machine : Inet
machine = record {
  htons = swapped;
  ntohs = swapped;
  htonl = λ n. n;
  ntop = λ addr. if addr == loopback then some localhost else none;
  pton = λ host. if same host localhost then some loopback else none;
}

pub machine-IsDocumented : IsDocumented machine
machine-IsDocumented = record {
  ntohs-htons = λ port h. omega arith;
  ntohs-below = λ port h. omega arith;
  length-ntop = λ addr host e. ground (arith, e);
  pton-ntop = λ addr host e. ground (arith, e, same_iff host localhost);
}
