-- ===== src/Buffer/Invariant.antt =====
-- The invariant of Buffer: its indices are ordered and lie in the vector.
use summer.Prelude.{◌-◌, ◌≤◌, ◌<◌, ◌≡◌, arith, length, length-slice}
use summer.Buffer.{
  Buffer, int_max, cheap_prepend, init, readable_bytes, writeable_bytes, retrieve_all, content,
}

pub record IsValid (b : Buffer) : Type 0 where
  pub ordered : b.read_index ≤ b.write_index
  pub inside : b.write_index ≤ length b.bytes
  pub front : cheap_prepend ≤ length b.bytes
  pub small : length b.bytes < int_max

pub init-IsValid : IsValid init
unfolding init
init-IsValid = omega arith

pub readable-eq : (b : Buffer) → IsValid b → readable_bytes b ≡ b.write_index - b.read_index
readable-eq b v = omega arith

pub writeable-eq : (b : Buffer) → IsValid b → writeable_bytes b ≡ length b.bytes - b.write_index
writeable-eq b v = omega arith

pub length-content : (b : Buffer) → IsValid b → length (content b) ≡ b.write_index - b.read_index
length-content b v = length-slice b.read_index b.write_index b.bytes v.inside

pub retrieve_all-IsValid : (b : Buffer) → IsValid b → IsValid (retrieve_all b)
unfolding retrieve_all
retrieve_all-IsValid b v = omega arith
