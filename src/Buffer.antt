-- ===== src/Buffer.antt =====
-- The byte buffer of net/Buffer.h and net/Buffer.cc. `std::vector<char>` is the list of its bytes,
-- `size_t` arithmetic wraps at 2 ^ 64, and a copy past the end of the vector is `invalid`.
pub mod Invariant
pub mod Contents
pub mod Room
pub mod Input
pub mod Search
mod Tests
use mathlib.Core.Option
use summer.Prelude.{
  ℕ, ◌+◌, ◌-◌, ◌%◌, ◌^◌, ◌&&◌, ◌==◌, ltb, leb, if◌then◌else◌, List, [], ◌∷◌, ◌++◌, Option, none,
  some, Outcome, ok, ◌>>=◌, ◌>>◌, assert, require, length, take, drop, replicate, slice, overwrite,
}

pub record Buffer : Type 0 where
  pub bytes : List ℕ
  pub read_index : ℕ
  pub write_index : ℕ

abbrev pub cheap_prepend : ℕ
cheap_prepend = 8

abbrev pub initial_size : ℕ
initial_size = 1024

abbrev pub size_mod : ℕ
size_mod = 2 ^ 64

abbrev pub int_max : ℕ
int_max = 2 ^ 31

-- Addition and subtraction of `size_t`.
abbrev pub add_size : ℕ → ℕ → ℕ
add_size a b = (a + b) % size_mod

abbrev pub sub_size : ℕ → ℕ → ℕ
sub_size a b = (a + size_mod - b) % size_mod

unfoldable pub init : Buffer
init = record {
  bytes = replicate (cheap_prepend + initial_size) 0;
  read_index = cheap_prepend;
  write_index = cheap_prepend;
}

pub swap : Buffer → Buffer → Buffer × Buffer
swap a b = (b, a)

abbrev pub readable_bytes : Buffer → ℕ
readable_bytes b = sub_size b.write_index b.read_index

abbrev pub writeable_bytes : Buffer → ℕ
writeable_bytes b = sub_size (length b.bytes) b.write_index

abbrev pub prependable_bytes : Buffer → ℕ
prependable_bytes b = b.read_index

-- `std::copy(src, src + n, begin() + at)`.
abbrev pub copy_to : List ℕ → ℕ → List ℕ → Outcome (List ℕ)
copy_to xs at src = do require (leb (at + length src) (length xs)); ok (overwrite xs at src)

-- `buffer_.resize(n)`.
pub resize : List ℕ → ℕ → List ℕ
resize xs n = take n xs ++ replicate (n - length xs) 0

-- The value kept by an `int` that is assigned `n`.
abbrev pub to_int : ℕ → Outcome ℕ
to_int n = do require (ltb n int_max); ok n

unfoldable pub retrieve : Buffer → ℕ → Outcome Buffer
retrieve b len = do
  assert (leb len (readable_bytes b))
  r ← to_int (b.read_index + len)
  ok (record b { read_index = r })

-- `retrieve(const char* end)`, the pointer as an index into `buffer_`.
pub retrieve_until : Buffer → ℕ → Outcome Buffer
retrieve_until b end = do
  assert (leb b.read_index end)
  assert (leb end b.write_index)
  ok (record b { read_index = b.read_index + (end - b.read_index) })

pub retrieve_all : Buffer → Buffer
retrieve_all b = record b { read_index = cheap_prepend; write_index = cheap_prepend }

pub retrieve_as_string : Buffer → List ℕ × Buffer
retrieve_as_string b = (
  slice b.read_index b.write_index b.bytes,
  record b { read_index = cheap_prepend; write_index = cheap_prepend },
)

-- The two branches of `makespace`.
pub grow : Buffer → ℕ → Buffer
grow b more = record b { bytes = resize b.bytes (add_size (writeable_bytes b) more) }

pub move_to_front : Buffer → Outcome Buffer
move_to_front b = do
  let used = readable_bytes b
  xs ← copy_to b.bytes cheap_prepend (slice b.read_index b.write_index b.bytes)
  w ← to_int (cheap_prepend + used)
  let moved = record b { bytes = xs; read_index = cheap_prepend; write_index = w }
  assert (used == readable_bytes moved)
  ok moved

pub make_space : Buffer → ℕ → Outcome Buffer
unfolding grow move_to_front
make_space b more =
    if ltb (add_size (writeable_bytes b) b.read_index) (add_size more cheap_prepend)
    then ok (grow b more)
    else move_to_front b

-- The second half of `append`: the assertion and the copy.
pub write_back : Buffer → List ℕ → Outcome Buffer
write_back b src = do
  assert (ltb (length src) (writeable_bytes b))
  xs ← copy_to b.bytes b.write_index src
  w ← to_int (b.write_index + length src)
  ok (record b { bytes = xs; write_index = w })

unfoldable pub append : Buffer → List ℕ → Outcome Buffer
unfolding make_space write_back
append b src = do
  b' ← if ltb (writeable_bytes b) (length src) then make_space b (length src) else ok b
  write_back b' src

pub prepend : Buffer → List ℕ → Outcome Buffer
prepend b src = do
  assert (ltb (length src) (prependable_bytes b))
  let r = b.read_index - length src
  xs ← copy_to b.bytes r src
  ok (record b { bytes = xs; read_index = r })

pub shrink : Buffer → ℕ → Outcome Buffer
shrink b reserve = do
  let used = readable_bytes b
  xs ←
      copy_to (replicate (add_size (add_size cheap_prepend used) reserve) 0) cheap_prepend
        (slice b.read_index b.write_index b.bytes)
  w ← to_int (cheap_prepend + used)
  ok (record b { bytes = xs; read_index = cheap_prepend; write_index = w })

-- The bytes that wait to be read, `[peek(), writeBegin())`.
abbrev pub content : Buffer → List ℕ
content b = slice b.read_index b.write_index b.bytes

-- `std::search` for kCRLF, as an offset; `none` is the end of the range.
unfoldable pub search_crlf : List ℕ → Option ℕ
search_crlf [] = none
search_crlf (x ∷ []) = none
search_crlf (x ∷ y ∷ r) =
    if x == 13 && y == 10 then some 0 else Option.map (λ k. 1 + k) (search_crlf (y ∷ r))

-- The pointers are indices into `buffer_`, and `none` is NULL.
pub find_crlf : Buffer → Option ℕ
find_crlf b = Option.map (λ k. b.read_index + k) (search_crlf (content b))

pub find_crlf_from : Buffer → ℕ → Outcome (Option ℕ)
find_crlf_from b start = do
  assert (leb b.read_index start)
  assert (leb start b.write_index)
  ok (Option.map (λ k. start + k) (search_crlf (slice start b.write_index b.bytes)))

-- What `readv` answers: an error number, or the bytes that it has put into the two areas.
pub data Readv : Type 0 where
  failed : ℕ → Readv
  received : List ℕ → Readv

abbrev pub extra_size : ℕ
extra_size = 65536

-- `readFd`; the value that it returns, and `*savedErrno`, are those of `readv`.
unfoldable pub read_fd : Buffer → Readv → Outcome Buffer
unfolding append
read_fd b (failed errno) = ok b
read_fd b (received src) =
    let writeable = writeable_bytes b in
    if leb (length src) writeable
    then (do
      xs ← copy_to b.bytes b.write_index src
      w ← to_int (b.write_index + length src)
      ok (record b { bytes = xs; write_index = w }))
    else (do
      xs ← copy_to b.bytes b.write_index (take writeable src)
      w ← to_int (length xs)
      append (record b { bytes = xs; write_index = w }) (drop writeable src))
