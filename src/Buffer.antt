-- ===== src/Buffer.antt =====
-- Buffer.h and Buffer.cpp: a byte buffer over one vector, with room in front of the readable bytes.
-- A `char*` into the vector is the index that it points to; a `size_t` wraps at 2 ^ 64.
pub mod Contents
pub mod Space
pub mod Ops
pub mod Socket
pub mod Crlf
pub mod Ints
pub mod Wire
pub mod Queue
pub mod View
use netframe.Base.{
  ℕ, ◌+◌, ◌-◌, ◌%◌, ◌^◌, List, ◌++◌, length, take, drop, slice, replicate, ltb, leb, ◌==◌,
  if◌then◌else◌, Result, ok, ◌>>=◌, ◌>>◌, guard, assert, out_of_bounds, length_error,
}

abbrev pub k_cheap_prepend : ℕ
k_cheap_prepend = 8

abbrev pub k_initial_size : ℕ
k_initial_size = 1024

-- The longest vector of `char`.
abbrev pub max_size : ℕ
max_size = 2 ^ 63 - 1

abbrev pub add_size : ℕ → ℕ → ℕ
add_size a b = (a + b) % 2 ^ 64

abbrev pub sub_size : ℕ → ℕ → ℕ
sub_size a b = (a + 2 ^ 64 - b) % 2 ^ 64

pub record Buffer : Type 0 where
  pub bytes : List ℕ
  pub reader_index : ℕ
  pub writer_index : ℕ

-- The constructor.
abbrev pub new : Buffer
new = record {
  bytes = replicate (k_cheap_prepend + k_initial_size) 0;
  reader_index = k_cheap_prepend;
  writer_index = k_cheap_prepend;
}

unfoldable pub swap : Buffer → Buffer → Buffer × Buffer
swap b rhs = (
  record { bytes = rhs.bytes; reader_index = rhs.reader_index; writer_index = rhs.writer_index },
  record { bytes = b.bytes; reader_index = b.reader_index; writer_index = b.writer_index },
)

abbrev pub readable_bytes : Buffer → ℕ
readable_bytes b = sub_size b.writer_index b.reader_index

abbrev pub writable_bytes : Buffer → ℕ
writable_bytes b = sub_size (length b.bytes) b.writer_index

abbrev pub prependable_bytes : Buffer → ℕ
prependable_bytes b = b.reader_index

abbrev pub peek : Buffer → ℕ
peek b = b.reader_index

abbrev pub begin_write : Buffer → ℕ
begin_write b = b.writer_index

-- `std::copy` or `memcpy` into the vector; outside of it there is no defined result.
unfoldable pub copy_to : List ℕ → ℕ → List ℕ → Result (List ℕ)
copy_to bytes at xs = do
  guard (leb (at + length xs) (length bytes)) out_of_bounds
  ok (take at bytes ++ (xs ++ drop (at + length xs) bytes))

-- The bytes from `at` on, read by `std::string`, `memcpy` or `std::copy`.
unfoldable pub copy_from : List ℕ → ℕ → ℕ → Result (List ℕ)
copy_from bytes at n = do guard (leb (at + n) (length bytes)) out_of_bounds; ok (slice at n bytes)

-- `vector::resize`, with zero bytes for new elements.
unfoldable pub resize : List ℕ → ℕ → Result (List ℕ)
resize bytes n = do
  guard (leb n max_size) length_error
  ok (take n bytes ++ replicate (n - length bytes) 0)

abbrev pub retrieve_all : Buffer → Buffer
retrieve_all b = record b { reader_index = k_cheap_prepend; writer_index = k_cheap_prepend }

unfoldable pub retrieve : Buffer → ℕ → Result Buffer
retrieve b len = do
  assert (leb len (readable_bytes b))
  ok (
      if ltb len (readable_bytes b)
      then record b { reader_index = add_size b.reader_index len }
      else retrieve_all b)

unfoldable pub retrieve_until : Buffer → ℕ → Result Buffer
retrieve_until b end = do
  assert (leb (peek b) end)
  assert (leb end (begin_write b))
  retrieve b (sub_size end (peek b))

unfoldable pub retrieve_as_string : Buffer → ℕ → Result (List ℕ × Buffer)
retrieve_as_string b len = do
  assert (leb len (readable_bytes b))
  result ← copy_from b.bytes (peek b) len
  b' ← retrieve b len
  ok (result, b')

unfoldable pub retrieve_all_as_string : Buffer → Result (List ℕ × Buffer)
retrieve_all_as_string b = retrieve_as_string b (readable_bytes b)

abbrev pub has_written : Buffer → ℕ → Buffer
has_written b len = record b { writer_index = add_size b.writer_index len }

unfoldable pub make_space : Buffer → ℕ → Result Buffer
make_space b len =
    if ltb (add_size (writable_bytes b) (prependable_bytes b)) (add_size len k_cheap_prepend)
    then (do grown ← resize b.bytes (add_size b.writer_index len); ok (record b { bytes = grown }))
    else (do
      assert (ltb k_cheap_prepend b.reader_index)
      let readable = readable_bytes b
      kept ← copy_from b.bytes b.reader_index readable
      moved ← copy_to b.bytes k_cheap_prepend kept
      let b' = record b {
        bytes = moved;
        reader_index = k_cheap_prepend;
        writer_index = add_size k_cheap_prepend readable;
      }
      assert (readable == readable_bytes b')
      ok b')

unfoldable pub ensure_writable_bytes : Buffer → ℕ → Result Buffer
ensure_writable_bytes b len = do
  b' ← (if ltb (writable_bytes b) len then make_space b len else ok b)
  assert (leb len (writable_bytes b'))
  ok b'

-- `append(const char*, size_t)`; the other two overloads pass their bytes on to it.
unfoldable pub append : Buffer → List ℕ → Result Buffer
append b chars = do
  b' ← ensure_writable_bytes b (length chars)
  bytes ← copy_to b'.bytes (begin_write b') chars
  ok (has_written (record b' { bytes = bytes }) (length chars))

unfoldable pub prepend : Buffer → List ℕ → Result Buffer
prepend b chars = do
  assert (leb (length chars) (prependable_bytes b))
  let reader = sub_size b.reader_index (length chars)
  bytes ← copy_to b.bytes reader chars
  ok (record b { bytes = bytes; reader_index = reader })

abbrev pub extrabuf_size : ℕ
extrabuf_size = 65536

-- What `readv` leaves: the error it sets, or the bytes that it took off the descriptor, the first
-- ones in the first vector.
pub data Readv : Type 0 where
  failed : ℕ → Readv
  got : List ℕ → Readv

-- The bytes beyond the first vector stand in `extrabuf`, and are appended. The result is the errno
-- saved for the caller, or the count.
unfoldable pub read_fd : Buffer → Readv → Result (Readv × Buffer)
read_fd b (failed errno) = ok (failed errno, b)
read_fd b (got chars) =
    let writable = writable_bytes b in
    if leb (length chars) writable
    then (do
      bytes ← copy_to b.bytes (begin_write b) chars
      ok (
        got chars,
        record b { bytes = bytes; writer_index = add_size b.writer_index (length chars) },
      ))
    else (do
      bytes ← copy_to b.bytes (begin_write b) (take writable chars)
      b' ← append (record b { bytes = bytes; writer_index = length bytes }) (drop writable chars)
      ok (got chars, b'))
