-- ===== src/Buffer/Ints.antt =====
-- Buffer.h: integers in network byte order. A value is its bit pattern, below 2 ^ 8, 2 ^ 16 or
-- 2 ^ 32. The byte order of the machine, and with it `htobe32` and the others, is a parameter.
use netframe.Base.{ℕ, ◌/◌, ◌%◌, ◌^◌, ◌<◌, ◌≡◌, List, [], ◌∷◌, leb, Result, ok, ◌>>=◌, ◌>>◌, assert}
use netframe.Buffer.{Buffer, readable_bytes, peek, copy_from, retrieve, append, prepend}

-- Big-endian bytes.
abbrev pub be16 : ℕ → List ℕ
be16 x = (x / 2 ^ 8) ∷ (x % 2 ^ 8) ∷ []

abbrev pub be32 : ℕ → List ℕ
be32 x = (x / 2 ^ 24) ∷ (x / 2 ^ 16 % 2 ^ 8) ∷ (x / 2 ^ 8 % 2 ^ 8) ∷ (x % 2 ^ 8) ∷ []

-- How the machine lays an integer out in memory, and the conversions of endian.h: a converted
-- integer lies in memory in big-endian order, and converting back undoes it.
pub record Machine : Type 0 where
  pub store16 : ℕ → List ℕ
  pub store32 : ℕ → List ℕ
  pub load16 : List ℕ → ℕ
  pub load32 : List ℕ → ℕ
  pub htobe16 : ℕ → ℕ
  pub htobe32 : ℕ → ℕ
  pub be16toh : ℕ → ℕ
  pub be32toh : ℕ → ℕ
  pub wire16 : (x : ℕ) → x < 2 ^ 16 → store16 (htobe16 x) ≡ be16 x
  pub wire32 : (x : ℕ) → x < 2 ^ 32 → store32 (htobe32 x) ≡ be32 x
  pub unwire16 : (x : ℕ) → x < 2 ^ 16 → be16toh (load16 (be16 x)) ≡ x
  pub unwire32 : (x : ℕ) → x < 2 ^ 32 → be32toh (load32 (be32 x)) ≡ x

abbrev pub retrieve_int32 : Buffer → Result Buffer
retrieve_int32 b = retrieve b 4

abbrev pub retrieve_int16 : Buffer → Result Buffer
retrieve_int16 b = retrieve b 2

abbrev pub retrieve_int8 : Buffer → Result Buffer
retrieve_int8 b = retrieve b 1

module _ (m : Machine) where
  -- The inline functions of SocketOps.h.
  unfoldable pub host_to_network32 : ℕ → ℕ
  host_to_network32 x = m.htobe32 x

  unfoldable pub host_to_network16 : ℕ → ℕ
  host_to_network16 x = m.htobe16 x

  unfoldable pub network_to_host32 : ℕ → ℕ
  network_to_host32 x = m.be32toh x

  unfoldable pub network_to_host16 : ℕ → ℕ
  network_to_host16 x = m.be16toh x

  unfoldable pub append_int32 : Buffer → ℕ → Result Buffer
  append_int32 b x = append b (m.store32 (host_to_network32 x))

  unfoldable pub append_int16 : Buffer → ℕ → Result Buffer
  append_int16 b x = append b (m.store16 (host_to_network16 x))

  unfoldable pub prepend_int32 : Buffer → ℕ → Result Buffer
  prepend_int32 b x = prepend b (m.store32 (host_to_network32 x))

  unfoldable pub prepend_int16 : Buffer → ℕ → Result Buffer
  prepend_int16 b x = prepend b (m.store16 (host_to_network16 x))

  unfoldable pub peek_int32 : Buffer → Result ℕ
  peek_int32 b = do
    assert (leb 4 (readable_bytes b))
    chars ← copy_from b.bytes (peek b) 4
    ok (network_to_host32 (m.load32 chars))

  unfoldable pub peek_int16 : Buffer → Result ℕ
  peek_int16 b = do
    assert (leb 2 (readable_bytes b))
    chars ← copy_from b.bytes (peek b) 2
    ok (network_to_host16 (m.load16 chars))

  unfoldable pub read_int32 : Buffer → Result (ℕ × Buffer)
  read_int32 b = do result ← peek_int32 b; b' ← retrieve_int32 b; ok (result, b')

  unfoldable pub read_int16 : Buffer → Result (ℕ × Buffer)
  read_int16 b = do result ← peek_int16 b; b' ← retrieve_int16 b; ok (result, b')

unfoldable pub append_int8 : Buffer → ℕ → Result Buffer
append_int8 b x = append b (x ∷ [])

unfoldable pub prepend_int8 : Buffer → ℕ → Result Buffer
prepend_int8 b x = prepend b (x ∷ [])

abbrev pub first_byte : List ℕ → ℕ
first_byte [] = 0
first_byte (x ∷ xs) = x

unfoldable pub peek_int8 : Buffer → Result ℕ
peek_int8 b = do
  assert (leb 1 (readable_bytes b))
  chars ← copy_from b.bytes (peek b) 1
  ok (first_byte chars)

unfoldable pub read_int8 : Buffer → Result (ℕ × Buffer)
read_int8 b = do result ← peek_int8 b; b' ← retrieve_int8 b; ok (result, b')
