-- ===== src/Tests/Bytes.antt =====
-- Buffer.h, Buffer.cpp and InetAddress.cpp on small vectors.
use netframe.Base.{
  ℕ, Option, zero, suc, ◌+◌, ◌*◌, ◌/◌, ◌%◌, ◌^◌, ◌<◌, ◌≡◌, refl, ap₂, ◌⊎◌, List, [], ◌∷◌, none,
  some, ok, arith,
}
use mathlib.Core.Quot
use netframe.Buffer.{Buffer, got, read_fd}
use netframe.Buffer.Contents.{IsValid, contents}
use netframe.Buffer.Ops.{Holds}
use netframe.Buffer.Socket.{read_fd_lem}
use netframe.Buffer.Crlf.{find_crlf, CrlfAt, find_crlf_lem}
use netframe.Buffer.Ints.{Machine, be16, be32}
use netframe.Buffer.Wire.{
  Field, field, w8, w16, w32, append_fields, read_fields, read_fields-append_fields,
}
use netframe.Buffer.Queue.{Op, put, skip, get, get_all, run, queue_run, run-queue_run}
use netframe.SocketOps.{Inet}
use netframe.InetAddress.{of_ip_port, text, text_with_port}
use netframe.InetAddress.Text.{Laws, text-of_ip_port}

-- Four bytes behind the header, none of them in use.
abbrev fresh : Buffer
fresh = record {
  bytes = 0 ∷ 0 ∷ 0 ∷ 0 ∷ 0 ∷ 0 ∷ 0 ∷ 0 ∷ 0 ∷ 0 ∷ 0 ∷ 0 ∷ [];
  reader_index = 8;
  writer_index = 8;
}

-- "\r\n!" is left of a longer text.
abbrev line : Buffer
line = record {
  bytes = 0 ∷ 0 ∷ 0 ∷ 0 ∷ 0 ∷ 0 ∷ 0 ∷ 0 ∷ 65 ∷ 13 ∷ 10 ∷ 33 ∷ [];
  reader_index = 9;
  writer_index = 12;
}

fresh-IsValid : IsValid fresh
fresh-IsValid = omega arith

line-IsValid : IsValid line
line-IsValid = omega arith

abbrev five : List ℕ
five = 1 ∷ 2 ∷ 3 ∷ 4 ∷ 5 ∷ []

read_fd_lem_example : (c : Buffer) × (read_fd fresh (got five) ≡ ok (got five, c)) × Holds five c
read_fd_lem_example = read_fd_lem fresh five fresh-IsValid (omega arith) (omega arith)

-- "\r\n!" is left; two bytes come in, and four go out.
abbrev few : List Op
few = put (1 ∷ 2 ∷ []) ∷ get 4 ∷ []

find_crlf_lem_example :
    ((find_crlf line ≡ none) × ((j : ℕ) → ¬ CrlfAt (contents line) j))
    ⊎ ((n : ℕ) × (find_crlf line ≡ some (9 + n))
        × CrlfAt (contents line) n
        × ((j : ℕ) → j < n → ¬ CrlfAt (contents line) j))
find_crlf_lem_example = find_crlf_lem line line-IsValid

abbrev byte : List ℕ → ℕ → ℕ
byte [] i = 0
byte (x ∷ xs) zero = x
byte (x ∷ xs) (suc i) = byte xs i

abbrev swap16 : ℕ → ℕ
swap16 x = x / 2 ^ 8 + 2 ^ 8 * (x % 2 ^ 8)

abbrev swap32 : ℕ → ℕ
swap32 x =
    x / 2 ^ 24 + 2 ^ 8 * (x / 2 ^ 16 % 2 ^ 8) + 2 ^ 16 * (x / 2 ^ 8 % 2 ^ 8) + 2 ^ 24 * (x % 2 ^ 8)

abbrev low16 : ℕ → List ℕ
low16 x = (x % 2 ^ 8) ∷ (x / 2 ^ 8) ∷ []

abbrev low32 : ℕ → List ℕ
low32 x = (x % 2 ^ 8) ∷ (x / 2 ^ 8 % 2 ^ 8) ∷ (x / 2 ^ 16 % 2 ^ 8) ∷ (x / 2 ^ 24) ∷ []

abbrev sum16 : List ℕ → ℕ
sum16 xs = byte xs 0 + 2 ^ 8 * byte xs 1

abbrev sum32 : List ℕ → ℕ
sum32 xs = byte xs 0 + 2 ^ 8 * byte xs 1 + 2 ^ 16 * byte xs 2 + 2 ^ 24 * byte xs 3

wire16_lem : (x : ℕ) → x < 2 ^ 16 → low16 (swap16 x) ≡ be16 x
wire16_lem x h = ap₂ (λ a b. a ∷ b ∷ []) (omega arith) (omega arith)

wire32_lem : (x : ℕ) → x < 2 ^ 32 → low32 (swap32 x) ≡ be32 x
wire32_lem x h = ground arith

unwire16_lem : (x : ℕ) → x < 2 ^ 16 → swap16 (sum16 (be16 x)) ≡ x
unwire16_lem x h = omega arith

unwire32_lem : (x : ℕ) → x < 2 ^ 32 → swap32 (sum32 (be32 x)) ≡ x
unwire32_lem x h = omega arith

-- A little-endian machine: the conversions reverse the bytes.
abbrev little : Machine
little = record {
  store16 = low16;
  store32 = low32;
  load16 = sum16;
  load32 = sum32;
  htobe16 = swap16;
  htobe32 = swap32;
  be16toh = swap16;
  be32toh = swap32;
  wire16 = wire16_lem;
  wire32 = wire32_lem;
  unwire16 = unwire16_lem;
  unwire32 = unwire32_lem;
}

abbrev fields : List Field
fields = field w16 0x1234 ∷ field w8 7 ∷ field w32 0xdead_beef ∷ []

read_fields-append_fields_example :
    (c d : Buffer) × (append_fields little fresh fields ≡ ok c)
    × (read_fields little c (w16 ∷ w8 ∷ w32 ∷ []) ≡ ok (fields, d))
    × (contents d ≡ [])
read_fields-append_fields_example =
    read_fields-append_fields little fresh fields fresh-IsValid refl (omega arith) (omega arith)

-- "\r\n!" and five more bytes go in and out.
abbrev calls : List Op
calls = get 1 ∷ put five ∷ skip 2 ∷ get 2 ∷ get_all ∷ []

run-queue_run_example : (c : Buffer) × (run line calls ≡ ok (13 ∷ five, c)) × Holds [] c
unfolding queue_run
run-queue_run_example =
    run-queue_run line calls line-IsValid
      (omega arith, (tt, (omega arith, (omega arith, (tt, tt))))) (omega arith)

-- An address is written as one letter.
abbrev inet : Inet
inet = record { ntop = λ a. a ∷ []; pton = λ l. first l; print = λ p. p ∷ [] }
  where
    first : List ℕ → Option ℕ
    first [] = none
    first (x ∷ xs) = some x

inet-Laws : Laws little inet
inet-Laws = record {
  reads = λ a h. refl;
  short = λ a. omega arith;
  digits = λ p h. omega arith;
  loads = λ v. omega arith;
}

text-of_ip_port_example :
    (text inet (of_ip_port little inet (7 ∷ []) 80) ≡ ok (7 ∷ []))
    × (text_with_port little inet (of_ip_port little inet (7 ∷ []) 80) ≡ 7 ∷ 58 ∷ 80 ∷ [])
text-of_ip_port_example = text-of_ip_port little inet inet-Laws 7 80 (omega arith) (omega arith)
