-- ===== src/Sha256.antt =====
-- src/sha256.cpp and include/ota_common/sha256.h. A word is a native number below 2 ^ 32 and an
-- array the list of its elements. The 64 bytes of `buf_`, which the constructor leaves unset, start
-- as zeros.
pub mod Spec
pub mod Stream
pub mod Refine
pub mod Digest
mod Tests
use ota_common.Common.{
  ℕ, zero, suc, ◌+◌, ◌-◌, ◌*◌, ◌/◌, ◌%◌, ◌^◌, bit_and, bit_or, bit_xor, u8, u32, u64, List, [], ◌∷◌,
  ◌++◌, length, get_or, take, drop, replicate, write_at, ltb, ◌==◌, if◌then◌else◌,
}

abbrev pub sha256_len : ℕ
sha256_len = 32

round_constants : List ℕ
round_constants =
    0x428a2f98 ∷ 0x71374491 ∷ 0xb5c0fbcf ∷ 0xe9b5dba5 ∷ 0x3956c25b ∷ 0x59f111f1 ∷ 0x923f82a4
    ∷ 0xab1c5ed5 ∷ 0xd807aa98 ∷ 0x12835b01 ∷ 0x243185be ∷ 0x550c7dc3 ∷ 0x72be5d74 ∷ 0x80deb1fe
    ∷ 0x9bdc06a7 ∷ 0xc19bf174 ∷ 0xe49b69c1 ∷ 0xefbe4786 ∷ 0x0fc19dc6 ∷ 0x240ca1cc ∷ 0x2de92c6f
    ∷ 0x4a7484aa ∷ 0x5cb0a9dc ∷ 0x76f988da ∷ 0x983e5152 ∷ 0xa831c66d ∷ 0xb00327c8 ∷ 0xbf597fc7
    ∷ 0xc6e00bf3 ∷ 0xd5a79147 ∷ 0x06ca6351 ∷ 0x14292967 ∷ 0x27b70a85 ∷ 0x2e1b2138 ∷ 0x4d2c6dfc
    ∷ 0x53380d13 ∷ 0x650a7354 ∷ 0x766a0abb ∷ 0x81c2c92e ∷ 0x92722c85 ∷ 0xa2bfe8a1 ∷ 0xa81a664b
    ∷ 0xc24b8b70 ∷ 0xc76c51a3 ∷ 0xd192e819 ∷ 0xd6990624 ∷ 0xf40e3585 ∷ 0x106aa070 ∷ 0x19a4c116
    ∷ 0x1e376c08 ∷ 0x2748774c ∷ 0x34b0bcb5 ∷ 0x391c0cb3 ∷ 0x4ed8aa4a ∷ 0x5b9cca4f ∷ 0x682e6ff3
    ∷ 0x748f82ee ∷ 0x78a5636f ∷ 0x84c87814 ∷ 0x8cc70208 ∷ 0x90befffa ∷ 0xa4506ceb ∷ 0xbef9a3f7
    ∷ 0xc67178f2 ∷ []

rotr : ℕ → ℕ → ℕ
rotr x n = bit_or (x / 2 ^ n) (u32 (x * 2 ^ (32 - n)))

-- `be32(p + off)`.
be32 : List ℕ → ℕ → ℕ
be32 p off =
    bit_or
      (bit_or (bit_or (u32 (get_or p off 0 * 2 ^ 24)) (u32 (get_or p (off + 1) 0 * 2 ^ 16)))
        (u32 (get_or p (off + 2) 0 * 2 ^ 8)))
      (get_or p (off + 3) 0)

pub record Sha256 : Type 0 where
  pub state : List ℕ
  pub bitlen : ℕ
  pub buf : List ℕ
  pub buflen : ℕ

pub initial_state : List ℕ
initial_state =
    0x6a09e667 ∷ 0xbb67ae85 ∷ 0x3c6ef372 ∷ 0xa54ff53a ∷ 0x510e527f ∷ 0x9b05688c ∷ 0x1f83d9ab
    ∷ 0x5be0cd19 ∷ []

pub reset : Sha256 → Sha256
unfolding initial_state
reset s = record s { state = initial_state; bitlen = 0; buflen = 0 }

-- The first loop of `process`: the words `i`, `i + 1`, … of the block.
load_words : ℕ → ℕ → List ℕ → List ℕ
unfolding be32
load_words zero i block = []
load_words (suc left) i block = be32 block (i * 4) ∷ load_words left (i + 1) block

-- The second loop of `process`, which fills `w[i]` for `i` from 16 on.
extend_words : ℕ → ℕ → List ℕ → List ℕ
unfolding rotr
extend_words zero i w = w
extend_words (suc left) i w =
    let w₁₅ = get_or w (i - 15) 0 in
    let w₂ = get_or w (i - 2) 0 in
    let s₀ = bit_xor (bit_xor (rotr w₁₅ 7) (rotr w₁₅ 18)) (w₁₅ / 2 ^ 3) in
    let s₁ = bit_xor (bit_xor (rotr w₂ 17) (rotr w₂ 19)) (w₂ / 2 ^ 10) in
    extend_words left (i + 1) (w ++ (u32 (get_or w (i - 16) 0 + s₀ + get_or w (i - 7) 0 + s₁) ∷ []))

-- The working variables of the rounds.
pub record Working : Type 0 where
  pub a : ℕ
  pub b : ℕ
  pub c : ℕ
  pub d : ℕ
  pub e : ℕ
  pub f : ℕ
  pub g : ℕ
  pub h : ℕ

round : ℕ → ℕ → Working → Working
unfolding rotr
round k w v =
    let s₁ = bit_xor (bit_xor (rotr v.e 6) (rotr v.e 11)) (rotr v.e 25) in
    let ch = bit_xor (bit_and v.e v.f) (bit_and (4294967295 - v.e) v.g) in
    let t₁ = u32 (v.h + s₁ + ch + k + w) in
    let s₀ = bit_xor (bit_xor (rotr v.a 2) (rotr v.a 13)) (rotr v.a 22) in
    let maj = bit_xor (bit_xor (bit_and v.a v.b) (bit_and v.a v.c)) (bit_and v.b v.c) in
    let t₂ = u32 (s₀ + maj) in
    record {
      a = u32 (t₁ + t₂);
      b = v.a;
      c = v.b;
      d = v.c;
      e = u32 (v.d + t₁);
      f = v.e;
      g = v.f;
      h = v.g;
    }

-- One round for each constant, with the word of the same index.
rounds : List ℕ → List ℕ → Working → Working
unfolding round
rounds [] ws v = v
rounds (k ∷ ks) [] v = v
rounds (k ∷ ks) (w ∷ ws) v = rounds ks ws (round k w v)

working_of : List ℕ → Working
working_of st = record {
  a = get_or st 0 0;
  b = get_or st 1 0;
  c = get_or st 2 0;
  d = get_or st 3 0;
  e = get_or st 4 0;
  f = get_or st 5 0;
  g = get_or st 6 0;
  h = get_or st 7 0;
}

-- `process` as a function of the chaining state and the block.
pub compress : List ℕ → List ℕ → List ℕ
unfolding load_words extend_words rounds working_of round_constants
compress st block =
    let v = rounds round_constants (extend_words 48 16 (load_words 16 0 block)) (working_of st) in
    u32 (get_or st 0 0 + v.a)
    ∷ u32 (get_or st 1 0 + v.b)
    ∷ u32 (get_or st 2 0 + v.c)
    ∷ u32 (get_or st 3 0 + v.d)
    ∷ u32 (get_or st 4 0 + v.e)
    ∷ u32 (get_or st 5 0 + v.f)
    ∷ u32 (get_or st 6 0 + v.g)
    ∷ u32 (get_or st 7 0 + v.h)
    ∷ []

pub process : Sha256 → List ℕ → Sha256
process s block = record s { state = compress s.state block }

-- The number of bytes that a round of the loop in `update` takes.
pub room : Sha256 → ℕ → ℕ
room s len = if ltb len (64 - s.buflen) then len else 64 - s.buflen

-- What the round does with them.
pub absorb : Sha256 → List ℕ → Sha256
unfolding process
absorb s part =
    let filled = record s { buf = write_at s.buf s.buflen part; buflen = s.buflen + length part } in
    if filled.buflen == 64 then record (process filled filled.buf) { buflen = 0 } else filled

-- The loop of `update`. A round takes a byte at least, so the length of the input is fuel enough.
pub update_loop : ℕ → Sha256 → List ℕ → Sha256
unfolding absorb room
update_loop zero s input = s
update_loop (suc fuel) s [] = s
update_loop (suc fuel) s (x ∷ input) =
    let n = room s (length (x ∷ input)) in
    update_loop fuel (absorb s (take n (x ∷ input))) (drop n (x ∷ input))

pub update : Sha256 → List ℕ → Sha256
unfolding update_loop
update s input =
    update_loop (length input) (record s { bitlen = u64 (s.bitlen + u64 (length input * 8)) }) input

-- `while (buflen_ != 56) update(&pad, 1)`. A turn of the buffer has 64 bytes.
pub pad_loop : ℕ → Sha256 → Sha256
unfolding update
pad_loop zero s = s
pad_loop (suc fuel) s =
    let rest = pad_loop fuel (update s (0 ∷ [])) in if s.buflen == 56 then s else rest

pub big_endian64 : ℕ → List ℕ
big_endian64 bits =
    u8 (bits / 2 ^ 56)
    ∷ u8 (bits / 2 ^ 48)
    ∷ u8 (bits / 2 ^ 40)
    ∷ u8 (bits / 2 ^ 32)
    ∷ u8 (bits / 2 ^ 24)
    ∷ u8 (bits / 2 ^ 16)
    ∷ u8 (bits / 2 ^ 8)
    ∷ u8 bits
    ∷ []

pub state_bytes : List ℕ → List ℕ
state_bytes [] = []
state_bytes (w ∷ ws) = u8 (w / 2 ^ 24) ∷ u8 (w / 2 ^ 16) ∷ u8 (w / 2 ^ 8) ∷ u8 w ∷ state_bytes ws

pub finish : Sha256 → Sha256 × List ℕ
finish s =
    let padded = pad_loop 64 (update s (0x80 ∷ [])) in
    let last = record padded { buf = write_at padded.buf 56 (big_endian64 s.bitlen) } in
    let final = process last last.buf in (final, state_bytes final.state)

pub new : Sha256
unfolding reset
new = reset (record { state = []; bitlen = 0; buf = replicate 64 0; buflen = 0 })

-- `Sha256::hash`.
pub hash : List ℕ → List ℕ
unfolding new process update pad_loop big_endian64 state_bytes finish
hash input = (finish (update new input)).1
