-- ===== src/Sha256/Spec.antt =====
-- The reference: the digest of the standard, as a fold of `compress` over the blocks of the padded
-- message; and the same byte by byte.
use ota_common.Common.{
  ℕ, zero, suc, ◌+◌, ◌-◌, ◌*◌, ◌/◌, ◌%◌, ◌<◌, ◌≡◌, refl, sym, ap, ◌∙◌, arith, true, false, List, [],
  ◌∷◌, ◌++◌, append_assoc, append-nil, length, take, drop, replicate, u64, ◌==◌, if◌then◌else◌,
  length-append, length-take, length-drop, length-replicate, take-append-drop,
}
use ota_common.Sha256.{compress, initial_state, big_endian64, state_bytes}

-- `n` blocks of 64 bytes.
pub compress_all : ℕ → List ℕ → List ℕ → List ℕ
compress_all zero st m = st
compress_all (suc n) st m = compress_all n (compress st (take 64 m)) (drop 64 m)

-- The message, the bit 1, the fewest zero bits that leave 64 bits of the last block, and the number
-- of its bits in these.
unfoldable pub padding : ℕ → List ℕ
padding len = 0x80 ∷ (replicate ((119 - len % 64) % 64) 0 ++ big_endian64 (u64 (len * 8)))

abbrev pub padded : List ℕ → List ℕ
padded m = m ++ padding (length m)

pub block_count : ℕ → ℕ
block_count len = (len + 72) / 64

-- The digest.
pub digest : List ℕ → List ℕ
digest m = state_bytes (compress_all (block_count (length m)) initial_state (padded m))

-- Hash value and pending bytes, which make up less than a block.
abbrev pub Mid : Type 0
Mid = List ℕ × List ℕ

pub step_byte : Mid → ℕ → Mid
step_byte (st, pending) x =
    if length pending == 63
    then (compress st (pending ++ (x ∷ [])), [])
    else (st, pending ++ (x ∷ []))

pub steps : Mid → List ℕ → Mid
steps m [] = m
steps m (x ∷ xs) = steps (step_byte m x) xs

pub steps-nil : (m : Mid) → steps m [] ≡ m
unfolding steps
steps-nil m = refl

pub steps-append : (m : Mid) (xs ys : List ℕ) → steps m (xs ++ ys) ≡ steps (steps m xs) ys
unfolding steps
steps-append m [] ys = refl
steps-append m (x ∷ xs) ys = steps-append (step_byte m x) xs ys

-- Bytes that do not fill the block.
pub steps-pending :
    (st pending xs : List ℕ)
    → length pending + length xs < 64
    → steps (st, pending) xs ≡ (st, pending ++ xs)
unfolding steps step_byte
steps-pending st pending [] h = ap (λ t. (st, t)) (sym (append-nil pending))
steps-pending st pending (x ∷ xs) h =
    let more : (length pending == 63) ≡ false = ground arith in
    let one = length-append pending (x ∷ []) in
    rw (step_byte, more)
      (steps-pending st (pending ++ (x ∷ [])) xs (omega (arith, one))
        ∙ ap (λ t. (st, t)) (append_assoc pending (x ∷ []) xs))

-- Bytes that fill it.
pub steps-full :
    (st pending xs : List ℕ)
    → 0 < length xs
    → length pending + length xs ≡ 64
    → steps (st, pending) xs ≡ (compress st (pending ++ xs), [])
unfolding steps step_byte
steps-full st pending [] some_bytes h = absurd (omega arith)
steps-full st pending (x ∷ []) some_bytes h =
    let last : (length pending == 63) ≡ true = ground arith in rw (step_byte, last)
steps-full st pending (x ∷ (y ∷ xs)) some_bytes h =
    let more : (length pending == 63) ≡ false = ground arith in
    let one = length-append pending (x ∷ []) in
    rw (step_byte, more)
      (steps-full st (pending ++ (x ∷ [])) (y ∷ xs) (omega arith) (omega (arith, one))
        ∙ ap (λ t. (compress st t, [])) (append_assoc pending (x ∷ []) (y ∷ xs)))

-- Whole blocks, byte by byte.
pub steps-compress_all :
    (n : ℕ) (st m : List ℕ) → length m ≡ n * 64 → steps (st, []) m ≡ (compress_all n st m, [])
unfolding compress_all
steps-compress_all zero st [] h = unfold steps in refl
steps-compress_all zero st (x ∷ m) h = absurd (omega arith)
steps-compress_all (suc n) st m h =
    ap (steps (st, [])) (sym (take-append-drop 64 m))
    ∙ (steps-append (st, []) (take 64 m) (drop 64 m)
        ∙ (ap (λ t. steps t (drop 64 m))
              (steps-full st [] (take 64 m) (omega (arith, length-take 64 m))
                (omega (arith, length-take 64 m)))
            ∙ steps-compress_all n (compress st (take 64 m)) (drop 64 m)
                (omega (arith, length-drop 64 m))))

pub length-big_endian64 : (bits : ℕ) → length (big_endian64 bits) ≡ 8
unfolding big_endian64
length-big_endian64 bits = refl

-- The padding completes the last block.
pub length-padded : (m : List ℕ) → length (padded m) ≡ block_count (length m) * 64
unfolding padding block_count
length-padded m =
    let zeros = (119 - length m % 64) % 64 in
    omega (
      arith,
      length-append m (padding (length m)),
      length-append (replicate zeros 0) (big_endian64 (u64 (length m * 8))),
      length-replicate {A = ℕ} zeros 0,
      length-big_endian64 (u64 (length m * 8)),
    )

length-step_byte :
    (m : Mid) (x : ℕ) → length m.1 < 64 → length (step_byte m x).1 ≡ (length m.1 + 1) % 64
unfolding step_byte
length-step_byte (st, pending) x h = ground (arith, length-append pending (x ∷ []))

pub length-steps :
    (m : Mid) (xs : List ℕ)
    → length m.1 < 64
    → length (steps m xs).1 ≡ (length m.1 + length xs) % 64
unfolding steps
length-steps m [] h = omega arith
length-steps m (x ∷ xs) h =
    let one = length-step_byte m x h in
    length-steps (step_byte m x) xs (omega (arith, one)) ∙ omega (arith, one)

-- The digest byte by byte.
pub digest-steps : (m : List ℕ) → digest m ≡ state_bytes (steps (initial_state, []) (padded m)).0
unfolding digest
digest-steps m =
    ap (λ (t : Mid). state_bytes t.0)
      (sym (steps-compress_all (block_count (length m)) initial_state (padded m) (length-padded m)))
