-- ===== src/Merkle.antt =====
-- src/merkle.cpp and include/ota_common/merkle.h, over the SHA-256 of `Sha256`.
pub mod Levels
pub mod Complete
pub mod Digests
pub mod Octets
pub mod Collisions
pub mod Binding
pub mod Paths
pub mod Nodes
mod Tests
use ota_common.Common.{
  ℕ, zero, suc, ◌+◌, ◌-◌, ◌/◌, ◌%◌, Bool, true, false, ◌&&◌, List, [], ◌∷◌, length, get_or,
  replicate, ltb, leb, ◌==◌, if◌then◌else◌, ◌||◌,
}
use ota_common.Sha256.{hash, new, update, finish, sha256_len}

pub record Hash256 : Type 0 where
  pub bytes : List ℕ

-- `memcmp(p, q, n) == 0`.
pub memcmp_eq : ℕ → List ℕ → List ℕ → Bool
memcmp_eq zero p q = true
memcmp_eq (suc n) [] [] = true
memcmp_eq (suc n) [] (y ∷ q) = false
memcmp_eq (suc n) (x ∷ p) [] = false
memcmp_eq (suc n) (x ∷ p) (y ∷ q) = x == y && memcmp_eq n p q

-- `Hash256::operator==`.
pub hash_eq : Hash256 → Hash256 → Bool
unfolding memcmp_eq
hash_eq a b = memcmp_eq sha256_len a.bytes b.bytes

pub hash_leaf : List ℕ → Hash256
hash_leaf block = record { bytes = hash block }

pub hash_pair : Hash256 → Hash256 → Hash256
hash_pair left right = record { bytes = (finish (update (update new left.bytes) right.bytes)).1 }

-- One level up: neighbours are paired and an unpaired last node is promoted.
pub reduce_level : List Hash256 → List Hash256
reduce_level [] = []
reduce_level (a ∷ []) = a ∷ []
reduce_level (a ∷ b ∷ rest) = hash_pair a b ∷ reduce_level rest

abbrev pub zero_hash : Hash256
zero_hash = record { bytes = replicate 32 0 }

abbrev pub node : List Hash256 → ℕ → Hash256
node level i = get_or level i zero_hash

-- `while (level.size() > 1) level = reduce_level(level)`.
pub level_loop : ℕ → List Hash256 → List Hash256
level_loop zero level = level
level_loop (suc fuel) level =
    let rest = level_loop fuel (reduce_level level) in if ltb 1 (length level) then rest else level

pub merkle_root : List Hash256 → Hash256
merkle_root [] = zero_hash
merkle_root (leaf ∷ leaves) = node (level_loop (length (leaf ∷ leaves)) (leaf ∷ leaves)) 0

pub idx_is_last_odd : ℕ → ℕ → Bool
idx_is_last_odd idx count = idx == count - 1 && count % 2 == 1

-- `(idx % 2 == 0) ? idx + 1 : idx - 1`.
pub sibling : ℕ → ℕ
sibling idx = if idx % 2 == 0 then idx + 1 else idx - 1

-- The loop of `merkle_proof`, from a level with more than one node up.
pub proof_loop : ℕ → List Hash256 → ℕ → List Hash256
proof_loop zero level idx = []
proof_loop (suc fuel) level idx =
    let rest = proof_loop fuel (reduce_level level) (idx / 2) in
    if ltb 1 (length level)
    then (if idx_is_last_odd idx (length level) then rest else node level (sibling idx) ∷ rest)
    else []

pub merkle_proof : List Hash256 → ℕ → List Hash256
merkle_proof leaves index =
    if leb (length leaves) index then [] else proof_loop (length leaves) leaves index

-- `h = (idx % 2 == 0) ? hash_pair(h, sib) : hash_pair(sib, h)`.
pub fold_sibling : ℕ → Hash256 → Hash256 → Hash256
fold_sibling idx h sib = if idx % 2 == 0 then hash_pair h sib else hash_pair sib h

-- The loop of `merkle_verify`. The last list is the part of the proof from `p` on, so that
-- `p >= proof.size()` and `p == proof.size()` are tests for its end.
pub verify_loop : ℕ → Hash256 → ℕ → ℕ → List Hash256 → Hash256 → Bool
verify_loop zero h idx count proof root = false
verify_loop (suc fuel) h idx count [] root =
    let promoted = verify_loop fuel h (idx / 2) ((count + 1) / 2) [] root in
    if ltb 1 count then (if idx_is_last_odd idx count then promoted else false) else hash_eq h root
verify_loop (suc fuel) h idx count (sib ∷ proof) root =
    let promoted = verify_loop fuel h (idx / 2) ((count + 1) / 2) (sib ∷ proof) root in
    let folded = verify_loop fuel (fold_sibling idx h sib) (idx / 2) ((count + 1) / 2) proof root in
    if ltb 1 count then (if idx_is_last_odd idx count then promoted else folded) else false

pub merkle_verify : Hash256 → ℕ → ℕ → List Hash256 → Hash256 → Bool
merkle_verify leaf index leaf_count proof root =
    if leaf_count == 0 || leb leaf_count index
    then false
    else verify_loop leaf_count leaf index leaf_count proof root

pub merkle_verify_block : List ℕ → ℕ → ℕ → List Hash256 → Hash256 → Bool
merkle_verify_block block index leaf_count proof root =
    merkle_verify (hash_leaf block) index leaf_count proof root
