-- ===== src/Merkle/Paths.antt =====
-- The proofs of a tree: digests of 32 bytes, and few of them.
use ota_common.Common.{
  ℕ, zero, suc, ◌/◌, ◌^◌, ◌≤◌, ◌<◌, arith, inl, inr, List, length, ltb, leb, Bool-cases,
}
use ota_common.Merkle.{Hash256, reduce_level, proof_loop, merkle_proof, idx_is_last_odd, sibling}
use ota_common.Merkle.Digests.{AreHashes, node-IsHash, reduce_level-AreHashes}
use ota_common.Merkle.Levels.{length-reduce_level}

proof_loop-AreHashes :
    (fuel : ℕ) (level : List Hash256) (idx : ℕ)
    → AreHashes level
    → AreHashes (proof_loop fuel level idx)
unfolding proof_loop
proof_loop-AreHashes zero level idx w = tt
proof_loop-AreHashes (suc fuel) level idx w =
    let above =
      proof_loop-AreHashes fuel (reduce_level level) (idx / 2) (reduce_level-AreHashes level w) in
    elim (Bool-cases (ltb 1 (length level))) [
      | inr last ↦ simp last tt
      | inl more ↦ elim (Bool-cases (idx_is_last_odd idx (length level))) [
        | inl odd ↦ simp (more, odd) above
        | inr paired ↦ simp (more, paired) (node-IsHash level (sibling idx) w, above)
      ]
    ]

proof_loop-short :
    (k fuel : ℕ) (level : List Hash256) (idx : ℕ)
    → length level ≤ 2 ^ k
    → length (proof_loop fuel level idx) ≤ k
unfolding proof_loop
proof_loop-short k zero level idx h = omega arith
proof_loop-short zero (suc fuel) level idx h = ground arith
proof_loop-short (suc k) (suc fuel) level idx h =
    let above =
      proof_loop-short k fuel (reduce_level level) (idx / 2)
        (omega (arith, length-reduce_level level)) in
    ground (arith, above)

-- A proof has 32-byte digests, at most 16 of them for fewer than 65536 leaves.
pub merkle_proof-AreHashes :
    (leaves : List Hash256) (index : ℕ) → AreHashes leaves → AreHashes (merkle_proof leaves index)
unfolding merkle_proof
merkle_proof-AreHashes leaves index w = elim (Bool-cases (leb (length leaves) index)) [
  | inl beyond ↦ simp beyond tt
  | inr within ↦ simp within (proof_loop-AreHashes (length leaves) leaves index w)
]

pub merkle_proof-short :
    (leaves : List Hash256) (index : ℕ)
    → length leaves < 65536
    → length (merkle_proof leaves index) ≤ 16
unfolding merkle_proof
merkle_proof-short leaves index small =
    ground (arith, proof_loop-short 16 (length leaves) leaves index (omega arith))
