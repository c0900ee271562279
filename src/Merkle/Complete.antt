-- ===== src/Merkle/Complete.antt =====
-- The proofs that the seeder makes are the ones that the receiver accepts.
use ota_common.Common.{
  ℕ, zero, suc, ◌+◌, ◌/◌, ◌≤◌, ◌<◌, ◌≡◌, refl, arith, true, false, List, [], ◌∷◌, length, ltb,
  Bool-cases, inl, inr, ltb→lt,
}
use ota_common.Merkle.{
  Hash256, reduce_level, node, level_loop, idx_is_last_odd, fold_sibling, memcmp_eq, hash_eq,
  proof_loop, verify_loop, merkle_root, merkle_proof, merkle_verify,
}
use ota_common.Merkle.Levels.{length-reduce_level, node-reduce_level}

memcmp_eq_refl : (n : ℕ) (p : List ℕ) → memcmp_eq n p p ≡ true
unfolding memcmp_eq
memcmp_eq_refl zero p = refl
memcmp_eq_refl (suc n) [] = refl
memcmp_eq_refl (suc n) (x ∷ p) = ground (arith, memcmp_eq_refl n p)

pub hash_eq_refl : (h : Hash256) → hash_eq h h ≡ true
unfolding hash_eq
hash_eq_refl h = memcmp_eq_refl 32 h.bytes

module _ (fuel : ℕ) (h : Hash256) (idx count : ℕ) (root : Hash256) where
  pub verify_loop_promoted :
      (proof : List Hash256)
      → 1 < count
      → idx_is_last_odd idx count ≡ true
      → verify_loop (suc fuel) h idx count proof root
        ≡ verify_loop fuel h (idx / 2) ((count + 1) / 2) proof root
  unfolding verify_loop
  verify_loop_promoted [] more odd = ground arith
  verify_loop_promoted (sib ∷ proof) more odd = ground arith

  pub verify_loop_folded :
      (sib : Hash256) (proof : List Hash256)
      → 1 < count
      → idx_is_last_odd idx count ≡ false
      → verify_loop (suc fuel) h idx count (sib ∷ proof) root
        ≡ verify_loop fuel (fold_sibling idx h sib) (idx / 2) ((count + 1) / 2) proof root
  unfolding verify_loop
  verify_loop_folded sib proof more paired = ground arith

  pub verify_loop_done : count ≤ 1 → verify_loop (suc fuel) h idx count [] root ≡ hash_eq h root
  unfolding verify_loop
  verify_loop_done last = ground arith

-- The three loops walk the levels together.
verify_loop-proof_loop :
    (fuel : ℕ) (level : List Hash256) (idx : ℕ)
    → idx < length level
    → length level ≤ fuel
    → verify_loop fuel
        (node level idx)
        idx
        (length level)
        (proof_loop fuel level idx)
        (node (level_loop fuel level) 0)
      ≡ true
unfolding proof_loop level_loop
verify_loop-proof_loop zero level idx h k = absurd (omega arith)
verify_loop-proof_loop (suc fuel) level idx h k = elim (Bool-cases (ltb 1 (length level))) [
  | inl more ↦
      let size = length-reduce_level level in
      let above =
        verify_loop-proof_loop fuel (reduce_level level) (idx / 2) (omega (arith, size))
          (omega (arith, size, ltb→lt _ _ more)) in
      let parent = rw (length-reduce_level level, node-reduce_level level idx h) at above in
      elim (Bool-cases (idx_is_last_odd idx (length level))) [
        | inl odd ↦
            rw (more, odd, verify_loop_promoted fuel _ _ _ _ _ (ltb→lt _ _ more) odd)
              (rw odd at parent)
        | inr paired ↦
            rw (more, paired, verify_loop_folded fuel _ _ _ _ _ _ (ltb→lt _ _ more) paired)
              (rw paired at parent)
      ]
  | inr last ↦
      let first : idx ≡ 0 = ground arith in
      rw (last, verify_loop_done fuel _ _ (length level) _ (ground arith), first)
        (hash_eq_refl (node level 0))
]

-- For every leaf, the proof that `merkle_proof` makes is accepted by `merkle_verify` against the
-- root that `merkle_root` computes of the same leaves.
pub merkle_verify-merkle_proof :
    (leaves : List Hash256) (index : ℕ)
    → index < length leaves
    → merkle_verify
        (node leaves index)
        index
        (length leaves)
        (merkle_proof leaves index)
        (merkle_root leaves)
      ≡ true
merkle_verify-merkle_proof [] index h = absurd (omega arith)
merkle_verify-merkle_proof (leaf ∷ rest) index h =
    unfold merkle_verify merkle_proof merkle_root in
    ground (arith, verify_loop-proof_loop (suc (length rest)) (leaf ∷ rest) index h (omega arith))
