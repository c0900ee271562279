-- ===== src/Merkle/Tests.antt =====
-- The tree over concrete leaves, of an odd number.
use ota_common.Common.{ℕ, ◌≡◌, refl, arith, true, List, [], ◌∷◌, ◌++◌, length, ◌⊎◌}
use ota_common.Merkle.{
  Hash256, reduce_level, level_loop, idx_is_last_odd, fold_sibling, merkle_root, merkle_proof,
  merkle_verify, merkle_verify_block, hash_pair, idx_is_last_odd, verify_loop, proof_loop,
}
use ota_common.Merkle.Levels.{length-level_loop}
use ota_common.Merkle.Complete.{hash_eq_refl, merkle_verify-merkle_proof}
use ota_common.Merkle.Collisions.{Collides}
use ota_common.Merkle.Binding.{merkle_verify_block_binds}
use ota_common.Merkle.Digests.{leaves_of}
use ota_common.Merkle.Octets.{merkle_proof-AreDigests}
use ota_common.Merkle.Nodes.{inner_node_accepted}
use ota_common.Samples.{blocks, digest}

abbrev short_block : List ℕ
short_block = 9 ∷ 10 ∷ []

abbrev leaves : List Hash256
leaves = digest 1 ∷ digest 2 ∷ digest 3 ∷ []

-- The last leaf of three is promoted past the first level: its proof has one hash.
promoted_path : length (merkle_proof leaves 2) ≡ 1
unfolding merkle_proof proof_loop reduce_level idx_is_last_odd
promoted_path = refl

merkle_verify-merkle_proof_example :
    merkle_verify (digest 3) 2 3 (merkle_proof leaves 2) (merkle_root leaves) ≡ true
merkle_verify-merkle_proof_example = merkle_verify-merkle_proof leaves 2 (omega arith)

length-level_loop_example : length (level_loop 3 leaves) ≡ 1
length-level_loop_example = length-level_loop 3 leaves (omega arith) (omega arith)

-- The proof of the second of two leaves is the first one.
second_accepted :
    merkle_verify (digest 2) 1 2 (digest 1 ∷ []) (hash_pair (digest 1) (digest 2)) ≡ true
unfolding merkle_verify verify_loop fold_sibling idx_is_last_odd
second_accepted = hash_eq_refl (hash_pair (digest 1) (digest 2))

third_accepted :
    merkle_verify_block short_block 2 3
      (merkle_proof (leaves_of blocks) 2)
      (merkle_root (leaves_of blocks))
    ≡ true
unfolding merkle_verify_block
third_accepted = merkle_verify-merkle_proof (leaves_of blocks) 2 (omega arith)

merkle_verify_block_binds_example :
    (short_block ≡ short_block) ⊎ Collides blocks 2 short_block (merkle_proof (leaves_of blocks) 2)
merkle_verify_block_binds_example =
    merkle_verify_block_binds blocks short_block 2 (merkle_proof (leaves_of blocks) 2) (omega arith)
      (omega arith) (merkle_proof-AreDigests blocks 2) (omega arith) third_accepted

inner_node_accepted_example :
    merkle_verify_block
      ((digest 1).bytes ++ (digest 2).bytes)
      0
      2
      (merkle_proof (reduce_level leaves) 0)
      (merkle_root leaves)
    ≡ true
inner_node_accepted_example = inner_node_accepted leaves 0 (omega arith)
