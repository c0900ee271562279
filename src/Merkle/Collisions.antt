-- ===== src/Merkle/Collisions.antt =====
-- What two runs of `merkle_verify_block` hash, and how they collide.
use ota_common.Common.{
  ℕ, zero, suc, ◌+◌, ◌/◌, ◌%◌, ◌<◌, ◌≡◌, ap, arith, ◌≢◌, ◌⊎◌, inl, inr, List, [], ◌∷◌, length,
  get_or, ltb, ◌==◌, Bool-cases, if◌then◌else◌, IsBytes,
}
use native.Mathlib.Decide.{ℕ_discrete}
use ota_common.Sha256.{hash}
use ota_common.Merkle.{
  Hash256, zero_hash, hash_leaf, hash_pair, idx_is_last_odd, fold_sibling, merkle_proof,
}
use ota_common.Merkle.Digests.{leaves_of}
use ota_common.Merkle.Octets.{IsDigest}

bytes_discrete : Discrete (List ℕ)
bytes_discrete = hlevel ℕ_discrete

Hash256-discrete : Discrete Hash256
Hash256-discrete = hlevel ℕ_discrete

-- Two nodes, in the order in which they are hashed.
abbrev pub Pair : Type 0
Pair = Hash256 × Hash256

abbrev pub fold_pair : ℕ → Hash256 → Hash256 → Pair
fold_pair idx h sib = if idx % 2 == 0 then (h, sib) else (sib, h)

-- The pairs that `verify_loop` hashes, level by level.
unfoldable pub hashed_loop : ℕ → Hash256 → ℕ → ℕ → List Hash256 → List Pair
hashed_loop zero h idx count proof = []
hashed_loop (suc fuel) h idx count [] =
    let promoted = hashed_loop fuel h (idx / 2) ((count + 1) / 2) [] in
    if ltb 1 count then (if idx_is_last_odd idx count then promoted else []) else []
hashed_loop (suc fuel) h idx count (sib ∷ proof) =
    let promoted = hashed_loop fuel h (idx / 2) ((count + 1) / 2) (sib ∷ proof) in
    let above = hashed_loop fuel (fold_sibling idx h sib) (idx / 2) ((count + 1) / 2) proof in
    if ltb 1 count
    then (if idx_is_last_odd idx count then promoted else fold_pair idx h sib ∷ above)
    else []

abbrev pub pair_at : List Pair → ℕ → Pair
pair_at pairs i = get_or pairs i (zero_hash, zero_hash)

abbrev pub ArePaired : Pair → Type 0
ArePaired p = IsDigest p.0 × IsDigest p.1

fold_pair-ArePaired :
    (i : ℕ) (h s : Hash256) → IsDigest h → IsDigest s → ArePaired (fold_pair i h s)
fold_pair-ArePaired i h s w v = elim (Bool-cases (i % 2 == 0)) [
  | inl even ↦ rw even (w, v)
  | inr odd ↦ rw odd (v, w)
]

-- Two runs of `verify_loop` hash different pairs of digests at one level, and to one digest.
pub record PairCollision (pairs pairs' : List Pair) : Type 0 where
  pub level : ℕ
  pub within : level < length pairs
  pub within' : level < length pairs'
  pub digests : ArePaired (pair_at pairs level)
  pub digests' : ArePaired (pair_at pairs' level)
  pub differ : pair_at pairs level ≢ pair_at pairs' level
  pub collide :
      hash_pair (pair_at pairs level).0 (pair_at pairs level).1
      ≡ hash_pair (pair_at pairs' level).0 (pair_at pairs' level).1

-- A collision of the levels above.
pub above-PairCollision :
    (p p' : Pair) (pairs pairs' : List Pair)
    → PairCollision pairs pairs'
    → PairCollision (p ∷ pairs) (p' ∷ pairs')
above-PairCollision p p' pairs pairs' c = record {
  level = suc c.level;
  within = omega (arith, c.within);
  within' = omega (arith, c.within');
  digests = c.digests;
  digests' = c.digests';
  differ = c.differ;
  collide = c.collide;
}

-- Siblings folded to one node come from equal nodes, or collide.
pub fold_sibling-injective :
    (i : ℕ) (h s h' s' : Hash256) (pairs pairs' : List Pair)
    → IsDigest h
    → IsDigest s
    → IsDigest h'
    → IsDigest s'
    → fold_sibling i h s ≡ fold_sibling i h' s'
    → (h ≡ h') ⊎ PairCollision (fold_pair i h s ∷ pairs) (fold_pair i h' s' ∷ pairs')
unfolding fold_sibling
fold_sibling-injective i h s h' s' pairs pairs' w v w' v' e = elim (Hash256-discrete h h') [
  | yes same ↦ inl same
  | no differs ↦ elim (Bool-cases (i % 2 == 0)) [
    | inl even ↦ inr (record {
      level = 0;
      within = omega arith;
      within' = omega arith;
      digests = fold_pair-ArePaired i h s w v;
      digests' = fold_pair-ArePaired i h' s' w' v';
      differ = λ both. differs (ap (λ (p : Pair). p.0) (rw even at both));
      collide = rw even (rw even at e);
    })
    | inr odd ↦ inr (record {
      level = 0;
      within = omega arith;
      within' = omega arith;
      digests = fold_pair-ArePaired i h s w v;
      digests' = fold_pair-ArePaired i h' s' w' v';
      differ = λ both. differs (ap (λ (p : Pair). p.1) (rw odd at both));
      collide = rw odd (rw odd at e);
    })
  ]
]

-- The two blocks, of bytes, are different and have one digest.
pub record BlockCollision (one other : List ℕ) : Type 0 where
  pub one_bytes : IsBytes one
  pub other_bytes : IsBytes other
  pub differ : one ≢ other
  pub collide : hash one ≡ hash other

pub hash_leaf-injective :
    (b b' : List ℕ)
    → IsBytes b
    → IsBytes b'
    → hash_leaf b ≡ hash_leaf b'
    → (b ≡ b') ⊎ BlockCollision b b'
unfolding hash_leaf
hash_leaf-injective b b' w w' e = elim (bytes_discrete b b') [
  | yes same ↦ inl same
  | no differs ↦ inr (record {
    one_bytes = w;
    other_bytes = w';
    differ = differs;
    collide = ap (λ (h : Hash256). h.bytes) e;
  })
]

-- The pairs hashed on the way from a block to the root.
abbrev pub hashed_path : List ℕ → ℕ → ℕ → List Hash256 → List Pair
hashed_path block index count proof = hashed_loop count (hash_leaf block) index count proof

-- The block collides with the published one of the index: the two have one digest, or the ways to the
-- root, by this proof and by the published proof, hash different pairs to one digest at one level.
abbrev pub Collides : List (List ℕ) → ℕ → List ℕ → List Hash256 → Type 0
Collides blocks index block proof =
    BlockCollision block (get_or blocks index [])
    ⊎ PairCollision (hashed_path block index (length blocks) proof) (
        hashed_path (get_or blocks index []) index (length blocks)
          (merkle_proof (leaves_of blocks) index))
