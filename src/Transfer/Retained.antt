-- ===== src/Transfer/Retained.antt =====
-- A round with a receiver that has kept blocks and proofs from before.
use ota_common.Common.{
  ℕ, ◌+◌, ◌<◌, ◌≡◌, refl, sym, ap, subst, ◌∙◌, arith, ◌⊎◌, inl, inr, true, false, Option, none,
  some, List, [], ◌++◌, length, get_or, ◌==◌, Bool-cases, Option-cases, IsBytes,
}
use ota_common.Wire.{index_manifest}
use ota_common.Package.{SignatureVerifier}
use ota_common.BlockStore.{BlockStore}
use ota_common.Merkle.{Hash256, merkle_root, merkle_proof, merkle_verify_block}
use ota_common.Merkle.Digests.{leaves_of}
use ota_common.Wire.Layout.{AreBytes}
use ota_common.Merkle.Octets.{merkle_proof-AreDigests}
use ota_common.Receiver.Octets.{HasOctets, OfBytes}
use ota_common.Merkle.Collisions.{Collides}
use ota_common.Merkle.Binding.{merkle_verify_block-merkle_proof, merkle_verify_block_binds}
use ota_common.Seeder
use ota_common.Seeder.{Seeder}
use ota_common.Seeder.Answer.{
  IsServing, serving_path, answer-frames, length-piece, on_frame-request, sending, still-IsServing,
}
use ota_common.Receiver.{Receiver, next_needed_block, on_frame}
use ota_common.Receiver.Units.{Wants}
use ota_common.Receiver.Frames.{asking}
use ota_common.Receiver.Delivered.{IsDelivered, answer-IsDelivered}
use ota_common.Receiver.Stale.{IsPrimed, answer-primed, answer-refuted, next_needed-same}
use ota_common.Transfer.{proof_frames, block_frames, take_all_frames}
use ota_common.Transfer.Rounds.{Stores, round, round-frames}
use ota_common.Transfer.Session.{
  Resumes, delivered-Resumes, needed_next, Resumes-Wants, asking-Resumes, poll-needed,
}

proof_verifies :
    (blocks : List (List ℕ)) (index count : ℕ) (leaves : List Hash256) (root : Hash256)
    → index < length blocks
    → count ≡ length blocks
    → leaves ≡ leaves_of blocks
    → root ≡ merkle_root (leaves_of blocks)
    → merkle_verify_block (get_or blocks index []) index count (merkle_proof leaves index) root
      ≡ true
proof_verifies blocks index count leaves root h e f g =
    rw (e, f, g) (merkle_verify_block-merkle_proof blocks index h)

stale_binds :
    (blocks : List (List ℕ)) (stale : List ℕ) (index count : ℕ) (leaves : List Hash256)
    (root : Hash256)
    → AreBytes blocks
    → IsBytes stale
    → index < length blocks
    → count ≡ length blocks
    → leaves ≡ leaves_of blocks
    → root ≡ merkle_root (leaves_of blocks)
    → merkle_verify_block stale index count (merkle_proof leaves index) root ≡ true
    → (stale ≡ get_or blocks index [])
      ⊎ Collides blocks index stale (merkle_proof (leaves_of blocks) index)
stale_binds blocks stale index count leaves root o w h e f g ok =
    merkle_verify_block_binds blocks stale index (merkle_proof (leaves_of blocks) index) o w
      (merkle_proof-AreDigests blocks index) h (rw (e, f, g) at ok)

-- The receiver keeps a block that collides with the published one of its index.
abbrev pub Stale : {S : Type 0} → List (List ℕ) → Receiver S → Type 0
Stale blocks r =
    (i : ℕ) × (stale : List ℕ) × (i < length blocks)
    × ((r.ready_blocks i ≡ some stale)
        × Collides blocks i stale (merkle_proof (leaves_of blocks) i))

module _ {S : Type 0} (ops : BlockStore S) (verifier : Option SignatureVerifier)
    (blocks : List (List ℕ)) (laws : Stores ops blocks) where
  open laws use {IsGood, put_good}

  -- The block that is asked for next is kept already, and only lacks its proof.
  pub record Primes (session k : ℕ) (r : Receiver S) : Type 0 where
    pub resumes : Resumes ops verifier blocks laws session k r
    pub held :
        r.ready_blocks (next_needed_block ops verifier r)
        ≡ some (get_or blocks (next_needed_block ops verifier r) [])

  module _ (s : Seeder) (r : Receiver S) (serves : IsServing blocks s) (k : ℕ)
      (w : Resumes ops verifier blocks laws s.session k r) (running : r.complete ≡ false) where
    abbrev pub index : ℕ
    index = next_needed_block ops verifier r

    abbrev pub input : List ℕ
    input = get_or blocks index []

    abbrev frames : List (List ℕ)
    frames =
        proof_frames s.session index (merkle_proof s.leaves index) s.frag
        ++ block_frames s.session index input s.frag

    -- The receiver has asked for the block.
    abbrev q : Receiver S
    q = asking index r

    after : Resumes ops verifier blocks laws s.session k q
    after = asking-Resumes ops verifier blocks laws s.session k index r w

    abbrev taken : Receiver S
    taken = take_all_frames (on_frame ops verifier) frames q

    inside : index < length blocks
    inside = (needed_next ops verifier blocks laws s.session k r w serves.count_fits running).0

    lacks : ops.has_block r.store index ≡ false
    lacks = (needed_next ops verifier blocks laws s.session k r w serves.count_fits running).1.0

    below : (j : ℕ) → j < index → ops.has_block r.store j ≡ true
    below = (needed_next ops verifier blocks laws s.session k r w serves.count_fits running).1.1

    wants : Wants ops verifier s.session index q
    wants = Resumes-Wants ops verifier blocks laws s.session k index q after running lacks

    round_runs : round ops verifier (s, r) ≡ (sending s frames, taken)
    round_runs =
        round-frames ops verifier s r index frames w.ours
          (poll-needed ops verifier blocks laws s.session k r w running)
          (on_frame-request index s serves.valid serves.session_fits
              (omega (arith, inside, serves.count_fits))
            ∙ answer-frames blocks index s serves inside)

    verified :
        merkle_verify_block input index r.block_count (merkle_proof s.leaves index) r.merkle_root
        ≡ true
    verified =
        proof_verifies blocks index r.block_count s.leaves r.merkle_root inside w.counted
          serves.leaves w.rooted

    delivered-next :
        IsDelivered ops verifier s.session index input q taken
        → Resumes ops verifier blocks laws s.session (k + 1) taken
    delivered-next d =
        delivered-Resumes ops verifier blocks laws s.session k index q taken after inside lacks
          below d

    -- The copy kept is the block.
    taken-primed :
        r.ready_blocks index ≡ some input → Resumes ops verifier blocks laws s.session (k + 1) taken
    taken-primed held =
        let (hashes, short) = serving_path blocks index s serves in
        let size : length input ≡ Seeder.block_len s index =
          length-piece blocks index s serves inside in
        let (good, (has, keeps)) = put_good r.store index w.good inside lacks below in
        delivered-next (
          answer-primed ops verifier s.session index (merkle_proof s.leaves index) input s.frag q
            serves.session_fits (omega (arith, inside, serves.count_fits)) serves.some_frag hashes
            (omega (arith, short)) (omega (arith, size, serves.block_fits index inside)) wants held
            verified has)

    -- No copy is kept.
    taken-fresh :
        r.ready_blocks index ≡ none → Resumes ops verifier blocks laws s.session (k + 1) taken
    taken-fresh lacking =
        let (hashes, short) = serving_path blocks index s serves in
        let size : length input ≡ Seeder.block_len s index =
          length-piece blocks index s serves inside in
        delivered-next (
          answer-IsDelivered ops verifier s.session index (merkle_proof s.leaves index) input s.frag
            q serves.session_fits (omega (arith, inside, serves.count_fits)) serves.some_frag hashes
            (omega (arith, short)) (omega (arith, size, serves.some_block index inside))
            (omega (arith, size, serves.block_fits index inside)) wants lacking verified)

    primed-Primes :
        (r' : Receiver S) → IsPrimed ops verifier s.session index input q r' → Primes s.session k r'
    primed-Primes r' p =
        let same : next_needed_block ops verifier r' ≡ index =
          next_needed-same ops verifier s.session index r r' p.same_count p.same_store in
        record {
          resumes = record {
            good = subst IsGood (sym p.same_store) w.good;
            ours = p.ours;
            live = p.live;
            ready = p.ready;
            counted = p.same_count ∙ w.counted;
            rooted = p.same_root ∙ w.rooted;
            ends =
                p.running ∙ (sym running ∙ w.ends) ∙ ap (λ (n : ℕ). n == index_manifest) (sym same);
            had = λ j h. ap (λ st. ops.has_block st j) p.same_store ∙ w.had j h;
          };
          held = subst (λ (n : ℕ). r'.ready_blocks n ≡ some (get_or blocks n [])) (sym same) p.held;
        }

    -- The copy kept is refuted by the proof.
    taken-refuted :
        (stale : List ℕ)
        → r.ready_blocks index ≡ some stale
        → merkle_verify_block stale index r.block_count (merkle_proof s.leaves index) r.merkle_root
          ≡ false
        → Primes s.session k taken
    taken-refuted stale held bad =
        let (hashes, short) = serving_path blocks index s serves in
        let size : length input ≡ Seeder.block_len s index =
          length-piece blocks index s serves inside in
        primed-Primes taken (
          answer-refuted ops verifier s.session index (merkle_proof s.leaves index) stale input
            s.frag q serves.session_fits (omega (arith, inside, serves.count_fits)) serves.some_frag
            hashes (omega (arith, short)) (omega (arith, size, serves.some_block index inside))
            (omega (arith, size, serves.block_fits index inside)) wants
            (next_needed-same ops verifier s.session index r q refl refl) held bad)

    pub round-Primes :
        r.ready_blocks index ≡ some input
        → let p = round ops verifier (s, r) in
          IsServing blocks p.0 × Resumes ops verifier blocks laws p.0.session (k + 1) p.1
    round-Primes held =
        subst
          (λ (p : Seeder × Receiver S).
            IsServing blocks p.0 × Resumes ops verifier blocks laws p.0.session (k + 1) p.1)
          (sym round_runs) (still-IsServing blocks frames s serves, taken-primed held)

    -- What a round leads to.
    abbrev pub Outcome : Seeder × Receiver S → Type 0
    Outcome p =
        IsServing blocks p.0
        × (Resumes ops verifier blocks laws p.0.session (k + 1) p.1 ⊎ Primes p.0.session k p.1)

    pub round-Outcome :
        AreBytes blocks → HasOctets r → Outcome (round ops verifier (s, r)) ⊎ Stale blocks r
    round-Outcome o octets =
        let still = still-IsServing blocks frames s serves in
        let path = merkle_proof s.leaves index in
        elim (Option-cases (r.ready_blocks index)) [
          | inl lacking ↦ inl (subst Outcome (sym round_runs) (still, inl (taken-fresh lacking)))
          | inr (stale, held) ↦
              elim (Bool-cases (merkle_verify_block stale index r.block_count path r.merkle_root)) [
                | inr bad ↦
                    inl (subst Outcome (sym round_runs) (still, inr (taken-refuted stale held bad)))
                | inl ok ↦
                    elim (stale_binds blocks stale index r.block_count s.leaves r.merkle_root o
                      (subst OfBytes held (octets.blocks index)) inside w.counted serves.leaves
                      w.rooted ok) [
                        | inr collision ↦ inr (index, stale, inside, (held, collision))
                        | inl same ↦ inl (
                            subst Outcome (sym round_runs)
                              (still, inl (taken-primed (held ∙ ap some same))))
                      ]
              ]
        ]
