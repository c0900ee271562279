-- ===== src/Transfer/Flashed.antt =====
-- `FlashTargetBlockStore` keeps the promises that a transfer relies on; what its target has at the end.
use ota_common.Common.{
  ℕ, ◌+◌, ◌*◌, ◌≤◌, ◌<◌, ◌≡◌, refl, sym, subst, ◌∙◌, arith, inl, inr, true, false, some, List, [],
  length, get_or, take_all, ltb, Bool-cases,
}
use ota_common.Manifest.{Manifest}
use ota_common.BlockStore.{
  FlashTarget, FlashTargetBlockStore, have_at, flash_store, flash_put_block, flash_set_manifest,
  flash_block_store,
}
use ota_common.BlockStore.Flash.{IsSequential}
use ota_common.BlockStore.Image.{IsSequential-has, IsSequential-lacks}
use ota_common.Seeder.Leaves.{chunks}
use ota_common.Seeder.Chunks.{chunks_cover}
use ota_common.Transfer.Rounds.{Stores}
use ota_common.Transfer.Payload.{Measures}
use ota_common.Transfer.Written.{TakesSequence, IsWritten, next_put}

module _ {T : Type 0} (flash : FlashTarget T) (initial : T) (fuel : ℕ) (m : Manifest)
    (payload : List ℕ) (target : TakesSequence flash m initial) (w : Measures fuel m payload)
    (fits : length payload ≤ m.output_length) where
  open target use {image}

  abbrev blocks : List (List ℕ)
  blocks = chunks fuel m.block_size payload

  abbrev Written : FlashTargetBlockStore T → Type 0
  Written = IsWritten flash initial fuel m payload target w fits

  -- A block that comes in order is the next one.
  next_index :
      (st : FlashTargetBlockStore T) (i : ℕ)
      → IsSequential m st
      → have_at st.have i ≡ false
      → ((j : ℕ) → j < i → have_at st.have j ≡ true)
      → i ≡ st.next
  next_index st i seq lacks below = elim (Bool-cases (ltb i st.next)) [
    | inl old ↦ let has = IsSequential-has m st seq i (ground arith) in ground (arith, has, lacks)
    | inr high ↦ elim (Bool-cases (ltb st.next i)) [
      | inl early ↦
          let lacked = IsSequential-lacks m st seq st.next (omega arith) in
          let has = below st.next (ground arith) in ground (arith, has, lacked)
      | inr late ↦ ground (arith, high, late)
    ]
  ]

  -- The flash store keeps what a transfer relies on.
  pub flash_laws : Stores (flash_block_store flash) blocks
  flash_laws = record {
    IsGood = Written;
    put_good = λ st i good h lacks below.
        let here = next_index st i good.sequential lacks below in
        let (good', next) =
          subst
            (λ (k : ℕ).
              let st' = (flash_put_block flash st k (get_or blocks k [])).0 in
              Written st' × (st'.next ≡ st.next + 1))
            (sym here)
            (next_put flash initial fuel m payload target w fits st good
              (omega (arith, here, h))) in
        let st' = (flash_put_block flash st i (get_or blocks i [])).0 in
        (
          good',
          (
            IsSequential-has m st' good'.sequential i (omega (arith, here, next)),
            λ j had. IsSequential-has m st' good'.sequential j (elim (Bool-cases (ltb j st.next)) [
              | inl low ↦ ground (arith, low, next)
              | inr high ↦
                  let lacked = IsSequential-lacks m st good.sequential j (ground (arith, high)) in
                  ground (arith, had, lacked)
            ]),
          ),
        );
  }

  -- A store that has only been given its target and its manifest is usable.
  pub flash_laws-fresh :
      flash_laws.IsGood (flash_set_manifest flash (some m) (flash_store flash initial))
  unfolding flash_laws flash_set_manifest
  flash_laws-fresh = record {
    sequential = record {
      source = refl;
      within = omega arith;
      counted = refl;
      unbegun = λ e. (refl, refl);
      begun = λ e. cc;
    };
    unbegun = λ e. refl;
    opened = λ e. cc;
    content = λ e. cc;
  }

  pub flash_laws-IsWritten : (st : FlashTargetBlockStore T) → flash_laws.IsGood st → Written st
  unfolding flash_laws
  flash_laws-IsWritten st good = good

  -- A store that has every block has handed the payload to its target.
  pub IsWritten-image :
      (st : FlashTargetBlockStore T)
      → 0 < length payload
      → Written st
      → ((i : ℕ) → i < length blocks → have_at st.have i ≡ true)
      → image st.target ≡ payload
  IsWritten-image st some_byte good all =
      let covered = chunks_cover fuel m.block_size payload w.some_size w.enough in
      let some_block : 0 < length blocks = ground (arith, covered, some_byte) in
      let lacked = IsSequential-lacks m st good.sequential st.next (omega arith) in
      let done : m.block_count ≤ st.next = elim (Bool-cases (ltb st.next (length blocks))) [
        | inl more ↦ let has = all st.next (ground arith) in ground (arith, has, lacked)
        | inr none_left ↦ ground (arith, none_left, w.count)
      ] in
      elim (Bool-cases st.began) [
        | inr off ↦
            let none_yet = (good.sequential.unbegun off).0 in
            absurd (omega (arith, none_yet, done, some_block, w.count))
        | inl on ↦
            let whole : st.next ≡ length blocks =
              omega (arith, done, good.sequential.within, w.count) in
            good.content on
            ∙ take_all (st.next * m.block_size) payload
                (subst (λ (n : ℕ). length payload ≤ n * m.block_size) (sym whole) covered)
      ]
