-- ===== src/Transfer/Written.antt =====
-- A flash store over a target that takes its image in sequence, as the blocks of a payload come.
use ota_common.Common.{
  ℕ, ◌+◌, ◌*◌, ◌≤◌, ◌<◌, ◌≡◌, refl, sym, subst, ap, ap₂, ◌∙◌, arith, inl, inr, true, false, List,
  [], ◌++◌, length, get_or, take, take-add, length-take, u32, Bool-cases,
}
use native.Mathlib.Nat.{mod-eq_of_lt}
use ota_common.Manifest.{Manifest}
use ota_common.BlockStore.{FlashTarget, is_ok, FlashTargetBlockStore, flash_put_block}
use ota_common.BlockStore.Flash.{IsSequential, flash_put_block-IsSequential}
use ota_common.BlockStore.Image.{
  flash_put_block-IsAppended, begun_store, begun_store-IsSequential, flash_put_block-begun,
}
use ota_common.Seeder.Leaves.{chunks}
use ota_common.Seeder.Chunks.{chunk_at, chunk_inside}
use ota_common.Transfer.Payload.{Measures}

-- What a target promises to a caller that writes in sequence (include/ota_common/flash_target.h): it
-- can be begun, nothing is written then, and each write at the end of what was written, within the
-- expected size, succeeds and adds its bytes.
pub record TakesSequence {T : Type 0} (flash : FlashTarget T) (m : Manifest) (initial : T)
    : Type 1 where
  pub IsOpen : T → Type 0
  pub image : T → List ℕ
  pub begin_ok : is_ok (flash.begin initial m.output_length m).1 ≡ true
  pub begin_open : IsOpen (flash.begin initial m.output_length m).0
  pub begin_empty : image (flash.begin initial m.output_length m).0 ≡ []
  pub write_ok :
      (t : T) (input : List ℕ)
      → IsOpen t
      → length (image t) + length input ≤ m.output_length
      → let r = flash.write t (length (image t)) input in
        (is_ok r.1 ≡ true) × IsOpen r.0 × (image r.0 ≡ image t ++ input)

module _ {T : Type 0} (flash : FlashTarget T) (initial : T) (fuel : ℕ) (m : Manifest)
    (payload : List ℕ) (target : TakesSequence flash m initial) (w : Measures fuel m payload)
    (fits : length payload ≤ m.output_length) where
  open target use {IsOpen, image}

  abbrev blocks : List (List ℕ)
  blocks = chunks fuel m.block_size payload

  -- The target has the blocks below the next one.
  pub record IsWritten (st : FlashTargetBlockStore T) : Type 0 where
    pub sequential : IsSequential m st
    pub unbegun : st.began ≡ false → st.target ≡ initial
    pub opened : st.began ≡ true → IsOpen st.target
    pub content : st.began ≡ true → image st.target ≡ take (st.next * m.block_size) payload

  module _ (st : FlashTargetBlockStore T) (good : IsWritten st) (on : st.began ≡ true)
      (h : st.next < length blocks) where
    abbrev block : List ℕ
    block = get_or blocks st.next []

    abbrev after : FlashTargetBlockStore T
    after = (flash_put_block flash st st.next block).0

    len : length (image st.target) ≡ st.next * m.block_size
    len =
        let within = (chunk_at fuel m.block_size payload st.next w.some_size h).0 in
        omega
          (arith, ap length (good.content on), length-take (st.next * m.block_size) payload, within)

    offset : u32 (st.next * m.block_size) ≡ length (image st.target)
    offset =
        let inside = chunk_inside fuel m.block_size payload st.next w.some_size h in
        mod-eq_of_lt (omega (arith, inside, w.len, w.payload_fits)) ∙ sym len

    writes :
        let r = flash.write st.target (u32 (st.next * m.block_size)) block in
        (is_ok r.1 ≡ true) × IsOpen r.0 × (image r.0 ≡ image st.target ++ block)
    writes =
        let inside = chunk_inside fuel m.block_size payload st.next w.some_size h in
        subst
          (λ (off : ℕ).
            let r = flash.write st.target off block in
            (is_ok r.1 ≡ true) × IsOpen r.0 × (image r.0 ≡ image st.target ++ block))
          (sym offset)
          (target.write_ok st.target block (good.opened on) (omega (arith, len, inside, fits)))

    begun_put : IsWritten after × (after.next ≡ st.next + 1)
    begun_put =
        let (accepted, still_open, added) = writes in
        let room : st.next < m.block_count = omega (arith, h, w.count) in
        let a =
          flash_put_block-IsAppended flash m w.count_fits st good.sequential block on room
            accepted in
        let piece = (chunk_at fuel m.block_size payload st.next w.some_size h).1 in
        let grown : after.next * m.block_size ≡ st.next * m.block_size + m.block_size =
          ap (λ (n : ℕ). n * m.block_size) a.counted ∙ omega arith in
        (
          record {
            sequential =
                flash_put_block-IsSequential flash m w.count_fits st st.next block good.sequential
                  room;
            unbegun = λ off. ground (arith, off, a.on);
            opened = λ o. subst IsOpen (sym a.moved) still_open;
            content = λ o.
                ap image a.moved
                ∙ added
                ∙ ap₂ (λ xs ys. xs ++ ys) (good.content on) piece
                ∙ take-add (st.next * m.block_size) m.block_size (after.next * m.block_size) payload
                    (sym grown);
          },
          a.counted,
        )

  module _ (st : FlashTargetBlockStore T) (good : IsWritten st) (off : st.began ≡ false) where
    begins : is_ok (flash.begin st.target m.output_length m).1 ≡ true
    begins =
        subst (λ t. is_ok (flash.begin t m.output_length m).1 ≡ true) (sym (good.unbegun off))
          target.begin_ok

    begun-IsWritten : IsWritten (begun_store flash m st)
    begun-IsWritten =
        let first : 0 ≡ st.next * m.block_size =
          sym (ap (λ (n : ℕ). n * m.block_size) (good.sequential.unbegun off).0 ∙ omega arith) in
        record {
          sequential = begun_store-IsSequential flash m w.count_fits st good.sequential off begins;
          unbegun = λ e. cc;
          opened = λ e.
              subst (λ t. IsOpen (flash.begin t m.output_length m).0) (sym (good.unbegun off))
                target.begin_open;
          content = λ e.
              ap (λ t. image (flash.begin t m.output_length m).0) (good.unbegun off)
              ∙ target.begin_empty
              ∙ ap (λ (n : ℕ). take n payload) first;
        }

  -- The next block, whether the target has been begun or not.
  pub next_put :
      (st : FlashTargetBlockStore T)
      → IsWritten st
      → st.next < length blocks
      → let st' = (flash_put_block flash st st.next (get_or blocks st.next [])).0 in
        IsWritten st' × (st'.next ≡ st.next + 1)
  next_put st good h = elim (Bool-cases st.began) [
    | inl on ↦ begun_put st good on h
    | inr off ↦
        let begun = begun-IsWritten st good off in
        let same =
          flash_put_block-begun flash m w.count_fits st good.sequential off (begins st good off)
            st.next (get_or blocks st.next []) in
        rw same (begun_put (begun_store flash m st) begun refl h)
  ]
