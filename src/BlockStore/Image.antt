-- ===== src/BlockStore/Image.antt =====
-- `FlashTargetBlockStore`: what a block does to the target behind it.
use ota_common.Common.{
  ℕ, zero, suc, ◌+◌, ◌-◌, ◌*◌, ◌≤◌, ◌<◌, ◌≡◌, refl, ap, ◌∙◌, arith, inl, inr, true, false, List,
  ◌++◌, get_or, replicate, length-append, length-replicate, u32, ◌!=◌, subst, Bool-cases,
}
use ota_common.Manifest.{Manifest}
use ota_common.BlockStore.{
  FlashTarget, is_ok, FlashTargetBlockStore, have_at, flash_begin, flash_write, flash_put,
  flash_put_with, flash_put_block,
}
use ota_common.BlockStore.Flash.{IsSequential, first_marked, flash_begin-IsSequential}

first_marked-true :
    (n count j : ℕ) → n ≤ count → j < n → get_or (first_marked n count) j false ≡ true
first_marked-true zero count j le h = absurd (omega arith)
first_marked-true (suc n) zero j le h = absurd (omega arith)
first_marked-true (suc n) (suc count) zero le h = refl
first_marked-true (suc n) (suc count) (suc j) le h =
    let same : suc count - suc n ≡ count - n = omega arith in
    ap (λ (k : ℕ). get_or (replicate n true ++ replicate k false) j false) same
    ∙ first_marked-true n count j (omega arith) (omega arith)

get_or-replicate : (n i : ℕ) → get_or (replicate n false) i false ≡ false
get_or-replicate zero i = refl
get_or-replicate (suc n) zero = refl
get_or-replicate (suc n) (suc i) = get_or-replicate n i

first_marked-false :
    (n k j : ℕ) → n ≤ j → get_or (replicate n true ++ replicate k false) j false ≡ false
first_marked-false zero k j h = get_or-replicate k j
first_marked-false (suc n) k zero h = absurd (omega arith)
first_marked-false (suc n) k (suc j) h = first_marked-false n k j (omega arith)

module _ {T : Type 0} (m : Manifest) (s : FlashTargetBlockStore T) (w : IsSequential m s)
    (j : ℕ) where
  -- A sequential store has the blocks below the next one, and no other.
  pub IsSequential-has : j < s.next → have_at s.have j ≡ true
  unfolding have_at
  IsSequential-has h = elim (Bool-cases s.began) [
    | inr off ↦ let none_yet = (w.unbegun off).0 in absurd (omega (arith, none_yet))
    | inl on ↦ rw (w.begun on).0 (
        ground (
          arith,
          first_marked-true s.next m.block_count j w.within h,
          length-append (replicate s.next true) (replicate (m.block_count - s.next) false),
          length-replicate s.next true,
          length-replicate (m.block_count - s.next) false,
          w.within,
          h,
        ))
  ]

  pub IsSequential-lacks : s.next ≤ j → have_at s.have j ≡ false
  unfolding have_at
  IsSequential-lacks h = elim (Bool-cases s.began) [
    | inr off ↦ rw (w.unbegun off).1 (ground arith)
    | inl on ↦
        rw (w.begun on).0 (ground (arith, first_marked-false s.next (m.block_count - s.next) j h))
  ]

-- What a block in its turn leads to: the target's state after the write, and the next index.
pub record IsAppended {T : Type 0} (target : T) (next : ℕ) (s : FlashTargetBlockStore T)
    : Type 0 where
  pub moved : s.target ≡ target
  pub counted : s.next ≡ next + 1
  pub on : s.began ≡ true

module _ {T : Type 0} (flash : FlashTarget T) (m : Manifest) (s : FlashTargetBlockStore T) where
  -- The store with its target begun.
  abbrev pub begun_store : FlashTargetBlockStore T
  begun_store = record s {
    target = (flash.begin s.target m.output_length m).0;
    began = true;
    block_size = m.block_size;
    block_count = m.block_count;
    have = replicate m.block_count false;
  }

module _ {T : Type 0} (flash : FlashTarget T) (m : Manifest) (fits : m.block_count < 4294967296)
    (s : FlashTargetBlockStore T) (w : IsSequential m s) where
  -- Where the target accepts the write, a block in its turn is handed over.
  pub flash_put_block-IsAppended :
      (input : List ℕ)
      → s.began ≡ true
      → s.next < m.block_count
      → is_ok (flash.write s.target (u32 (s.next * m.block_size)) input).1 ≡ true
      → IsAppended
          (flash.write s.target (u32 (s.next * m.block_size)) input).0
          s.next
          (flash_put_block flash s s.next input).0
  unfolding flash_put_block flash_put_with flash_begin flash_put flash_write
  flash_put_block-IsAppended input on room good =
      let fresh = IsSequential-lacks m s w s.next (omega arith) in
      let in_turn : (s.next != s.next) ≡ false = ground arith in
      let next : u32 (s.next + 1) ≡ s.next + 1 = omega (arith, room, fits) in
      rw (w.source, on, fresh, in_turn, (w.begun on).1, good)
        (record { moved = refl; counted = next; on = refl })

  module _ (off : s.began ≡ false)
      (good : is_ok (flash.begin s.target m.output_length m).1 ≡ true) where
    begins : flash_begin flash s m ≡ (begun_store flash m s, true)
    unfolding flash_begin
    begins = rw (off, good) refl

    pub begun_store-IsSequential : IsSequential m (begun_store flash m s)
    begun_store-IsSequential =
        subst (λ p. IsSequential m p.0) begins (flash_begin-IsSequential flash m fits s w).0

    -- Where the target can be begun, a block goes to the store with the begun target.
    pub flash_put_block-begun :
        (index : ℕ) (input : List ℕ)
        → flash_put_block flash s index input
          ≡ flash_put_block flash (begun_store flash m s) index input
    unfolding flash_put_block flash_put_with flash_begin
    flash_put_block-begun index input = rw (w.source, off, good) refl
