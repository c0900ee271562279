-- ===== src/BlockStore/Flash.antt =====
-- `FlashTargetBlockStore` writes its blocks in sequence.
use ota_common.Common.{
  subst, ℕ, zero, suc, ◌+◌, ◌-◌, ◌*◌, ◌≤◌, ◌<◌, ◌≡◌, refl, sym, ap, ◌∙◌, arith, inl, inr, Bool,
  true, false, some, List, [], ◌∷◌, ◌++◌, set, replicate, u32, ◌!=◌, Bool-cases,
}
use ota_common.Manifest.{Manifest}
use ota_common.BlockStore.{
  FlashTarget, is_ok, FlashTargetBlockStore, have_at, flash_begin, flash_write, flash_put,
  flash_put_with, flash_put_block,
}

-- The marks after `next` blocks of `count` were written.
abbrev pub first_marked : ℕ → ℕ → List Bool
first_marked next count = replicate next true ++ replicate (count - next) false

set-first_marked :
    (next count : ℕ)
    → next < count
    → set (first_marked next count) next true ≡ first_marked (next + 1) count
set-first_marked next zero h = absurd (omega arith)
set-first_marked zero (suc count) h =
    let all : suc count - 0 ≡ suc count = omega arith in
    let rest : suc count - 1 ≡ count = omega arith in
    ap (λ (n : ℕ). set (replicate n false) 0 true) all
    ∙ ap (λ (n : ℕ). true ∷ replicate n false) (sym rest)
set-first_marked (suc next) (suc count) h =
    let here : suc count - suc next ≡ count - next = omega arith in
    let after : count - (next + 1) ≡ suc count - suc (next + 1) = omega arith in
    let up : suc (next + 1) ≡ suc next + 1 = omega arith in
    ap (λ (n : ℕ). true ∷ set (replicate next true ++ replicate n false) next true) here
    ∙ (ap (λ marks. true ∷ marks) (set-first_marked next count (omega arith))
        ∙ (ap (λ (n : ℕ). true ∷ (replicate (next + 1) true ++ replicate n false)) after
            ∙ ap (λ (n : ℕ). first_marked n (suc count)) up))

module _ {T : Type 0} where
  -- The blocks below `next` are marked, and no other; before the target is begun there are none.
  pub record IsSequential (m : Manifest) (s : FlashTargetBlockStore T) : Type 0 where
    pub source : s.manifest ≡ some m
    pub within : s.next ≤ m.block_count
    pub counted : s.count ≡ s.next
    pub unbegun : s.began ≡ false → (s.next ≡ 0) × (s.have ≡ [])
    pub begun :
        s.began ≡ true
        → (s.have ≡ first_marked s.next m.block_count) × (s.block_size ≡ m.block_size)

  -- A change of the target only.
  same_marks :
      {m : Manifest} (s : FlashTargetBlockStore T) (t : T)
      → IsSequential m s
      → IsSequential m (record s { target = t })
  same_marks s t w = record {
    source = w.source;
    within = w.within;
    counted = w.counted;
    unbegun = w.unbegun;
    begun = w.begun;
  }

module _ {T : Type 0} (flash : FlashTarget T) (m : Manifest)
    (fits : m.block_count < 4294967296) where
  pub flash_begin-IsSequential :
      (s : FlashTargetBlockStore T)
      → IsSequential m s
      → IsSequential m (flash_begin flash s m).0
        × ((flash_begin flash s m).1 ≡ true → (flash_begin flash s m).0.began ≡ true)
  unfolding flash_begin
  flash_begin-IsSequential s w = elim (Bool-cases s.began) [
    | inl on ↦ simp on (w, λ e. refl)
    | inr off ↦ elim (Bool-cases (is_ok (flash.begin s.target m.output_length m).1)) [
      | inr bad ↦
          simp (off, bad)
            (
              record {
                source = w.source;
                within = w.within;
                counted = w.counted;
                unbegun = λ e. w.unbegun off;
                begun = λ e. cc;
              },
              λ e. cc,
            )
      | inl good ↦
          let (first, none_yet) = w.unbegun off in
          let all : m.block_count - 0 ≡ m.block_count = omega arith in
          simp (off, good)
            (
              record {
                source = w.source;
                within = w.within;
                counted = w.counted;
                unbegun = λ e. cc;
                begun = λ e. (
                  ap (λ (n : ℕ). replicate n false) (sym all)
                      ∙ ap (λ (n : ℕ). first_marked n m.block_count) (sym first),
                  refl,
                );
              },
              λ e. refl,
            )
    ]
  ]

  flash_write-IsSequential :
      (s : FlashTargetBlockStore T) (input : List ℕ)
      → IsSequential m s
      → s.began ≡ true
      → s.next < m.block_count
      → IsSequential m (flash_write flash s s.next input).0
  unfolding flash_write
  flash_write-IsSequential s input w on room =
      elim (Bool-cases (is_ok (flash.write s.target (u32 (s.next * s.block_size)) input).1)) [
        | inr bad ↦ simp bad (same_marks s _ w)
        | inl good ↦
            let next : u32 (s.next + 1) ≡ s.next + 1 = omega arith in
            simp good (record {
              source = w.source;
              within = omega arith;
              counted = omega (arith, w.counted);
              unbegun = λ e. cc;
              begun = λ e. (
                ap (λ marks. set marks s.next true) (w.begun on).0
                    ∙ (set-first_marked s.next m.block_count room
                        ∙ ap (λ (n : ℕ). first_marked n m.block_count) (sym next)),
                (w.begun on).1,
              );
            })
      ]

  flash_put-IsSequential :
      (s : FlashTargetBlockStore T) (go : Bool) (index : ℕ) (input : List ℕ)
      → IsSequential m s
      → (go ≡ true → s.began ≡ true)
      → index < m.block_count
      → IsSequential m (flash_put flash (s, go) index input).0
  unfolding flash_put
  flash_put-IsSequential s false index input w on room = w
  flash_put-IsSequential s true index input w on room = elim (Bool-cases (have_at s.have index)) [
    | inl old ↦ simp old w
    | inr new ↦ elim (Bool-cases (index != s.next)) [
      | inl early ↦ simp (new, early) w
      | inr in_turn ↦
          let here : index ≡ s.next = ground arith in
          simp (new, in_turn)
            (subst (λ (i : ℕ). IsSequential m (flash_write flash s i input).0) (sym here)
              (flash_write-IsSequential s input w (on refl) (omega arith)))
    ]
  ]

  -- Whatever the target answers, `put_block` with an index below the manifest's block count keeps the
  -- store sequential: exactly the blocks below the next index are marked and counted. The block count
  -- fits `uint32_t`.
  pub flash_put_block-IsSequential :
      (s : FlashTargetBlockStore T) (index : ℕ) (input : List ℕ)
      → IsSequential m s
      → index < m.block_count
      → IsSequential m (flash_put_block flash s index input).0
  unfolding flash_put_block flash_put_with
  flash_put_block-IsSequential s index input w room =
      let (kept, on) = flash_begin-IsSequential s w in
      subst (λ o. IsSequential m (flash_put_with flash o s index input).0) (sym w.source)
        (flash_put-IsSequential (flash_begin flash s m).0 (flash_begin flash s m).1 index input kept
          on room)
