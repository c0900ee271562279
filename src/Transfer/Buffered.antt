-- ===== src/Transfer/Buffered.antt =====
-- `BufferBlockStore` keeps the promises that a transfer relies on, and what it is given.
use ota_common.Common.{
  ℕ, suc, ◌+◌, ◌*◌, ◌≤◌, ◌<◌, ◌≡◌, refl, sym, ap, subst, ◌∙◌, arith, ◌⊎◌, inl, inr, true, false,
  some, List, [], length, get_or, ◌==◌, Bool-cases, ltb, slice, ◌≢◌,
}
use native.Mathlib.Nat.{mul-le-mul_right}
use ota_common.Manifest.{Manifest}
use ota_common.BlockStore.{
  BufferBlockStore, have_at, buffer_store, ensure_geometry, buffer_put_block, buffer_block_store,
}
use ota_common.BlockStore.Buffer.{
  IsSized, have_at-nil, buffer_put_block-first, ensure_geometry-lacks, ensure_geometry-IsSized,
  buffer_put_block-IsSized, buffer_put_block-stored, buffer_put_block-keeps,
}
use ota_common.Transfer.Rounds.{Stores}

-- The blocks have their places in the payload that the manifest declares.
pub record AreDeclared (m : Manifest) (blocks : List (List ℕ)) : Type 0 where
  pub counted : length blocks ≡ m.block_count
  pub bounded : (i : ℕ) → length (get_or blocks i []) ≤ m.block_size
  pub inside :
      (i : ℕ)
      → i < length blocks
      → i * m.block_size + length (get_or blocks i []) ≤ m.payload_length
  pub payload_fits : m.payload_length < 4294967296
  pub count_fits : m.block_count < 4294967296

module _ (m : Manifest) (blocks : List (List ℕ)) (declared : AreDeclared m blocks) where
  open declared use {counted, bounded, inside, payload_fits, count_fits}

  -- The place of a block in a buffer.
  abbrev pub place : ℕ → List ℕ → List ℕ
  place i buf = slice (i * m.block_size) (length (get_or blocks i [])) buf

  -- Sized as the manifest says, with the bytes of every block it has in their place.
  pub record IsFilled (st : BufferBlockStore) : Type 0 where
    pub sized : IsSized m st
    pub content : (j : ℕ) → have_at st.have j ≡ true → place j st.buf ≡ get_or blocks j []

  -- Two blocks have different places.
  beside :
      (i j : ℕ)
      → j ≢ i
      → (j * m.block_size + length (get_or blocks j []) ≤ i * m.block_size)
        ⊎ (i * m.block_size + length (get_or blocks i []) ≤ j * m.block_size)
  beside i j other = elim (Bool-cases (ltb j i)) [
    | inl low ↦ inl (omega (arith, bounded j, scaled j i (ground arith)))
    | inr high ↦ inr (omega (arith, bounded i, scaled i j (ground (arith, other))))
  ]
    where
      scaled : (a b : ℕ) → a < b → a * m.block_size + m.block_size ≤ b * m.block_size
      scaled a b h = omega (arith, mul-le-mul_right {m = suc a} {n = b} m.block_size (omega arith))

  module _ (st : BufferBlockStore) (i : ℕ) (w : IsFilled st) (h : i < length blocks)
      (fresh : have_at st.have i ≡ false) where
    abbrev after : BufferBlockStore
    after = (buffer_put_block st i (get_or blocks i [])).0

    room : i < m.block_count
    room = omega (arith, h, counted)

    content_after : (j : ℕ) → have_at after.have j ≡ true → place j after.buf ≡ get_or blocks j []
    content_after j had =
        let (done, has, bytes, count, others) =
          buffer_put_block-stored m st w.sized i (get_or blocks i []) room fresh (inside i h)
            payload_fits count_fits in
        elim (Bool-cases (j == i)) [
          | inl same ↦
              let here : j ≡ i = ground arith in
              subst (λ (k : ℕ). place k after.buf ≡ get_or blocks k []) (sym here) bytes
          | inr other ↦
              let apart : j ≢ i = ground (arith, other) in
              buffer_put_block-keeps m st w.sized i (get_or blocks i []) room fresh (inside i h)
                payload_fits count_fits (j * m.block_size) (length (get_or blocks j []))
                (beside i j apart)
              ∙ w.content j (sym (others j apart) ∙ had)
        ]

    IsFilled-put :
        IsFilled after
        × ((have_at after.have i ≡ true)
            × ((j : ℕ) → have_at st.have j ≡ true → have_at after.have j ≡ true))
    IsFilled-put =
        let (done, has, bytes, count, others) =
          buffer_put_block-stored m st w.sized i (get_or blocks i []) room fresh (inside i h)
            payload_fits count_fits in
        (
          record {
            sized = buffer_put_block-IsSized m st w.sized i (get_or blocks i []) count_fits;
            content = content_after;
          },
          (
            has,
            λ j had. elim (Bool-cases (j == i)) [
              | inl same ↦ let here : j ≡ i = ground arith in ap (have_at after.have) here ∙ has
              | inr other ↦ others j (ground (arith, other)) ∙ had
            ],
          ),
        )

  -- Fresh, or filled with the blocks it has.
  abbrev pub IsUsable : BufferBlockStore → Type 0
  IsUsable st = (st ≡ buffer_store (some m)) ⊎ IsFilled st

  opened-IsFilled : IsFilled (ensure_geometry (buffer_store (some m)) m)
  opened-IsFilled = record {
    sized = ensure_geometry-IsSized m (buffer_store (some m)) refl refl refl;
    content = λ j had. let lacks = ensure_geometry-lacks m j in ground (arith, had, lacks);
  }

  fresh_put :
      (i : ℕ)
      → i < length blocks
      → let st' = (buffer_put_block (buffer_store (some m)) i (get_or blocks i [])).0 in
        IsFilled st' × (have_at st'.have i ≡ true)
  fresh_put i h =
      let (good, (has, keeps)) =
        IsFilled-put (ensure_geometry (buffer_store (some m)) m) i opened-IsFilled h
          (ensure_geometry-lacks m i) in
      rw (buffer_put_block-first m i (get_or blocks i [])) (good, has)

  -- The buffer store keeps what a transfer relies on.
  pub buffer_laws : Stores buffer_block_store blocks
  buffer_laws = record {
    IsGood = IsUsable;
    put_good = λ st i good h lacks below. elim good [
      | inl fresh ↦
          let (filled, has) = fresh_put i h in
          let none_had : (j : ℕ) → have_at st.have j ≡ false =
            λ j. ap (λ t. have_at t.have j) fresh ∙ have_at-nil j in
          let moved = ap (λ t. (buffer_put_block t i (get_or blocks i [])).0) fresh in
          (
            inr (subst IsFilled (sym moved) filled),
            (
              ap (λ t. have_at t.have i) moved ∙ has,
              λ j had. let lacked = none_had j in ground (arith, had, lacked),
            ),
          )
      | inr filled ↦ let (good', rest) = IsFilled-put st i filled h lacks in (inr good', rest)
    ];
  }

  -- A store that has only been given its manifest is usable.
  pub buffer_laws-fresh : buffer_laws.IsGood (buffer_store (some m))
  unfolding buffer_laws
  buffer_laws-fresh = inl refl

  pub buffer_laws-IsUsable : (st : BufferBlockStore) → buffer_laws.IsGood st → IsUsable st
  unfolding buffer_laws
  buffer_laws-IsUsable st good = good
