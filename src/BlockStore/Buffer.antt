-- ===== src/BlockStore/Buffer.antt =====
-- `BufferBlockStore` keeps what it is given.
use ota_common.Common.{
  ℕ, zero, suc, ◌+◌, ◌-◌, ◌*◌, ◌≤◌, ◌<◌, ◌≡◌, refl, sym, ap, ◌∙◌, arith, ◌≢◌, Bool, true, false,
  ◌&&◌, ◌||◌, some, List, [], ◌∷◌, length, get_or, set, replicate, slice, write_at, u32, ltb, leb,
  Bool-cases, inl, inr, length-set, length-replicate, length-write_at, get_or-set_self,
  get_or-set_ne, slice-write_at, slice-write_at_ne, ◌⊎◌,
}
use native.Mathlib.Nat.{mod-eq_of_lt}
use ota_common.Manifest.{Manifest}
use ota_common.BlockStore.{
  BufferBlockStore, buffer_store, have_at, ensure_geometry, buffer_write, buffer_put,
  buffer_put_with, buffer_put_block,
}

-- How many blocks are marked.
pub marked : List Bool → ℕ
marked [] = 0
marked (true ∷ have) = suc (marked have)
marked (false ∷ have) = marked have

-- The geometry is the manifest's, and the count is the number of marked blocks.
pub record IsSized (m : Manifest) (s : BufferBlockStore) : Type 0 where
  pub source : s.manifest ≡ some m
  pub ready : s.ready ≡ true
  pub block_size : s.block_size ≡ m.block_size
  pub block_count : s.block_count ≡ m.block_count
  pub have_len : length s.have ≡ m.block_count
  pub buf_len : length s.buf ≡ m.payload_length
  pub counted : s.count ≡ marked s.have

-- No block is had before the first use.
pub have_at-nil : (index : ℕ) → have_at [] index ≡ false
unfolding have_at
have_at-nil index = ground arith

marked-le : (have : List Bool) → marked have ≤ length have
unfolding marked
marked-le [] = omega arith
marked-le (true ∷ have) = omega (arith, marked-le have)
marked-le (false ∷ have) = omega (arith, marked-le have)

marked-replicate : (n : ℕ) → marked (replicate n false) ≡ 0
unfolding marked
marked-replicate zero = refl
marked-replicate (suc n) = marked-replicate n

marked-set :
    (have : List Bool) (i : ℕ)
    → i < length have
    → get_or have i false ≡ false
    → (marked (set have i true) ≡ marked have + 1) × (marked have < length have)
unfolding marked
marked-set [] i h e = absurd (omega arith)
marked-set (true ∷ have) zero h e = cc
marked-set (false ∷ have) zero h e = omega (arith, marked-le have)
marked-set (true ∷ have) (suc i) h e = omega (arith, marked-set have i (omega arith) e)
marked-set (false ∷ have) (suc i) h e = omega (arith, marked-set have i (omega arith) e)

-- A fresh store is sized by its first use.
pub ensure_geometry-IsSized :
    (m : Manifest) (s : BufferBlockStore)
    → s.manifest ≡ some m
    → s.ready ≡ false
    → s.count ≡ 0
    → IsSized m (ensure_geometry s m)
unfolding ensure_geometry
ensure_geometry-IsSized m s source fresh none_yet = ground (
  arith,
  length-replicate m.block_count false,
  length-replicate {A = ℕ} m.payload_length 0,
  marked-replicate m.block_count,
)

module _ (m : Manifest) (s : BufferBlockStore) (w : IsSized m s) (index : ℕ) (input : List ℕ) where
  put_opens : buffer_put_block s index input ≡ buffer_put s index input
  unfolding buffer_put_block buffer_put_with ensure_geometry
  put_opens = rw (w.source, buffer_put_with, w.ready)

  write-IsSized :
      (off : ℕ)
      → index < m.block_count
      → get_or s.have index false ≡ false
      → m.block_count < 4294967296
      → IsSized m (buffer_write s index off input).0
  unfolding buffer_write
  write-IsSized off room fresh small = elim (Bool-cases refused) [
    | inl bad ↦ rw bad w
    | inr good ↦
        let fits : off + length input ≤ length s.buf = ground arith in
        let marks = marked-set s.have index (omega (arith, w.have_len)) fresh in
        rw good (record {
          source = w.source;
          ready = w.ready;
          block_size = w.block_size;
          block_count = w.block_count;
          have_len = length-set s.have index true ∙ w.have_len;
          buf_len = length-write_at s.buf off input fits ∙ w.buf_len;
          counted = omega (arith, marks, w.counted, w.have_len);
        })
  ]
    where
      refused : Bool
      refused = ltb (length s.buf) off || ltb (length s.buf - off) (length input)

  put-IsSized : m.block_count < 4294967296 → IsSized m (buffer_put s index input).0
  unfolding buffer_put
  put-IsSized small = elim (Bool-cases (leb s.block_count index)) [
    | inl out ↦ rw out w
    | inr in_range ↦ elim (Bool-cases (get_or s.have index false)) [
      | inl old ↦ rw (in_range, old) w
      | inr new ↦ rw (in_range, new) (write-IsSized _ (ground (arith, w.block_count)) new small)
    ]
  ]

  -- Whatever `put_block` answers, a store with the geometry of a manifest and the number of its marked
  -- blocks as count keeps both; the manifest's block count fits `uint32_t`.
  pub buffer_put_block-IsSized :
      m.block_count < 4294967296 → IsSized m (buffer_put_block s index input).0
  buffer_put_block-IsSized small = rw put_opens (put-IsSized small)

  module _ (room : index < m.block_count) (fresh : have_at s.have index ≡ false)
      (inside : index * m.block_size + length input ≤ m.payload_length)
      (payload_fits : m.payload_length < 4294967296) (count_fits : m.block_count < 4294967296) where
    fresh' : get_or s.have index false ≡ false
    fresh' = unfold have_at in ground (arith, fresh, w.have_len)

    offset : u32 (index * s.block_size) ≡ index * m.block_size
    offset = rw w.block_size (mod-eq_of_lt (omega arith))

    abbrev written : BufferBlockStore
    written = record s {
      buf = write_at s.buf (index * m.block_size) input;
      have = set s.have index true;
      count = u32 (s.count + 1);
    }

    put_writes : buffer_put s index input ≡ (written, true)
    unfolding buffer_put
    put_writes =
        rw (offset, w.block_count, fresh')
          (unfold buffer_write in ground (arith, w.buf_len, w.block_count))

    -- In a store with the manifest's geometry, a block within the payload that the store does not have
    -- yet is accepted and marked, its bytes are read back at its offset, the count grows by one, and
    -- no other block's mark changes; the manifest's payload length and block count fit `uint32_t`.
    pub buffer_put_block-stored :
        let r = buffer_put_block s index input in
        (r.1 ≡ true)
        × (have_at r.0.have index ≡ true)
        × (slice (index * m.block_size) (length input) r.0.buf ≡ input)
        × (r.0.count ≡ s.count + 1)
        × ((j : ℕ) → j ≢ index → have_at r.0.have j ≡ have_at s.have j)
    unfolding have_at
    buffer_put_block-stored =
        rw (put_opens, put_writes)
          (
            refl,
            ground (
              arith,
              length-set s.have index true,
              get_or-set_self s.have index true false,
              w.have_len,
            ),
            slice-write_at s.buf (index * m.block_size) input (omega (arith, w.buf_len)),
            omega (
              arith,
              w.counted,
              w.have_len,
              marked-set s.have index (omega (arith, w.have_len)) fresh',
            ),
            λ j ne. rw (length-set s.have index true) (
                ap (λ b. ltb j (length s.have) && b)
                  (get_or-set_ne s.have index j true false (λ e. ne (sym e)))),
          )

    -- The bytes beside the block's range stay.
    pub buffer_put_block-keeps :
        (off n : ℕ)
        → (off + n ≤ index * m.block_size) ⊎ (index * m.block_size + length input ≤ off)
        → slice off n (buffer_put_block s index input).0.buf ≡ slice off n s.buf
    buffer_put_block-keeps off n beside =
        rw (put_opens, put_writes)
          (slice-write_at_ne s.buf (index * m.block_size) input off n (omega (arith, w.buf_len))
            beside)

-- A store that has only been given its manifest takes its geometry with the first block.
pub buffer_put_block-first :
    (m : Manifest) (index : ℕ) (input : List ℕ)
    → buffer_put_block (buffer_store (some m)) index input
      ≡ buffer_put_block (ensure_geometry (buffer_store (some m)) m) index input
unfolding buffer_put_block buffer_put_with ensure_geometry
buffer_put_block-first m index input = refl

get_or-replicate : (n i : ℕ) → get_or (replicate n false) i false ≡ false
get_or-replicate zero i = refl
get_or-replicate (suc n) zero = refl
get_or-replicate (suc n) (suc i) = get_or-replicate n i

-- It has no block then.
pub ensure_geometry-lacks :
    (m : Manifest) (index : ℕ)
    → have_at (ensure_geometry (buffer_store (some m)) m).have index ≡ false
unfolding ensure_geometry have_at
ensure_geometry-lacks m index = ground (arith, get_or-replicate m.block_count index)
