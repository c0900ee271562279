-- ===== src/Transfer/Payload.antt =====
-- What the buffer store holds at the end of a transfer.
use ota_common.Common.{
  ℕ, ◌*◌, ◌≤◌, ◌<◌, ◌≡◌, sym, ap, ◌∙◌, arith, inl, inr, true, List, [], length, get_or, take, drop,
  slice, take_all, take_taken_length, take-pieces, length-take, length-drop,
}
use ota_common.Manifest.{Manifest}
use ota_common.BlockStore.{BufferBlockStore, have_at}
use ota_common.BlockStore.Buffer.{have_at-nil}
use ota_common.Seeder.Leaves.{chunks}
use ota_common.Seeder.Chunks.{chunk_at, chunk_bounded, chunk_inside, chunks_cover}
use ota_common.Transfer.Buffered.{AreDeclared, IsFilled, IsUsable}

-- The manifest has the measures of the payload.
pub record Measures (fuel : ℕ) (m : Manifest) (payload : List ℕ) : Type 0 where
  pub some_size : 0 < m.block_size
  pub enough : length payload ≤ fuel
  pub len : m.payload_length ≡ length payload
  pub count : m.block_count ≡ length (chunks fuel m.block_size payload)
  pub payload_fits : m.payload_length < 4294967296
  pub count_fits : m.block_count < 4294967296

module _ (fuel : ℕ) (m : Manifest) (payload : List ℕ) (w : Measures fuel m payload) where
  abbrev pub blocks_of : List (List ℕ)
  blocks_of = chunks fuel m.block_size payload

  pub chunks-AreDeclared : AreDeclared m blocks_of
  chunks-AreDeclared = record {
    counted = sym w.count;
    bounded = chunk_bounded fuel m.block_size payload;
    inside = λ i h. omega (arith, w.len, chunk_inside fuel m.block_size payload i w.some_size h);
    payload_fits = w.payload_fits;
    count_fits = w.count_fits;
  }

  piece_same :
      (buf : List ℕ) (i : ℕ)
      → length buf ≡ length payload
      → i < length blocks_of
      → slice (i * m.block_size) (length (get_or blocks_of i [])) buf ≡ get_or blocks_of i []
      → slice (i * m.block_size) m.block_size buf ≡ slice (i * m.block_size) m.block_size payload
  piece_same buf i same_len h place =
      let off = i * m.block_size in
      let (within, piece) = chunk_at fuel m.block_size payload i w.some_size h in
      let same : length (slice off m.block_size buf) ≡ length (get_or blocks_of i []) = omega (
        arith,
        ap length piece,
        length-take m.block_size (drop off payload),
        length-take m.block_size (drop off buf),
        length-drop off payload,
        length-drop off buf,
      ) in
      sym (take_taken_length m.block_size (drop off buf))
      ∙ ap (λ (n : ℕ). take n (drop off buf)) same
      ∙ place
      ∙ piece

  all_filled :
      (st : BufferBlockStore)
      → IsFilled m blocks_of chunks-AreDeclared st
      → ((i : ℕ) → i < length blocks_of → have_at st.have i ≡ true)
      → st.buf ≡ payload
  all_filled st filled all =
      let same_len : length st.buf ≡ length payload = omega (arith, filled.sized.buf_len, w.len) in
      let covered = chunks_cover fuel m.block_size payload w.some_size w.enough in
      let reach = length blocks_of * m.block_size in
      sym (take_all reach st.buf (omega (arith, same_len, covered)))
      ∙ take-pieces m.block_size (length blocks_of) st.buf payload
          (λ i h. piece_same st.buf i same_len h (filled.content i (all i h)))
      ∙ take_all reach payload covered

  -- A usable store that has every block holds the payload.
  pub IsUsable-buf :
      (st : BufferBlockStore)
      → 0 < length payload
      → IsUsable m blocks_of chunks-AreDeclared st
      → ((i : ℕ) → i < length blocks_of → have_at st.have i ≡ true)
      → st.buf ≡ payload
  IsUsable-buf st some_byte (inr filled) all = all_filled st filled all
  IsUsable-buf st some_byte (inl fresh) all =
      let covered = chunks_cover fuel m.block_size payload w.some_size w.enough in
      let first = all 0 (ground (arith, covered, some_byte)) in
      let none_had = ap (λ t. have_at t.have 0) fresh ∙ have_at-nil 0 in
      ground (arith, first, none_had)
