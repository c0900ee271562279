-- ===== src/Seeder/Serving.antt =====
-- A seeder made from a package whose manifest counts the blocks of its payload serves these blocks.
use ota_common.Common.{
  ℕ, ◌+◌, ◌*◌, ◌≤◌, ◌<◌, ◌≡◌, refl, sym, ap₂, ◌∙◌, arith, some, List, [], length, get_or, slice,
  u16, u32, sub32, leb, if◌then◌else◌,
}
use ota_common.Manifest.{manifest_at}
use ota_common.Package.{ok, ParsedPackage, package_parse}
use ota_common.Seeder.{Seeder, view, adopt, new_seeder, block_base, block_len}
use ota_common.Seeder.Chunks.{chunk_at}
use ota_common.Seeder.Leaves.{chunks, block_at-take, made, new_seeder-made}
use ota_common.Seeder.Frames.{fragment_size-range}
use ota_common.Seeder.Answer.{IsServing}

-- The bounds of the piece at an offset within the payload.
piece_len : ℕ → ℕ → ℕ → ℕ
piece_len size total off = if leb (u32 (off + size)) total then size else sub32 total off

piece_bounds :
    (size total off : ℕ)
    → 0 < size
    → size < 65536
    → total + 65536 < 4294967296
    → off < total
    → (off + piece_len size total off ≤ total)
      × ((0 < piece_len size total off) × (piece_len size total off < 65536))
unfolding piece_len
piece_bounds size total off some_size narrow fits inside = ground arith

made-piece :
    (fuel : ℕ) (pkg : ParsedPackage) (session size i : ℕ)
    → length (view pkg.payload) ≡ pkg.payload_len
    → pkg.payload_len + 65536 < 4294967296
    → let s = made fuel pkg session size in
      i * s.block_size < length (view pkg.payload)
      → (block_base s i ≡ i * s.block_size)
        × (block_len s i ≡ piece_len s.block_size (length (view pkg.payload)) (i * s.block_size))
unfolding block_base block_len piece_len adopt
made-piece fuel pkg session size i here fits inside =
    let base : u32 (i * u16 (manifest_at (view pkg.manifest)).block_size)
        ≡ i * u16 (manifest_at (view pkg.manifest)).block_size =
      omega (arith, here) in
    let total : u32 pkg.payload_len ≡ length (view pkg.payload) = omega (arith, here) in
    (base, rw (base, total) refl)

-- The piece that the seeder cuts for an index is the block of the index.
record IsPiece (blocks : List (List ℕ)) (s : Seeder) (i : ℕ) : Type 0 where
  cut : slice (block_base s i) (block_len s i) s.payload ≡ get_or blocks i []
  inside : block_base s i + block_len s i ≤ length s.payload
  some_block : 0 < block_len s i
  block_fits : block_len s i < 65536

made-IsPiece :
    (fuel : ℕ) (pkg : ParsedPackage) (session size i : ℕ)
    → let s = made fuel pkg session size in
      let blocks = chunks fuel s.block_size (view pkg.payload) in
      length (view pkg.payload) ≡ pkg.payload_len
      → pkg.payload_len + 65536 < 4294967296
      → 0 < s.block_size
      → i < length blocks
      → IsPiece blocks s i
unfolding piece_len adopt
made-IsPiece fuel pkg session size i here fits some_size h =
    let s = made fuel pkg session size in
    let payload = view pkg.payload in
    let off = i * s.block_size in
    let (within, piece) = chunk_at fuel s.block_size payload i some_size h in
    let (base, len) = made-piece fuel pkg session size i here fits within in
    let narrow : s.block_size < 65536 = omega arith in
    let (inside, (some_block, block_fits)) =
      piece_bounds s.block_size (length payload) off some_size narrow (omega (arith, here))
        within in
    record {
      cut =
          ap₂ (λ (o n : ℕ). slice o n payload) base len
          ∙ (block_at-take s.block_size payload some_size (omega (arith, here, narrow)) off within
              ∙ sym piece);
      inside = omega (arith, base, len, inside);
      some_block = omega (arith, len, some_block);
      block_fits = omega (arith, len, block_fits);
    }

-- A package's seeder whose manifest counts the blocks of the payload, modulo 65536, serves them.
pub made-IsServing :
    (fuel : ℕ) (pkg : ParsedPackage) (session size : ℕ)
    → let s = made fuel pkg session size in
      let blocks = chunks fuel s.block_size (view pkg.payload) in
      length (view pkg.payload) ≡ pkg.payload_len
      → pkg.payload_len + 65536 < 4294967296
      → session < 256
      → 0 < s.block_size
      → s.block_count ≡ length blocks
      → IsServing blocks s
unfolding adopt
made-IsServing fuel pkg session size here fits ses some_size count =
    let s = made fuel pkg session size in
    let blocks = chunks fuel s.block_size (view pkg.payload) in
    let piece : (i : ℕ) → i < length blocks → IsPiece blocks s i =
      λ i h. made-IsPiece fuel pkg session size i here fits some_size h in
    record {
      valid = refl;
      some_frag = (fragment_size-range size).0;
      frag_fits = (fragment_size-range size).1;
      session_fits = ses;
      leaves = refl;
      counted = count;
      count_fits = omega (arith, count);
      pieces = λ i h. (piece i h).cut;
      inside = λ i h. (piece i h).inside;
      some_block = λ i h. (piece i h).some_block;
      block_fits = λ i h. (piece i h).block_fits;
    }

-- The constructor of a seeder returns a seeder that serves the blocks of the payload, on a package
-- that parses, whose manifest counts these blocks right and has a block size other than 0 modulo
-- 65536, with a payload of fewer than 2^32 - 65536 bytes, for a session below 256, and with fuel above
-- the payload's length.
pub new_seeder-IsServing :
    (fuel : ℕ) (buf : List ℕ) (pkg : ParsedPackage) (session size : ℕ)
    → package_parse (some buf) ≡ (ok, pkg)
    → 0 < u16 (manifest_at (view pkg.manifest)).block_size
    → pkg.payload_len + 65536 < 4294967296
    → pkg.payload_len < fuel
    → session < 256
    → let blocks =
        chunks fuel (u16 (manifest_at (view pkg.manifest)).block_size) (view pkg.payload) in
      u16 (manifest_at (view pkg.manifest)).block_count ≡ length blocks
      → (s : Seeder) × (new_seeder fuel (some buf) session size ≡ some s) × IsServing blocks s
unfolding adopt
new_seeder-IsServing fuel buf pkg session size parsed some_size fits enough ses count =
    let (here, returns) = new_seeder-made fuel buf pkg session size parsed some_size fits enough in
    (
      made fuel pkg session size,
      returns,
      made-IsServing fuel pkg session size here fits ses some_size count,
    )
