-- ===== src/Seeder/Leaves.antt =====
-- The leaves that the constructor of `OtaSeeder` recomputes from the payload.
use ota_common.Common.{
  ltb-false, ℕ, zero, suc, ◌+◌, ◌-◌, ◌<◌, ◌≡◌, refl, sym, ap, ◌∙◌, arith, inl, inr, true, none,
  some, List, [], ◌∷◌, length, take, drop, slice, u16, u32, sub32, ltb, leb, if◌then◌else◌,
  Bool-cases, take_all, drop_all, drop-drop, length-drop,
}
use ota_common.Merkle.{Hash256, hash_leaf}
use ota_common.Merkle.Digests.{leaves_of}
use ota_common.Manifest.{manifest_at}
use ota_common.Package.{ok, ParsedPackage, package_parse}
use ota_common.Package.Parse.{IsParsed, package_parse-IsParsed}
use ota_common.Seeder.{
  Seeder, fragment_size, leaf_loop, view, adopt, with_leaves, construct, new_seeder,
}

-- A payload cut into blocks of a size, the last one short.
unfoldable pub chunks : ℕ → ℕ → List ℕ → List (List ℕ)
chunks zero size xs = []
chunks (suc fuel) size [] = []
chunks (suc fuel) size (x ∷ xs) = take size (x ∷ xs) ∷ chunks fuel size (drop size (x ∷ xs))

pub chunks-more :
    (fuel size : ℕ) (xs : List ℕ)
    → 0 < length xs
    → chunks (suc fuel) size xs ≡ take size xs ∷ chunks fuel size (drop size xs)
unfolding chunks
chunks-more fuel size [] h = absurd (omega arith)
chunks-more fuel size (x ∷ xs) h = refl

pub chunks-nil : (fuel size : ℕ) (xs : List ℕ) → xs ≡ [] → chunks fuel size xs ≡ []
unfolding chunks
chunks-nil zero size xs e = refl
chunks-nil (suc fuel) size xs e = rw e

module _ (size : ℕ) (payload : List ℕ) (some_size : 0 < size)
    (fits : length payload + size < 4294967296) where
  abbrev pub block_at : ℕ → List ℕ
  block_at off =
      slice off
        (if leb (u32 (off + size)) (length payload) then size else sub32 (length payload) off)
        payload

  pub block_at-take : (off : ℕ) → off < length payload → block_at off ≡ take size (drop off payload)
  block_at-take off h = elim (Bool-cases (leb (u32 (off + size)) (length payload))) [
    | inl whole ↦ rw whole
    | inr short ↦
        let rest : length (drop off payload) ≡ length payload - off = length-drop off payload in
        rw short (
          take_all _ (drop off payload) (omega (arith, rest))
          ∙ sym (take_all size (drop off payload) (ground (arith, rest))))
  ]

  leaf_loop-chunks :
      (fuel off : ℕ)
      → 0 < fuel
      → length payload < off + fuel
      → off < length payload + size
      → leaf_loop fuel size (length payload) payload off
        ≡ some (leaves_of (chunks fuel size (drop off payload)))
  unfolding leaf_loop
  leaf_loop-chunks zero off some_fuel enough near = absurd (omega arith)
  leaf_loop-chunks (suc fuel) off some_fuel enough near =
      elim (Bool-cases (ltb off (length payload))) [
        | inr over ↦ rw (
          over,
          chunks-nil (suc fuel) size (drop off payload) (drop_all off payload (ground arith)),
        )
        | inl more ↦
            let inside : off < length payload = ground arith in
            let left : 0 < length (drop off payload) = omega (arith, length-drop off payload) in
            let next : u32 (off + size) ≡ off + size = omega arith in
            let rest =
              ap (leaf_loop fuel size (length payload) payload) next
              ∙ leaf_loop-chunks fuel (off + size) (omega arith) (omega arith) (omega arith) in
            rw
              (
                more,
                rest,
                chunks-more fuel size (drop off payload) left,
                drop-drop off size (off + size) payload refl,
              )
              (ap
                (λ l. some (hash_leaf l ∷ leaves_of (chunks fuel size (drop (off + size) payload))))
                (block_at-take off inside))
      ]

with_leaves-returns :
    (fuel : ℕ) (s : Seeder) (leaves : List Hash256)
    → leaf_loop fuel s.block_size s.payload_len s.payload 0 ≡ some leaves
    → with_leaves fuel s ≡ some (record s { leaves = leaves; valid = true })
unfolding with_leaves
with_leaves-returns fuel s leaves e = rw (with_leaves, e)

-- The payload view of a parsed package, empty where its pointer is null.
pub view-payload :
    (buf : List ℕ) (pkg : ParsedPackage)
    → IsParsed buf pkg
    → (view pkg.payload ≡ drop 272 buf) × (length (drop 272 buf) ≡ pkg.payload_len)
view-payload buf pkg w = (
  elim (Bool-cases (ltb 0 pkg.payload_len)) [
    | inl more ↦ rw (w.payload, more)
    | inr none_left ↦
        rw (w.payload, none_left)
          (sym (drop_all 272 buf (omega (arith, w.whole, ltb-false 0 pkg.payload_len none_left))))
  ],
  omega (arith, length-drop 272 buf, w.whole),
)

-- The seeder that the constructor returns where it does.
abbrev pub made : ℕ → ParsedPackage → ℕ → ℕ → Seeder
made fuel pkg session size = record (adopt pkg session (fragment_size size)) {
  leaves =
      leaves_of (chunks fuel (u16 (manifest_at (view pkg.manifest)).block_size) (view pkg.payload));
  valid = true;
}

pub new_seeder-made :
    (fuel : ℕ) (buf : List ℕ) (pkg : ParsedPackage) (session size : ℕ)
    → package_parse (some buf) ≡ (ok, pkg)
    → 0 < u16 (manifest_at (view pkg.manifest)).block_size
    → pkg.payload_len + 65536 < 4294967296
    → pkg.payload_len < fuel
    → (length (view pkg.payload) ≡ pkg.payload_len)
      × (new_seeder fuel (some buf) session size ≡ some (made fuel pkg session size))
unfolding new_seeder construct
new_seeder-made fuel buf pkg session size parsed some_size fits enough =
    let w = package_parse-IsParsed buf pkg parsed in
    let (seen, len) = view-payload buf pkg w in
    let here : length (view pkg.payload) ≡ pkg.payload_len = ap length seen ∙ len in
    let total : u32 pkg.payload_len ≡ length (view pkg.payload) = omega (arith, here) in
    let unit = u16 (manifest_at (view pkg.manifest)).block_size in
    let leaves = leaves_of (chunks fuel unit (view pkg.payload)) in
    let loop =
      leaf_loop-chunks unit (view pkg.payload) some_size (omega (arith, here)) fuel 0 (omega arith)
        (omega (arith, here)) (omega (arith, here)) in
    let seeder = adopt pkg session (fragment_size size) in
    let runs : leaf_loop fuel seeder.block_size seeder.payload_len seeder.payload 0 ≡ some leaves =
      unfold adopt in rw total loop in
    (here, rw parsed (with_leaves-returns fuel seeder leaves runs))

-- With a block size that is not 0 modulo 65536 and a payload whose offsets do not wrap around, the
-- constructor of a seeder returns on a package that parses: the seeder is valid, and its leaves are
-- the hashes of the payload cut into blocks of that size.
pub new_seeder-valid :
    (fuel : ℕ) (buf : List ℕ) (pkg : ParsedPackage) (session size : ℕ)
    → package_parse (some buf) ≡ (ok, pkg)
    → 0 < u16 (manifest_at (view pkg.manifest)).block_size
    → pkg.payload_len + 65536 < 4294967296
    → pkg.payload_len < fuel
    → (s : Seeder) × (new_seeder fuel (some buf) session size ≡ some s)
      × (s.valid ≡ true)
      × (s.leaves
          ≡ leaves_of
              (chunks fuel (u16 (manifest_at (view pkg.manifest)).block_size) (view pkg.payload)))
new_seeder-valid fuel buf pkg session size parsed some_size fits enough = (
  made fuel pkg session size,
  (new_seeder-made fuel buf pkg session size parsed some_size fits enough).1,
  refl,
  refl,
)

leaf_loop-stuck :
    (fuel payload_len : ℕ) (payload : List ℕ)
    → 0 < payload_len
    → leaf_loop fuel 0 payload_len payload 0 ≡ none
unfolding leaf_loop
leaf_loop-stuck zero payload_len payload h = refl
leaf_loop-stuck (suc fuel) payload_len payload h =
    ground (arith, leaf_loop-stuck fuel payload_len payload h)

with_leaves-stuck :
    (fuel : ℕ) (s : Seeder) → s.block_size ≡ 0 → 0 < s.payload_len → with_leaves fuel s ≡ none
unfolding with_leaves
with_leaves-stuck fuel s e h = rw (
  with_leaves,
  ap (λ (n : ℕ). leaf_loop fuel n s.payload_len s.payload 0) e,
  leaf_loop-stuck fuel s.payload_len s.payload h,
)

-- On a package that parses, with a payload that is not empty and has fewer than 2^32 bytes, and with a
-- block size of 0 modulo 65536, the constructor of a seeder does not return, whatever the fuel: its leaf loop stays at
-- offset 0.
pub new_seeder-stuck :
    (fuel : ℕ) (buf : List ℕ) (pkg : ParsedPackage) (session size : ℕ)
    → package_parse (some buf) ≡ (ok, pkg)
    → u16 (manifest_at (view pkg.manifest)).block_size ≡ 0
    → 0 < pkg.payload_len
    → pkg.payload_len < 4294967296
    → new_seeder fuel (some buf) session size ≡ none
unfolding new_seeder construct
new_seeder-stuck fuel buf pkg session size parsed no_size more fits =
    let seeder = adopt pkg session (fragment_size size) in
    rw parsed
      (with_leaves-stuck fuel seeder (unfold adopt in no_size) (unfold adopt in omega arith))
