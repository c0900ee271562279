-- ===== src/Receiver/Kept.antt =====
-- A manifest unit that arrives whole and passes the checks is kept.
use ota_common.Common.{
  ℕ, ◌≤◌, ◌<◌, ◌≡◌, refl, sym, ap, subst, ◌∙◌, arith, true, false, ◌||◌, Option, List, length, u16,
  ltb, ◌==◌, ◌!=◌, ◌⊎◌, inl, inr, Bool-cases,
}
use native.Mathlib.Nat.{mod-eq_of_lt}
use ota_common.Wire.{manifest, index_manifest}
use ota_common.Manifest.{Manifest, manifest_at}
use ota_common.Package.{SignatureVerifier}
use ota_common.Reassembler.{Reassembler}
use ota_common.BlockStore.{BlockStore}
use ota_common.Receiver.{
  Receiver, next_needed_block, adopt_geometry, signature_ok, install, cross_check, accept_manifest,
  feed_manifest, on_frame,
}
use ota_common.Receiver.Units.{Unsigned, manifest_arrives}
use ota_common.Transfer.{fragments, take_all_frames}
use ota_common.Receiver.Frames.{request_next-SameBut, request_next-ends}

-- The bytes pass the checks of `handle_manifest`.
pub record IsSound (verifier : Option SignatureVerifier) (raw : List ℕ) : Type 0 where
  pub long_enough : 192 ≤ length raw
  pub magic : (manifest_at raw).magic ≡ 0x4E414D4D
  pub format : (manifest_at raw).format ≡ 1
  pub signed : signature_ok verifier raw ≡ true

module _ {S : Type 0} (ops : BlockStore S) (verifier : Option SignatureVerifier) where
  -- The receiver holds the manifest and goes on to the blocks.
  pub record IsKept (m : Manifest) (r r' : Receiver S) : Type 0 where
    pub ready : r'.manifest_ready ≡ true
    pub copied : r'.manifest_copy ≡ m
    pub rooted : r'.merkle_root.bytes ≡ m.payload_merkle_root
    pub counted : r'.block_count ≡ u16 m.block_count
    pub ours : r'.session ≡ r.session
    pub live : r'.aborted ≡ r.aborted
    pub same_store : r'.store ≡ r.store
    pub same_blocks : r'.ready_blocks ≡ r.ready_blocks
    pub ends : r'.complete ≡ (next_needed_block ops verifier r' == index_manifest)

  -- The geometry of a START, where one has come, is the manifest's.
  pub record IsSameGeometry (m : Manifest) (r : Receiver S) : Type 0 where
    pub size : m.block_size ≡ r.block_size
    pub count : m.block_count ≡ r.block_count
    pub len : m.payload_length ≡ r.payload_length
    pub few : m.block_count < 65536

  abbrev pub Agrees : Manifest → Receiver S → Type 0
  Agrees m r = (r.have_geometry ≡ false) ⊎ IsSameGeometry m r

  accept_manifest-cross_check :
      (raw : List ℕ) (r : Receiver S)
      → IsSound verifier raw
      → accept_manifest ops verifier raw r ≡ cross_check ops verifier (manifest_at raw) r
  unfolding accept_manifest
  accept_manifest-cross_check raw r w =
      let long : ltb (length raw) 192 ≡ false = ground (arith, w.long_enough) in
      let good : ((manifest_at raw).magic != 0x4E414D4D || (manifest_at raw).format != 1) ≡ false =
        ground (arith, w.magic, w.format) in
      rw (long, good, w.signed) refl

  install-IsKept :
      (m : Manifest) (r : Receiver S)
      → r.complete ≡ false
      → r.block_count ≡ u16 m.block_count
      → IsKept m r (install ops verifier m r)
  unfolding install
  install-IsKept m r running counted =
      let same = request_next-SameBut ops verifier _ in
      record {
        ready = same.manifest_ready;
        copied = same.manifest_copy;
        rooted = ap (λ h. h.bytes) same.merkle_root;
        counted = same.block_count ∙ counted;
        ours = same.session;
        live = same.aborted;
        same_store = same.store;
        same_blocks = same.ready_blocks;
        ends = request_next-ends ops verifier _ refl running;
      }

  adopted-IsKept :
      (m : Manifest) (r : Receiver S)
      → r.complete ≡ false
      → IsKept m r (install ops verifier m (adopt_geometry ops verifier m r))
  unfolding adopt_geometry
  adopted-IsKept m r running =
      let k = install-IsKept m (adopt_geometry ops verifier m r) running refl in
      record {
        ready = k.ready;
        copied = k.copied;
        rooted = k.rooted;
        counted = k.counted;
        ours = k.ours;
        live = k.live;
        same_store = k.same_store;
        same_blocks = k.same_blocks;
        ends = k.ends;
      }

  cross_check-IsKept :
      (m : Manifest) (r : Receiver S)
      → r.complete ≡ false
      → Agrees m r
      → IsKept m r (cross_check ops verifier m r)
  unfolding cross_check
  cross_check-IsKept m r running agrees = elim (Bool-cases r.have_geometry) [
    | inr unknown ↦ simp unknown (adopted-IsKept m r running)
    | inl known ↦ elim agrees [
      | inl unknown ↦ ground (arith, known, unknown)
      | inr g ↦
          let fits : u16 m.block_count ≡ m.block_count = mod-eq_of_lt g.few in
          let same : (m.block_size != r.block_size
                || (m.block_count != r.block_count || m.payload_length != r.payload_length))
              ≡ false =
            ground (arith, g.size, g.count, g.len) in
          simp (known, same) (install-IsKept m r running (sym g.count ∙ sym fits))
    ]
  ]

  feed_manifest-IsKept :
      (raw : List ℕ) (r : Receiver S) (re : Reassembler)
      → IsSound verifier raw
      → Agrees (manifest_at raw) r
      → r.complete ≡ false
      → re.buf ≡ raw
      → IsKept (manifest_at raw) r (feed_manifest ops verifier (re, true) r)
  unfolding feed_manifest
  feed_manifest-IsKept raw r re w agrees running bytes =
      let q = record r { manifest_re = re } in
      let k = cross_check-IsKept (manifest_at raw) q running (still_agrees agrees) in
      subst (IsKept (manifest_at raw) r)
        (sym
          (ap (λ b. accept_manifest ops verifier b q) bytes ∙ accept_manifest-cross_check raw q w))
        (record {
          ready = k.ready;
          copied = k.copied;
          rooted = k.rooted;
          counted = k.counted;
          ours = k.ours;
          live = k.live;
          same_store = k.same_store;
          same_blocks = k.same_blocks;
          ends = k.ends;
        })
    where
      still_agrees :
          Agrees (manifest_at raw) r → Agrees (manifest_at raw) (record r { manifest_re = re })
      still_agrees (inl unknown) = inl unknown
      still_agrees (inr g) =
          inr (record { size = g.size; count = g.count; len = g.len; few = g.few })

  -- A manifest unit of fewer than 65536 bytes that passes the checks, sent in fragments to a receiver
  -- that has none, and no START or one with the same geometry, is kept.
  pub manifest-IsKept :
      (session frag : ℕ) (raw : List ℕ) (r : Receiver S)
      → session < 256
      → 0 < frag
      → length raw < 65536
      → IsSound verifier raw
      → Unsigned ops verifier session r
      → Agrees (manifest_at raw) r
      → IsKept (manifest_at raw) r (
          take_all_frames
            (on_frame ops verifier)
            (fragments manifest session index_manifest raw frag (length raw) 0)
            r)
  manifest-IsKept session frag raw r sf some_frag small w wanted agrees =
      let (re, bytes, runs) =
        manifest_arrives ops verifier session index_manifest raw sf (omega arith) small frag r
          some_frag (omega (arith, w.long_enough)) wanted in
      subst (IsKept (manifest_at raw) r) (sym runs)
        (feed_manifest-IsKept raw r re w agrees wanted.opened.running bytes)
