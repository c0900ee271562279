-- ===== src/Receiver/Installed.antt =====
-- Requests, a START and a manifest leave what the receiver keeps of blocks and proofs made of bytes.
use ota_common.Common.{
  ℕ, ◌≡◌, arith, inl, inr, Bool, true, false, ◌||◌, not, Option, none, some, List, length, ltb,
  ◌!=◌, Bool-cases,
}
use ota_common.Wire.{OtaStartInfo, start_info_unpack}
use ota_common.Manifest.{Manifest, manifest_at, manifest_size, manifest_magic, manifest_format}
use ota_common.Package.{SignatureVerifier}
use ota_common.Reassembler.{Reassembler}
use ota_common.BlockStore.{BlockStore}
use ota_common.Receiver.{
  Receiver, signature_ok, refuse, adopt_geometry, send_simple, send_request, request_block,
  request_next, poll, set_geometry, handle_start, install, cross_check, accept_manifest,
  feed_manifest,
}
use ota_common.Receiver.Cases.{poll-cases}
use ota_common.Receiver.Octets.{HasOctets}

module _ {S : Type 0} (ops : BlockStore S) (verifier : Option SignatureVerifier) where
  -- Two states that keep the same of the frames.
  record KeepsSame (r r' : Receiver S) : Type 0 where
    block_unit : r'.block_re.buf ≡ r.block_re.buf
    proof_unit : r'.proof_re.buf ≡ r.proof_re.buf
    blocks : r'.ready_blocks ≡ r.ready_blocks
    proofs : r'.proofs ≡ r.proofs

  same-HasOctets : (r r' : Receiver S) → KeepsSame r r' → HasOctets r → HasOctets r'
  same-HasOctets r r' same w = record {
    block_unit = rw same.block_unit w.block_unit;
    proof_unit = rw same.proof_unit w.proof_unit;
    blocks = rw same.blocks w.blocks;
    proofs = rw same.proofs w.proofs;
  }

  request_next-KeepsSame : (r : Receiver S) → KeepsSame r (request_next ops verifier r)
  unfolding request_next request_block send_request send_simple
  request_next-KeepsSame r = ground arith

  pub request_next-HasOctets :
      (r : Receiver S) → HasOctets r → HasOctets (request_next ops verifier r)
  request_next-HasOctets r w =
      same-HasOctets r (request_next ops verifier r) (request_next-KeepsSame r) w

  pub poll-HasOctets : (r : Receiver S) → HasOctets r → HasOctets (poll ops verifier r)
  poll-HasOctets r w = poll-cases ops verifier HasOctets r w (λ running. request_next-HasOctets r w)

  install-HasOctets :
      (m : Manifest) (r : Receiver S) → HasOctets r → HasOctets (install ops verifier m r)
  unfolding install
  install-HasOctets m r w = request_next-HasOctets _ (record {
    block_unit = w.block_unit;
    proof_unit = w.proof_unit;
    blocks = w.blocks;
    proofs = w.proofs;
  })

  pub refuse-HasOctets : (r : Receiver S) → HasOctets r → HasOctets (refuse ops verifier r)
  unfolding refuse
  refuse-HasOctets r w = record {
    block_unit = w.block_unit;
    proof_unit = w.proof_unit;
    blocks = w.blocks;
    proofs = w.proofs;
  }

  adopt_geometry-HasOctets :
      (m : Manifest) (r : Receiver S) → HasOctets r → HasOctets (adopt_geometry ops verifier m r)
  unfolding adopt_geometry
  adopt_geometry-HasOctets m r w = record {
    block_unit = w.block_unit;
    proof_unit = w.proof_unit;
    blocks = w.blocks;
    proofs = w.proofs;
  }

  cross_check-HasOctets :
      (m : Manifest) (r : Receiver S) → HasOctets r → HasOctets (cross_check ops verifier m r)
  unfolding cross_check
  cross_check-HasOctets m r w = elim (Bool-cases r.have_geometry) [
    | inr unknown ↦ simp unknown (install-HasOctets m _ (adopt_geometry-HasOctets m r w))
    | inl known ↦
        elim (Bool-cases (
          m.block_size != r.block_size
          || (m.block_count != r.block_count || m.payload_length != r.payload_length))) [
            | inl other ↦ simp (known, other) (refuse-HasOctets r w)
            | inr same ↦ simp (known, same) (install-HasOctets m r w)
          ]
  ]

  accept_manifest-HasOctets :
      (buf : List ℕ) (r : Receiver S) → HasOctets r → HasOctets (accept_manifest ops verifier buf r)
  unfolding accept_manifest
  accept_manifest-HasOctets buf r w =
      let m = manifest_at buf in
      elim (Bool-cases (ltb (length buf) manifest_size)) [
        | inl short ↦ simp short (refuse-HasOctets r w)
        | inr long ↦ elim (Bool-cases (m.magic != manifest_magic || m.format != manifest_format)) [
          | inl foreign ↦ simp (long, foreign) (refuse-HasOctets r w)
          | inr ours ↦ elim (Bool-cases (not (signature_ok verifier buf))) [
            | inl bad ↦ simp (long, ours, bad) (refuse-HasOctets r w)
            | inr good ↦ simp (long, ours, good) (cross_check-HasOctets m r w)
          ]
        ]
      ]

  pub feed_manifest-HasOctets :
      (re : Reassembler) (complete : Bool) (r : Receiver S)
      → HasOctets r
      → HasOctets (feed_manifest ops verifier (re, complete) r)
  unfolding feed_manifest
  feed_manifest-HasOctets re complete r w = go complete
    where
      q : HasOctets (record r { manifest_re = re })
      q = record {
        block_unit = w.block_unit;
        proof_unit = w.proof_unit;
        blocks = w.blocks;
        proofs = w.proofs;
      }

      go : (c : Bool) → HasOctets (feed_manifest ops verifier (re, c) r)
      go true = accept_manifest-HasOctets re.buf _ q
      go false = q

  pub handle_start-HasOctets :
      (p : List ℕ) (r : Receiver S) → HasOctets r → HasOctets (handle_start ops verifier p r)
  unfolding handle_start
  handle_start-HasOctets p r w = go (start_info_unpack (some p))
    where
      go : (s : Option OtaStartInfo) → HasOctets (set_geometry ops verifier s r)
      go none = unfold set_geometry in w
      go (some s) =
          unfold set_geometry in
          request_next-HasOctets _ (record {
            block_unit = w.block_unit;
            proof_unit = w.proof_unit;
            blocks = w.blocks;
            proofs = w.proofs;
          })
