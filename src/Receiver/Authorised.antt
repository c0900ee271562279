-- ===== src/Receiver/Authorised.antt =====
-- A receiver with the verifier of include/ota_common/admin_key_verifier.h, and any series of frames
-- and polls.
mod Tests
use ota_common.Common.{
  ℕ, ◌+◌, ◌≡◌, ◌<◌, arith, true, some, List, length, take, drop, ◌∙◌, ap, length-drop,
}
use ota_common.Manifest.{manifest_at, manifest_size}
use ota_common.Xeddsa.{TweetNacl, signing_buffer}
use ota_common.Xeddsa.Raw.{IsSigned}
use ota_common.AdminKeyVerifier.{AdminKeyVerifier, key_at, verify}
use ota_common.AdminKeyVerifier.Accepts.{verify-IsSigned}
use ota_common.BlockStore.{BlockStore}
use ota_common.Receiver.{Receiver}
use ota_common.Receiver.Runs.{Reachable, PutUnder, Reachable-verified}

module _ {Gf S : Type 0} (nacl : TweetNacl Gf) (v : AdminKeyVerifier) (ops : BlockStore S)
    (initial : S) where
  -- The manifest held was read from bytes that an admin key of the node signed.
  pub record Authorised (r : Receiver S) : Type 0 where
    pub raw : List ℕ
    pub read : r.manifest_copy ≡ manifest_at raw
    pub whole : length raw ≡ manifest_size + 64
    pub key : ℕ
    pub held : key < v.count
    pub signed :
        IsSigned nacl
          (key_at v key)
          (signing_buffer 0 0 79 (take manifest_size raw))
          (drop manifest_size raw)
    pub rooted : r.merkle_root.bytes ≡ (manifest_at raw).payload_merkle_root
    pub puts : PutUnder ops (some (verify nacl v)) initial r.merkle_root r.store

  -- Whatever frames have come: a manifest that the receiver holds was read from 256 bytes, of which
  -- the last 64 are a signature of the first 192, in the role of an update, that opens under a held
  -- key; and every block put into the store was tied by its proof to the root in that manifest.
  pub Reachable-Authorised :
      (session : ℕ) (r : Receiver S)
      → Reachable ops (some (verify nacl v)) initial session r
      → r.manifest_ready ≡ true
      → Authorised r
  Reachable-Authorised session r way ready =
      let (accepted, puts) =
        (Reachable-verified ops (some (verify nacl v)) initial session r way).1.0 ready in
      let raw = accepted.raw in
      let (len, (i, (held, signed))) =
        verify-IsSigned nacl v (take 192 raw) (drop 192 raw) accepted.signed in
      record {
        raw = raw;
        read = accepted.read;
        whole = omega (arith, len, length-drop 192 raw);
        key = i;
        held = held;
        signed = signed;
        rooted = accepted.rooted ∙ ap (λ m. m.payload_merkle_root) accepted.read;
        puts = puts;
      }
