-- ===== src/AdminKeyVerifier/Accepts.antt =====
-- What an accepted manifest means: one of the held keys signed it, in the role of an update.
use ota_common.Common.{
  ℕ, zero, suc, ◌+◌, ◌≤◌, ◌<◌, ◌≡◌, ◌↔◌, arith, inl, inr, true, some, List, length, Bool-cases,
}
use ota_common.Xeddsa.{TweetNacl, xeddsa_verify, signing_buffer}
use ota_common.Xeddsa.Raw.{IsSigned, xeddsa_verify-IsSigned}
use ota_common.AdminKeyVerifier.{AdminKeyVerifier, key_at, verify_from, verify}

module _ {Gf : Type 0} (nacl : TweetNacl Gf) (v : AdminKeyVerifier) where
  abbrev pub Takes : ℕ → List ℕ → List ℕ → Type 0
  Takes i msg sig = xeddsa_verify nacl (key_at v i) 0 0 79 (some msg) sig ≡ true

  verify_from_sound :
      (left i : ℕ) (msg sig : List ℕ)
      → verify_from nacl v left i msg sig ≡ true
      → (j : ℕ) × (i ≤ j) × (j < i + left) × Takes j msg sig
  unfolding verify_from
  verify_from_sound zero i msg sig e = cc
  verify_from_sound (suc left) i msg sig e =
      elim (Bool-cases (xeddsa_verify nacl (key_at v i) 0 0 79 (some msg) sig)) [
        | inl hit ↦ (i, omega arith, omega arith, hit)
        | inr miss ↦
            let (j, low, high, hit) = verify_from_sound left (i + 1) msg sig (ground arith) in
            (j, omega arith, omega arith, hit)
      ]

  verify_from_complete :
      (left i j : ℕ) (msg sig : List ℕ)
      → i ≤ j
      → j < i + left
      → Takes j msg sig
      → verify_from nacl v left i msg sig ≡ true
  unfolding verify_from
  verify_from_complete zero i j msg sig low high hit = absurd (omega arith)
  verify_from_complete (suc left) i j msg sig low high hit =
      elim (Bool-cases (xeddsa_verify nacl (key_at v i) 0 0 79 (some msg) sig)) [
        | inl hit' ↦ rw hit'
        | inr miss ↦
            rw miss
              (verify_from_complete left (i + 1) j msg sig (ground (arith, next)) (omega arith) hit)
      ]
    where
      next : i ≡ j → Takes i msg sig
      next e = rw e hit

  -- The verifier accepts a signature exactly when it has 64 bytes and one of the held keys verifies
  -- it, over the message in the role of an update: with no key held it accepts nothing.
  pub verify_iff :
      (msg sig : List ℕ)
      → (verify nacl v msg sig ≡ true)
        ↔ ((length sig ≡ 64) × ((i : ℕ) × (i < v.count × Takes i msg sig)))
  unfolding verify
  verify_iff msg sig = (
    λ e.
        let (i, low, high, hit) = verify_from_sound v.count 0 msg sig (ground arith) in
        (ground arith, (i, (omega arith, hit))),
    λ (len, (i, (high, hit))).
        ground (arith, verify_from_complete v.count 0 i msg sig (omega arith) (omega arith) hit),
  )

  -- An accepted message is signed, in the sense of TweetNaCl, under the Ed25519 form of a held key.
  pub verify-IsSigned :
      (msg sig : List ℕ)
      → verify nacl v msg sig ≡ true
      → (length sig ≡ 64)
        × ((i : ℕ) × (i < v.count × IsSigned nacl (key_at v i) (signing_buffer 0 0 79 msg) sig))
  verify-IsSigned msg sig e =
      let (len, (i, (held, hit))) = (verify_iff msg sig).0 e in
      (len, (i, (held, (xeddsa_verify-IsSigned nacl (key_at v i) 0 0 79 msg sig hit).1)))
