-- ===== src/Xeddsa/Raw.antt =====
-- What an accepted signature means in terms of `crypto_sign_open`.
use ota_common.Common.{
  ℕ, ◌≤◌, ◌≡◌, ap, ◌∙◌, arith, some, List, ◌++◌, length, take, drop, inl, inr, Option-cases,
  length-take, drop_left, le→ltb, ◌↔◌, true,
}
use ota_common.Xeddsa.{TweetNacl, ed_pub, xeddsa_verify_raw, xeddsa_verify, signing_buffer}

-- What TweetNaCl documents of `crypto_sign_open`: a signed message that is opened has the 64 bytes
-- of the signature, and the recovered message is what stands behind them.
pub record Opens {Gf : Type 0} (nacl : TweetNacl Gf) : Type 0 where
  pub recovered : (sm key m : List ℕ) → nacl.crypto_sign_open sm key ≡ some m → m ≡ drop 64 sm

module _ {Gf : Type 0} (nacl : TweetNacl Gf) where
  -- The Ed25519 signature `sig` over the buffer is valid under the key that the Curve25519 key maps to.
  abbrev pub IsSigned : List ℕ → List ℕ → List ℕ → Type 0
  IsSigned curve_pub msg sig =
      (m : List ℕ) × (nacl.crypto_sign_open (take 64 sig ++ msg) (ed_pub nacl curve_pub) ≡ some m)

  pub xeddsa_verify_raw-IsSigned :
      (curve_pub msg sig : List ℕ)
      → xeddsa_verify_raw nacl curve_pub msg sig ≡ 1
      → (length msg ≤ 256) × IsSigned curve_pub msg sig
  unfolding xeddsa_verify_raw
  xeddsa_verify_raw-IsSigned curve_pub msg sig e =
      elim (Option-cases (nacl.crypto_sign_open (take 64 sig ++ msg) (ed_pub nacl curve_pub))) [
        | inl refused ↦ absurd (ground (arith, refused))
        | inr (m, opened) ↦ (ground arith, (m, opened))
      ]

  -- Where `crypto_sign_open` recovers the message behind a signature, the raw check of a 64-byte
  -- signature accepts exactly the messages of at most 256 bytes that it opens: the comparison of the
  -- lengths refuses nothing.
  pub xeddsa_verify_raw_iff :
      (curve_pub msg sig : List ℕ)
      → Opens nacl
      → length sig ≡ 64
      → (xeddsa_verify_raw nacl curve_pub msg sig ≡ 1)
        ↔ ((length msg ≤ 256) × IsSigned curve_pub msg sig)
  unfolding xeddsa_verify_raw
  xeddsa_verify_raw_iff curve_pub msg sig w len = (
    xeddsa_verify_raw-IsSigned curve_pub msg sig,
    λ (fits, (m, opened)).
        let whole : m ≡ msg =
          w.recovered (take 64 sig ++ msg) (ed_pub nacl curve_pub) m opened
          ∙ drop_left 64 (take 64 sig) msg (omega (arith, length-take 64 sig)) in
        let same : length m ≡ length msg = ap length whole in
        rw (le→ltb 256 (length msg) fits, opened) (ground (arith, same)),
  )

  -- An accepted message is of a payload of at most 244 bytes, behind the 12 bytes of its role.
  pub xeddsa_verify-IsSigned :
      (curve_pub : List ℕ) (from id portnum : ℕ) (payload sig : List ℕ)
      → xeddsa_verify nacl curve_pub from id portnum (some payload) sig ≡ true
      → (length payload ≤ 244) × IsSigned curve_pub (signing_buffer from id portnum payload) sig
  unfolding xeddsa_verify
  xeddsa_verify-IsSigned curve_pub from id portnum payload sig e =
      let accepted : xeddsa_verify_raw nacl curve_pub (signing_buffer from id portnum payload) sig
          ≡ 1 =
        ground arith in
      (ground arith, (xeddsa_verify_raw-IsSigned curve_pub _ sig accepted).1)

  pub xeddsa_verify-accepts :
      (curve_pub : List ℕ) (from id portnum : ℕ) (payload sig : List ℕ)
      → length payload ≤ 244
      → xeddsa_verify_raw nacl curve_pub (signing_buffer from id portnum payload) sig ≡ 1
      → xeddsa_verify nacl curve_pub from id portnum (some payload) sig ≡ true
  unfolding xeddsa_verify
  xeddsa_verify-accepts curve_pub from id portnum payload sig fits accepted = ground arith
