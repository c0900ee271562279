-- ===== src/Xeddsa.antt =====
-- src/xeddsa.cpp, include/ota_common/xeddsa.h and src/vendor_tweetnacl.c: the check of an XEdDSA
-- signature. TweetNaCl is a parameter: its field elements, the operations on them that the code
-- calls, and `crypto_sign_open`.
pub mod Raw
pub mod Buffer
mod Tests
use ota_common.Common.{
  ℕ, zero, suc, ◌+◌, ◌/◌, ◌%◌, ◌^◌, u8, bit_and, Bool, true, false, Option, none, some, List, [],
  ◌∷◌, ◌++◌, length, take, get_or, set, replicate, ltb, ◌==◌, if◌then◌else◌,
}

-- What the code uses of TweetNaCl over its type `gf`. `of_limbs` is the array with these elements,
-- `sub`, `add` and `mul` are `Z`, `A` and `M`. `crypto_sign_open` is given the signed message and
-- the key: `none` where it returns an error, else the recovered message with its length.
pub record TweetNacl (Gf : Type 0) : Type 0 where
  pub of_limbs : List ℕ → Gf
  pub unpack25519 : List ℕ → Gf
  pub sub : Gf → Gf → Gf
  pub add : Gf → Gf → Gf
  pub mul : Gf → Gf → Gf
  pub inv25519 : Gf → Gf
  pub pack25519 : Gf → List ℕ
  pub crypto_sign_open : List ℕ → List ℕ → Option (List ℕ)

-- `OTA_XEDDSA_MAX_MSG`.
abbrev pub max_msg : ℕ
max_msg = 256

abbrev pub signature_len : ℕ
signature_len = 64

abbrev pub xeddsa_max_payload : ℕ
xeddsa_max_payload = 244

abbrev pub ota_portnum : ℕ
ota_portnum = 79

-- The bytes that the stub of `randombytes` writes.
pub randombytes : ℕ → List ℕ
randombytes zero = []
randombytes (suc n) = 0 ∷ randombytes n

pub put_le32 : ℕ → List ℕ
put_le32 v = u8 v ∷ u8 (v / 2 ^ 8) ∷ u8 (v / 2 ^ 16) ∷ u8 (v / 2 ^ 24) ∷ []

-- The signing buffer, up to the length that is passed on with it.
pub signing_buffer : ℕ → ℕ → ℕ → List ℕ → List ℕ
unfolding put_le32
signing_buffer from id portnum payload =
    put_le32 from ++ (put_le32 id ++ (put_le32 portnum ++ payload))

module _ {Gf : Type 0} (nacl : TweetNacl Gf) where
  open nacl use {of_limbs, unpack25519, sub, add, mul, inv25519, pack25519, crypto_sign_open}

  pub one : Gf
  one = of_limbs (1 ∷ replicate 15 0)

  -- The Ed25519 key of a Curve25519 key `u`: `(u - 1) / (u + 1)`, packed, its sign bit cleared.
  pub ed_pub : List ℕ → List ℕ
  unfolding one
  ed_pub curve_pub =
      let u = unpack25519 curve_pub in
      let y = mul (sub u one) (inv25519 (add u one)) in
      let packed = pack25519 y in set packed 31 (bit_and (get_or packed 31 0) 0x7F)

  opened_result : ℕ → Option (List ℕ) → ℕ
  opened_result msg_len none = 0
  opened_result msg_len (some recovered) = if length recovered == msg_len then 1 else 0

  -- `ota_xeddsa_verify_raw`.
  pub xeddsa_verify_raw : List ℕ → List ℕ → List ℕ → ℕ
  unfolding opened_result
  xeddsa_verify_raw curve_pub msg sig =
      if ltb max_msg (length msg)
      then 0
      else opened_result (length msg)
          (crypto_sign_open (take signature_len sig ++ msg) (ed_pub curve_pub))

  pub xeddsa_verify : List ℕ → ℕ → ℕ → ℕ → Option (List ℕ) → List ℕ → Bool
  xeddsa_verify curve_pub from id portnum none sig = false
  xeddsa_verify curve_pub from id portnum (some payload) sig =
      if ltb xeddsa_max_payload (length payload)
      then false
      else xeddsa_verify_raw curve_pub (signing_buffer from id portnum payload) sig == 1
