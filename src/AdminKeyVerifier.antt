-- ===== src/AdminKeyVerifier.antt =====
-- include/ota_common/admin_key_verifier.h: the verifier that holds the node's admin keys.
pub mod Keys
pub mod Accepts
mod Tests
use ota_common.Common.{
  ℕ, zero, suc, ◌+◌, Bool, true, false, ◌||◌, Option, none, some, List, [], ◌∷◌, length, take,
  get_or, set, replicate, leb, ◌==◌, ◌!=◌, if◌then◌else◌,
}
use ota_common.Package.{SignatureVerifier}
use ota_common.Xeddsa.{TweetNacl, signature_len, ota_portnum, xeddsa_verify}

abbrev pub max_keys : ℕ
max_keys = 3

-- `kSignaturePubLen`.
abbrev pub signature_pub_len : ℕ
signature_pub_len = 32

-- `keys` are the three rows of `keys_`, of which `count` are in use.
pub record AdminKeyVerifier : Type 0 where
  pub keys : List (List ℕ)
  pub count : ℕ

abbrev pub no_keys : AdminKeyVerifier
no_keys = record { keys = replicate max_keys []; count = 0 }

pub add_key : AdminKeyVerifier → List ℕ → AdminKeyVerifier × Bool
add_key v key32 = if leb max_keys v.count then (v, false) else (
  record v { keys = set v.keys v.count (take signature_pub_len key32); count = v.count + 1 },
  true,
)

abbrev pub key_at : AdminKeyVerifier → ℕ → List ℕ
key_at v i = get_or v.keys i []

module _ {Gf : Type 0} (nacl : TweetNacl Gf) (v : AdminKeyVerifier) where
  -- The loop of `verify`, with `left` keys from the `i`-th on to try.
  pub verify_from : ℕ → ℕ → List ℕ → List ℕ → Bool
  verify_from zero i msg sig = false
  verify_from (suc left) i msg sig =
      let rest = verify_from left (i + 1) msg sig in
      if xeddsa_verify nacl (key_at v i) 0 0 ota_portnum (some msg) sig then true else rest

  -- `verify`, as the receiver and the package check call it.
  pub verify : SignatureVerifier
  verify msg sig =
      if length sig != signature_len || v.count == 0 then false else verify_from v.count 0 msg sig
