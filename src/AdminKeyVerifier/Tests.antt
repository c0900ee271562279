-- ===== src/AdminKeyVerifier/Tests.antt =====
-- Three keys, and a toy TweetNaCl whose signatures are opened under any key.
use ota_common.Common.{
  ℕ, ◌+◌, ◌<◌, ◌≡◌, ◌↔◌, refl, arith, true, false, none, some, List, [], ◌∷◌, length, take, drop,
  replicate, ltb, if◌then◌else◌,
}
use ota_common.Xeddsa.{TweetNacl}
use ota_common.AdminKeyVerifier.{AdminKeyVerifier, add_key, key_at, verify}
use ota_common.AdminKeyVerifier.Keys.{IsTable, add_key-IsTable}
use ota_common.AdminKeyVerifier.Accepts.{Takes, verify_iff}

abbrev toy : TweetNacl ℕ
toy = record {
  of_limbs = λ limbs. length limbs;
  unpack25519 = λ key. length key;
  sub = λ x y. x;
  add = λ x y. x;
  mul = λ x y. x;
  inv25519 = λ x. x;
  pack25519 = λ x. replicate 32 x;
  crypto_sign_open = λ sm key. if ltb (length sm) 64 then none else some (drop 64 sm);
}

abbrev two_keys : AdminKeyVerifier
two_keys = record { keys = replicate 32 1 ∷ replicate 32 2 ∷ [] ∷ []; count = 2 }

two_keys-IsTable : IsTable two_keys
two_keys-IsTable = record { rows = refl; within = omega arith }

abbrev third_key : List ℕ
third_key = replicate 32 3

add_key-IsTable_example :
    let (v', done) = add_key two_keys third_key in
    IsTable v'
    × (2 < 3
        → (done ≡ true)
          × (v'.count ≡ 2 + 1)
          × (key_at v' 2 ≡ take 32 third_key)
          × ((i : ℕ) → i < 2 → key_at v' i ≡ key_at two_keys i))
    × (two_keys.count ≡ 3 → (done ≡ false) × (v' ≡ two_keys))
add_key-IsTable_example = add_key-IsTable two_keys third_key two_keys-IsTable

verify_iff_example : (verify toy two_keys (7 ∷ []) (replicate 64 5) ≡ true) ↔ (
    (length (replicate {A = ℕ} 64 5) ≡ 64)
    × ((i : ℕ) × (i < 2 × Takes toy two_keys i (7 ∷ []) (replicate 64 5))))
verify_iff_example = verify_iff toy two_keys (7 ∷ []) (replicate 64 5)
