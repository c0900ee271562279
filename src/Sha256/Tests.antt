-- ===== src/Sha256/Tests.antt =====
-- The digest of a concrete message.
use ota_common.Common.{◌≡◌, refl, [], ◌∷◌}
use ota_common.Sha256.{hash, compress, finish, new}
use ota_common.Sha256.Spec.{digest}
use ota_common.Sha256.Digest.{concat, update_all, update_all-hash, hash_lem}

-- The message "abc" of the standard.
abc_digest :
    hash (97 ∷ 98 ∷ 99 ∷ [])
    ≡ 186 ∷ 120 ∷ 22 ∷ 191 ∷ 143 ∷ 1 ∷ 207 ∷ 234 ∷ 65 ∷ 65 ∷ 64 ∷ 222 ∷ 93 ∷ 174 ∷ 34 ∷ 35 ∷ 176 ∷ 3
      ∷ 97 ∷ 163 ∷ 150 ∷ 23 ∷ 122 ∷ 156 ∷ 180 ∷ 16 ∷ 255 ∷ 97 ∷ 242 ∷ 0 ∷ 21 ∷ 173 ∷ []
unfolding hash compress
abc_digest = refl

hash_lem_example : hash (97 ∷ 98 ∷ 99 ∷ []) ≡ digest (97 ∷ 98 ∷ 99 ∷ [])
hash_lem_example = hash_lem (97 ∷ 98 ∷ 99 ∷ [])

update_all-hash_example :
    (finish (update_all new ((97 ∷ []) ∷ ((98 ∷ 99 ∷ []) ∷ [])))).1 ≡ hash (97 ∷ 98 ∷ 99 ∷ [])
unfolding concat
update_all-hash_example = update_all-hash ((97 ∷ []) ∷ ((98 ∷ 99 ∷ []) ∷ []))
