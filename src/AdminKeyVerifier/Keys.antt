-- ===== src/AdminKeyVerifier/Keys.antt =====
-- The table of keys never holds more than three.
use ota_common.Common.{
  ℕ, ◌+◌, ◌≤◌, ◌<◌, ◌≡◌, arith, true, false, List, [], length, take, get_or, set, length-set,
  get_or-set_self, get_or-set_ne,
}
use ota_common.AdminKeyVerifier.{AdminKeyVerifier, add_key, key_at}

pub record IsTable (v : AdminKeyVerifier) : Type 0 where
  pub rows : length v.keys ≡ 3
  pub within : v.count ≤ 3

kept :
    (keys : List (List ℕ)) (n : ℕ) (key : List ℕ) (i : ℕ)
    → i < n
    → get_or (set keys n key) i [] ≡ get_or keys i []
kept keys n key i h = get_or-set_ne keys n i key [] (omega arith)

-- A table with room takes a key at the end, leaves the keys before it, and stays within its three
-- rows; a full one refuses the key and stays as it is.
pub add_key-IsTable :
    (v : AdminKeyVerifier) (key : List ℕ)
    → IsTable v
    → let (v', done) = add_key v key in
      IsTable v'
      × (v.count < 3
          → (done ≡ true)
            × (v'.count ≡ v.count + 1)
            × (key_at v' v.count ≡ take 32 key)
            × ((i : ℕ) → i < v.count → key_at v' i ≡ key_at v i))
      × (v.count ≡ 3 → (done ≡ false) × (v' ≡ v))
unfolding add_key
add_key-IsTable v key w = ground (
  arith,
  length-set v.keys v.count (take 32 key),
  get_or-set_self v.keys v.count (take 32 key) [],
  kept v.keys v.count (take 32 key),
)
