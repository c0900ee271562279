-- ===== src/Sha256/Stream.antt =====
-- What the streaming interface of SHA-256 promises.
use ota_common.Common.{ℕ, ◌≡◌, refl, arith, List, [], ◌∷◌, length, IsBytes}
use ota_common.Sha256.{Sha256, compress, finish, hash, new, process, state_bytes, update}

-- A digest has 32 bytes.
pub length-finish : (s : Sha256) → length (finish s).1 ≡ 32
unfolding finish compress process state_bytes
length-finish s = refl

pub length-hash : (input : List ℕ) → length (hash input) ≡ 32
unfolding hash
length-hash input = length-finish (update new input)

state_bytes-IsBytes : (ws : List ℕ) → IsBytes (state_bytes ws)
unfolding state_bytes
state_bytes-IsBytes [] = tt
state_bytes-IsBytes (w ∷ ws) =
    (omega arith, (omega arith, (omega arith, (omega arith, state_bytes-IsBytes ws))))

-- A digest is made of bytes.
pub finish-IsBytes : (s : Sha256) → IsBytes (finish s).1
unfolding finish
finish-IsBytes s = state_bytes-IsBytes _

pub hash-IsBytes : (input : List ℕ) → IsBytes (hash input)
unfolding hash
hash-IsBytes input = finish-IsBytes (update new input)
