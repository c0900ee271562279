-- ===== src/Xeddsa/Buffer.antt =====
-- The signing buffer separates domains: it determines what was signed, and in which role.
use ota_common.Common.{ℕ, ◌+◌, ◌<◌, ◌≡◌, arith, List, ◌++◌, length}
use ota_common.Xeddsa.{put_le32, signing_buffer}

put_le32-inj :
    (v w : ℕ) (xs ys : List ℕ)
    → v < 4294967296
    → w < 4294967296
    → put_le32 v ++ xs ≡ put_le32 w ++ ys
    → (v ≡ w) × (xs ≡ ys)
unfolding put_le32
put_le32-inj v w xs ys hv hw e = ground arith

pub length-signing_buffer :
    (from id portnum : ℕ) (payload : List ℕ)
    → length (signing_buffer from id portnum payload) ≡ 12 + length payload
unfolding signing_buffer
length-signing_buffer from id portnum payload = omega arith

-- Two signing buffers of `uint32_t` numbers are equal only where sender, message id, port number and
-- payload are: a signature of one role is over no buffer of another.
pub signing_buffer_inj :
    (from id portnum from' id' portnum' : ℕ) (payload payload' : List ℕ)
    → from < 4294967296
    → id < 4294967296
    → portnum < 4294967296
    → from' < 4294967296
    → id' < 4294967296
    → portnum' < 4294967296
    → signing_buffer from id portnum payload ≡ signing_buffer from' id' portnum' payload'
    → (from ≡ from') × (id ≡ id') × (portnum ≡ portnum') × (payload ≡ payload')
unfolding signing_buffer
signing_buffer_inj from id portnum from' id' portnum' payload payload' a b c a' b' c' e =
    let (f, e₁) = put_le32-inj from from' _ _ a a' e in
    let (i, e₂) = put_le32-inj id id' _ _ b b' e₁ in
    let (p, e₃) = put_le32-inj portnum portnum' _ _ c c' e₂ in (f, i, p, e₃)
