-- ===== src/Wire/Prefix.antt =====
-- A word is read from its own bytes alone.
use ota_common.Common.{ℕ, ◌+◌, ◌≤◌, ◌<◌, ◌≡◌, refl, arith, List, take, get_or-take}
use ota_common.Wire.{byte_at, get16, get32, get32_loop}

pub get16-take : (off n : ℕ) (buf : List ℕ) → off + 2 ≤ n → get16 (take n buf) off ≡ get16 buf off
unfolding get16
get16-take off n buf h =
    rw (get_or-take n off buf 0 (omega arith), get_or-take n (off + 1) buf 0 (omega arith)) refl

pub get32-take : (off n : ℕ) (buf : List ℕ) → off + 4 ≤ n → get32 (take n buf) off ≡ get32 buf off
unfolding get32 get32_loop
get32-take off n buf h =
    rw
      (
        get_or-take n (off + 0) buf 0 (omega arith),
        get_or-take n (off + 1) buf 0 (omega arith),
        get_or-take n (off + 2) buf 0 (omega arith),
        get_or-take n (off + 3) buf 0 (omega arith),
      )
      refl

-- It depends on these bytes alone.
pub get32_ext :
    (off : ℕ) (p q : List ℕ)
    → ((k : ℕ) → k < 4 → byte_at p (off + k) ≡ byte_at q (off + k))
    → get32 p off ≡ get32 q off
unfolding get32 get32_loop
get32_ext off p q same =
    rw (same 0 (omega arith), same 1 (omega arith), same 2 (omega arith), same 3 (omega arith)) refl
