-- ===== src/CString.antt =====
-- The comparison of fixed-width text fields by `strncmp`: `field_equal` of src/trailer.cpp and
-- `field_eq` of src/package.cpp.
pub mod Laws
use ota_common.Common.{
  ℕ, zero, suc, Bool, true, false, ◌&&◌, ◌||◌, List, [], ◌∷◌, ◌==◌, if◌then◌else◌,
}

-- `strncmp(a, b, n) == 0`: the texts agree up to the first NUL, and in `n` bytes at most. The end
-- of a list counts as a NUL.
pub strncmp_eq : ℕ → List ℕ → List ℕ → Bool
strncmp_eq zero a b = true
strncmp_eq (suc n) [] [] = true
strncmp_eq (suc n) [] (y ∷ b) = y == 0
strncmp_eq (suc n) (x ∷ a) [] = x == 0
strncmp_eq (suc n) (x ∷ a) (y ∷ b) = x == y && (x == 0 || strncmp_eq n a b)

-- The text that a field of `n` bytes holds.
pub field_text : ℕ → List ℕ → List ℕ
field_text zero a = []
field_text (suc n) [] = []
field_text (suc n) (x ∷ a) = if x == 0 then [] else x ∷ field_text n a

pub field_equal : ℕ → List ℕ → List ℕ → Bool
unfolding strncmp_eq
field_equal n a b = strncmp_eq n a b
