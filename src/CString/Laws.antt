-- ===== src/CString/Laws.antt =====
-- `strncmp` finds two fields equal exactly when they hold the same text.
use ota_common.Common.{ℕ, zero, suc, ◌≡◌, refl, arith, true, List, [], ◌∷◌, ◌↔◌}
use ota_common.CString.{strncmp_eq, field_text, field_equal}

strncmp_eq-field_text :
    (n : ℕ) (a b : List ℕ) → strncmp_eq n a b ≡ true → field_text n a ≡ field_text n b
unfolding strncmp_eq field_text
strncmp_eq-field_text zero a b e = refl
strncmp_eq-field_text (suc n) [] [] e = refl
strncmp_eq-field_text (suc n) [] (y ∷ b) e = ground arith
strncmp_eq-field_text (suc n) (x ∷ a) [] e = ground arith
strncmp_eq-field_text (suc n) (x ∷ a) (y ∷ b) e = ground (arith, strncmp_eq-field_text n a b)

field_text-strncmp_eq :
    (n : ℕ) (a b : List ℕ) → field_text n a ≡ field_text n b → strncmp_eq n a b ≡ true
unfolding strncmp_eq field_text
field_text-strncmp_eq zero a b e = refl
field_text-strncmp_eq (suc n) [] [] e = refl
field_text-strncmp_eq (suc n) [] (y ∷ b) e = ground arith
field_text-strncmp_eq (suc n) (x ∷ a) [] e = ground arith
field_text-strncmp_eq (suc n) (x ∷ a) (y ∷ b) e = ground (arith, field_text-strncmp_eq n a b)

pub field_equal_iff :
    (n : ℕ) (a b : List ℕ) → (field_equal n a b ≡ true) ↔ (field_text n a ≡ field_text n b)
unfolding field_equal
field_equal_iff n a b = (strncmp_eq-field_text n a b, field_text-strncmp_eq n a b)
