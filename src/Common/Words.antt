-- ===== src/Common/Words.antt =====
-- Unsigned machine words as native numbers: casts, shifts, and the 64-bit size_t.
use Prim.Native.Nat.{ℕ, ◌+◌, ◌-◌, ◌%◌, ◌<◌}
use mathlib.Core.Path.{sym, subst}
use mathlib.Core.List.{List, [], ◌∷◌, ◌++◌}
use ota_common.Common.Lists.{take, drop}
use ota_common.Common.Slices.{take-append-drop}

abbrev pub u8 : ℕ → ℕ
u8 n = n % 256

abbrev pub u16 : ℕ → ℕ
u16 n = n % 65536

abbrev pub u32 : ℕ → ℕ
u32 n = n % 4294967296

abbrev pub u64 : ℕ → ℕ
u64 n = n % 18446744073709551616

-- `static_cast<uint32_t>(a - b)` of unsigned operands: `-` on ℕ stops at 0.
abbrev pub sub32 : ℕ → ℕ → ℕ
sub32 a b = (a + 4294967296 - b) % 4294967296

-- Every element fits a byte.
abbrev pub IsBytes : List ℕ → Type 0
IsBytes [] = Unit {0}
IsBytes (x ∷ xs) = (x < 256) × IsBytes xs

pub IsBytes-append : (xs ys : List ℕ) → IsBytes xs → IsBytes ys → IsBytes (xs ++ ys)
IsBytes-append [] ys p q = q
IsBytes-append (x ∷ xs) ys p q = (p.0, IsBytes-append xs ys p.1 q)

pub IsBytes-split : (xs ys : List ℕ) → IsBytes (xs ++ ys) → IsBytes xs × IsBytes ys
IsBytes-split [] ys w = (tt, w)
IsBytes-split (x ∷ xs) ys w = let (l, r) = IsBytes-split xs ys w.1 in ((w.0, l), r)

pub IsBytes-take : (n : ℕ) (p : List ℕ) → IsBytes p → IsBytes (take n p)
IsBytes-take n p w =
    (IsBytes-split (take n p) (drop n p) (subst IsBytes (sym (take-append-drop n p)) w)).0

pub IsBytes-drop : (n : ℕ) (p : List ℕ) → IsBytes p → IsBytes (drop n p)
IsBytes-drop n p w =
    (IsBytes-split (take n p) (drop n p) (subst IsBytes (sym (take-append-drop n p)) w)).1
