-- ===== src/Wire/Layout.antt =====
-- Structs in memory: the parts of a layout in order, and the fields read back at their offsets.
use ota_common.Common.{
  ℕ, zero, suc, ◌+◌, ◌*◌, ◌/◌, ◌%◌, ◌<◌, ◌≤◌, u8, u32, u16, ◌≡◌, refl, sym, ap, ◌∙◌, arith, List,
  [], ◌∷◌, ◌++◌, append_assoc, append-nil, length, take, drop, slice, get_or, length-append,
  take_left, drop_left, drop-drop, IsBytes, IsBytes-append,
}
use ota_common.Wire.{byte_at, put16, get16, put32, get32}
use ota_common.Wire.Words.{get16_packed, get32_packed, length-put16, length-put32}

-- The parts one behind the other.
abbrev pub concat : List (List ℕ) → List ℕ
concat [] = []
concat (p ∷ ps) = p ++ concat ps

abbrev pub size_of : List (List ℕ) → ℕ
size_of [] = 0
size_of (p ∷ ps) = length p + size_of ps

-- For the offsets of fields.
pub ruleset sizes = (arith, length-put16, length-put32)

pub length-concat : (ps : List (List ℕ)) → length (concat ps) ≡ size_of ps
length-concat [] = refl
length-concat (p ∷ ps) = omega (arith, length-append p (concat ps), length-concat ps)

abbrev pub AreBytes : List (List ℕ) → Type 0
AreBytes [] = Unit {0}
AreBytes (p ∷ ps) = IsBytes p × AreBytes ps

pub concat-IsBytes : (ps : List (List ℕ)) → AreBytes ps → IsBytes (concat ps)
concat-IsBytes [] h = tt
concat-IsBytes (p ∷ ps) h = IsBytes-append p (concat ps) h.0 (concat-IsBytes ps h.1)

get_or-drop : (xs : List ℕ) (off i j : ℕ) → off + i ≡ j → get_or xs j 0 ≡ get_or (drop off xs) i 0
get_or-drop xs zero i j e = ap (λ (k : ℕ). get_or xs k 0) (omega arith)
get_or-drop [] (suc off) i j e = refl
get_or-drop (x ∷ xs) (suc off) i zero e = absurd (omega arith)
get_or-drop (x ∷ xs) (suc off) i (suc j) e = get_or-drop xs off i j (omega arith)

-- Behind the first `i` parts stand the others.
drop-concat :
    (ps : List (List ℕ)) (rest : List ℕ) (i off : ℕ)
    → size_of (take i ps) ≡ off
    → drop off (concat ps ++ rest) ≡ concat (drop i ps) ++ rest
drop-concat ps rest zero off e = ap (λ (k : ℕ). drop k (concat ps ++ rest)) (sym e)
drop-concat [] rest (suc i) off e = ap (λ (k : ℕ). drop k rest) (sym e)
drop-concat (p ∷ ps) rest (suc i) off e =
    ap (drop off) (append_assoc p (concat ps) rest)
    ∙ (sym (drop-drop (length p) (size_of (take i ps)) off (p ++ (concat ps ++ rest)) e)
        ∙ (ap (drop (size_of (take i ps))) (drop_left (length p) p (concat ps ++ rest) refl)
            ∙ drop-concat ps rest i (size_of (take i ps)) refl))

module _ (ps : List (List ℕ)) (rest : List ℕ) (i off : ℕ) (before : size_of (take i ps) ≡ off) where
  pub bytes_field :
      (x : List ℕ) (qs : List (List ℕ)) (n : ℕ)
      → drop i ps ≡ x ∷ qs
      → length x ≡ n
      → slice off n (concat ps ++ rest) ≡ x
  bytes_field x qs n here len =
      ap (take n) (drop-concat ps rest i off before)
      ∙ (ap (λ t. take n (concat t ++ rest)) here
          ∙ (ap (take n) (append_assoc x (concat qs) rest) ∙ take_left n x (concat qs ++ rest) len))

  byte_field :
      (x : List ℕ) (qs : List (List ℕ)) (k j : ℕ)
      → drop i ps ≡ x ∷ qs
      → off + k ≡ j
      → byte_at (concat ps ++ rest) j ≡ byte_at ((x ++ concat qs) ++ rest) k
  byte_field x qs k j here e =
      get_or-drop (concat ps ++ rest) off k j e
      ∙ (ap (λ t. byte_at t k) (drop-concat ps rest i off before)
          ∙ ap (λ t. byte_at (concat t ++ rest) k) here)

  pub word32_field :
      (v : ℕ) (qs : List (List ℕ))
      → drop i ps ≡ put32 v ∷ qs
      → v < 4294967296
      → get32 (concat ps ++ rest) off ≡ v
  unfolding put32
  word32_field v qs here fits =
      get32_packed (concat ps ++ rest) off v (at 0) (at 1) (at 2) (at 3) fits
    where
      at :
          (k : ℕ)
          → byte_at (concat ps ++ rest) (off + k) ≡ byte_at ((put32 v ++ concat qs) ++ rest) k
      at k = byte_field (put32 v) qs k (off + k) here refl

  pub word16_field :
      (v : ℕ) (qs : List (List ℕ))
      → drop i ps ≡ put16 v ∷ qs
      → v < 65536
      → get16 (concat ps ++ rest) off ≡ v
  unfolding put16
  word16_field v qs here fits =
      get16_packed (concat ps ++ rest) off v (byte_field (put16 v) qs 0 off here (omega arith))
        (byte_field (put16 v) qs 1 (off + 1) here refl) fits
