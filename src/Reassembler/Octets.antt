-- ===== src/Reassembler/Octets.antt =====
-- The buffer of a reassembler is made of bytes, where the fragments are.
use ota_common.Common.{
  ℕ, zero, suc, ◌+◌, arith, inl, inr, Bool, true, false, not, List, ◌++◌, length, take, drop,
  replicate, ltb, ◌!=◌, if◌then◌else◌, Bool-cases, IsBytes, IsBytes-append, IsBytes-take,
  IsBytes-drop,
}
use ota_common.Reassembler.{Reassembler, reset, accept, feed}

zeros : (n : ℕ) → IsBytes (replicate n 0)
zeros zero = tt
zeros (suc n) = (omega arith, zeros n)

-- The reassembler that a fragment is fed to.
pub start-IsBytes :
    (first : Bool) (total : ℕ) (re : Reassembler)
    → IsBytes re.buf
    → IsBytes (if first then reset total else re).buf
unfolding reset
start-IsBytes true total re w = zeros total
start-IsBytes false total re w = w

accept-IsBytes :
    (re : Reassembler) (off : ℕ) (part : List ℕ)
    → IsBytes re.buf
    → IsBytes part
    → IsBytes (accept re off part).0.buf
unfolding accept
accept-IsBytes re off part w v =
    IsBytes-append (take off re.buf) (part ++ drop (off + length part) re.buf)
      (IsBytes-take off re.buf w)
      (IsBytes-append part (drop (off + length part) re.buf) v
        (IsBytes-drop (off + length part) re.buf w))

pub feed-IsBytes :
    (re : Reassembler) (off : ℕ) (part : List ℕ)
    → IsBytes re.buf
    → IsBytes part
    → IsBytes (feed re off part).0.buf
unfolding feed
feed-IsBytes re off part w v = elim (Bool-cases (not re.active)) [
  | inl idle ↦ rw idle w
  | inr active ↦ elim (Bool-cases (off != re.filled)) [
    | inl gap ↦ rw (active, gap) w
    | inr next ↦ elim (Bool-cases (ltb re.total (off + length part))) [
      | inl long ↦ rw (active, next, long) w
      | inr fits ↦ rw (active, next, fits) (accept-IsBytes re off part w v)
    ]
  ]
]
