-- ===== src/Receiver/Octets.antt =====
-- What a receiver keeps of the frames is made of bytes, where the frames are.
use ota_common.Common.{
  ℕ, zero, suc, ◌+◌, ◌*◌, ◌/◌, ◌≤◌, arith, inl, inr, false, Option, none, some, List, [], length,
  drop, length-take, length-drop, ◌==◌, Bool-cases, IsBytes, IsBytes-take, IsBytes-drop,
}
use ota_common.Merkle.{Hash256}
use ota_common.Merkle.Octets.{AreDigests}
use ota_common.Reassembler.{Reassembler}
use ota_common.Receiver.{Receiver, update, hashes_from}

abbrev pub OfBytes : Option (List ℕ) → Type 0
OfBytes none = Unit {0}
OfBytes (some b) = IsBytes b

abbrev pub OfDigests : Option (List Hash256) → Type 0
OfDigests none = Unit {0}
OfDigests (some path) = AreDigests path

-- The units begun are made of bytes, and so are the blocks kept; the proofs kept have 32-byte nodes.
pub record HasOctets {S : Type 0} (r : Receiver S) : Type 0 where
  pub block_unit : IsBytes r.block_re.buf
  pub proof_unit : IsBytes r.proof_re.buf
  pub blocks : (i : ℕ) → OfBytes (r.ready_blocks i)
  pub proofs : (i : ℕ) → OfDigests (r.proofs i)

hashes_from-AreDigests :
    (n i : ℕ) (buf : List ℕ)
    → (i + n) * 32 ≤ length buf
    → IsBytes buf
    → AreDigests (hashes_from n i buf)
unfolding hashes_from
hashes_from-AreDigests zero i buf h w = tt
hashes_from-AreDigests (suc n) i buf h w = (
  (
    omega (arith, length-take 32 (drop (i * 32) buf), length-drop (i * 32) buf),
    IsBytes-take 32 (drop (i * 32) buf) (IsBytes-drop (i * 32) buf w),
  ),
  hashes_from-AreDigests n (i + 1) buf (omega arith) w,
)

pub updated :
    {V : Type 0} (P : Option V → Type 0) (f : ℕ → Option V) (k : ℕ) (v : Option V)
    → ((i : ℕ) → P (f i))
    → P v
    → (i : ℕ) → P (update f k v i)
updated P f k v all here i = elim (Bool-cases (i == k)) [
  | inl same ↦ rw same here
  | inr other ↦ rw other (all i)
]

module _ {S : Type 0} where
  -- A block that has arrived.
  pub block-HasOctets :
      (index : ℕ) (re : Reassembler) (r : Receiver S)
      → IsBytes re.buf
      → HasOctets r
      → HasOctets (record r {
        block_re = record re { active = false };
        block_in_flight = index;
        ready_blocks = update r.ready_blocks index (some re.buf);
      })
  block-HasOctets index re r bytes w = record {
    block_unit = bytes;
    proof_unit = w.proof_unit;
    blocks = updated OfBytes r.ready_blocks index (some re.buf) w.blocks bytes;
    proofs = w.proofs;
  }

  -- A proof that has arrived.
  pub proof-HasOctets :
      (index : ℕ) (re : Reassembler) (r : Receiver S)
      → IsBytes re.buf
      → HasOctets r
      → HasOctets (record r {
        proof_re = record re { active = false };
        proof_in_flight = index;
        proofs = update r.proofs index (some (hashes_from (length re.buf / 32) 0 re.buf));
      })
  proof-HasOctets index re r bytes w = record {
    block_unit = w.block_unit;
    proof_unit = bytes;
    blocks = w.blocks;
    proofs =
        updated OfDigests r.proofs index _ w.proofs
          (hashes_from-AreDigests (length re.buf / 32) 0 re.buf (omega arith) bytes);
  }

  pub empty-HasOctets :
      (index : ℕ) (r : Receiver S)
      → HasOctets r
      → HasOctets (record r { proofs = update r.proofs index (some []) })
  empty-HasOctets index r w = record {
    block_unit = w.block_unit;
    proof_unit = w.proof_unit;
    blocks = w.blocks;
    proofs = updated OfDigests r.proofs index (some []) w.proofs tt;
  }
