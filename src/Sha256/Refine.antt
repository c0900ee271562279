-- ===== src/Sha256/Refine.antt =====
-- The streaming implementation computes the reference digest.
use ota_common.Common.{
  ℕ, zero, suc, ◌+◌, ◌-◌, ◌*◌, ◌%◌, ◌≤◌, ◌<◌, ◌≡◌, refl, sym, ap, subst, ◌∙◌, arith, inl, inr, true,
  false, List, [], ◌∷◌, ◌++◌, append_assoc, length, take, drop, replicate, write_at, u64, ◌==◌,
  Bool-cases, length-append, length-take, length-drop, length-write_at, take-append-drop, take_left,
  take_all,
}
use ota_common.Sha256.{
  Sha256, compress, process, room, absorb, update_loop, update, pad_loop, finish, big_endian64,
  state_bytes,
}
use ota_common.Sha256.Spec.{
  Mid, steps, length-steps, steps-nil, steps-append, steps-pending, steps-full, length-big_endian64,
}

-- The buffer has its 64 bytes and room for one more.
pub record IsReady (s : Sha256) : Type 0 where
  pub room_left : s.buflen < 64
  pub sized : length s.buf ≡ 64

abbrev pub mid : Sha256 → Mid
mid s = (s.state, take s.buflen s.buf)

pub length-mid : (s : Sha256) → IsReady s → length (mid s).1 ≡ s.buflen
length-mid s w = omega (arith, length-take s.buflen s.buf, w.sized, w.room_left)

take-write_at_end :
    (buf part : List ℕ) (off k : ℕ)
    → off + length part ≡ k
    → k ≤ length buf
    → take k (write_at buf off part) ≡ take off buf ++ part
take-write_at_end buf part off k e h =
    ap (take k) (sym (append_assoc (take off buf) part (drop (off + length part) buf)))
    ∙ take_left k (take off buf ++ part) (drop (off + length part) buf)
        (omega (arith, length-append (take off buf) part, length-take off buf))

absorb-steps :
    (s : Sha256) (part : List ℕ)
    → IsReady s
    → 0 < length part
    → s.buflen + length part ≤ 64
    → IsReady (absorb s part) × (mid (absorb s part) ≡ steps (mid s) part)
unfolding absorb process
absorb-steps s part w some_bytes fits =
    let whole = length-write_at s.buf s.buflen part (omega (arith, w.sized)) in
    let had = length-mid s w in
    elim (Bool-cases (s.buflen + length part == 64)) [
      | inl full ↦
          let end : s.buflen + length part ≡ 64 = ground arith in
          let block =
            sym (take_all 64 (write_at s.buf s.buflen part) (omega (arith, whole, w.sized)))
            ∙ take-write_at_end s.buf part s.buflen 64 end (omega (arith, w.sized)) in
          rw full (
            record { room_left = omega arith; sized = whole ∙ w.sized },
            ap (λ b. (compress s.state b, [])) block
                ∙ sym (
                    steps-full s.state (take s.buflen s.buf) part some_bytes
                      (omega (arith, had, end))),
          )
      | inr short ↦
          let left : s.buflen + length part < 64 = ground arith in
          rw short (
            record { room_left = left; sized = whole ∙ w.sized },
            ap (λ t. (s.state, t))
                  (take-write_at_end s.buf part s.buflen (s.buflen + length part) refl
                    (omega (arith, w.sized)))
                ∙ sym (steps-pending s.state (take s.buflen s.buf) part (omega (arith, had))),
          )
    ]

-- What an operation that takes `input` makes of a state.
pub record Takes (s : Sha256) (input : List ℕ) (s' : Sha256) : Type 0 where
  pub ready : IsReady s'
  pub stepped : mid s' ≡ steps (mid s) input

pub Takes-nothing : (s : Sha256) → IsReady s → Takes s [] s
Takes-nothing s w = record { ready = w; stepped = sym (steps-nil (mid s)) }

pub Takes-append :
    (s s' s″ : Sha256) (xs ys : List ℕ) → Takes s xs s' → Takes s' ys s″ → Takes s (xs ++ ys) s″
Takes-append s s' s″ xs ys a b = record {
  ready = b.ready;
  stepped = b.stepped ∙ (ap (λ m. steps m ys) a.stepped ∙ sym (steps-append (mid s) xs ys));
}

-- The number of bytes that come in below the state's own.
pub Takes-buflen :
    (s s' : Sha256) (input : List ℕ)
    → IsReady s
    → Takes s input s'
    → s'.buflen ≡ (s.buflen + length input) % 64
Takes-buflen s s' input w a = omega (
  arith,
  length-mid s w,
  length-mid s' a.ready,
  ap (λ m. length m.1) a.stepped,
  length-steps (mid s) input (omega (arith, length-mid s w, w.room_left)),
)

absorb-bitlen : (s : Sha256) (part : List ℕ) → (absorb s part).bitlen ≡ s.bitlen
unfolding absorb process
absorb-bitlen s part = ground arith

room_bounds :
    (s : Sha256) (len : ℕ)
    → IsReady s
    → 0 < len
    → (0 < room s len) × (room s len ≤ len) × (s.buflen + room s len ≤ 64)
unfolding room
room_bounds s len w h = ground arith

update_loop-Takes :
    (fuel : ℕ) (s : Sha256) (input : List ℕ)
    → length input ≤ fuel
    → IsReady s
    → Takes s input (update_loop fuel s input)
unfolding update_loop
update_loop-Takes zero s [] h w = Takes-nothing s w
update_loop-Takes zero s (x ∷ input) h w = absurd (omega arith)
update_loop-Takes (suc fuel) s [] h w = Takes-nothing s w
update_loop-Takes (suc fuel) s (x ∷ input) h w =
    let all = x ∷ input in
    let n = room s (length all) in
    let (some_bytes, most, fits) = room_bounds s (length all) w (omega arith) in
    let size = length-take n all in
    let (ready, stepped) =
      absorb-steps s (take n all) w (omega (arith, size)) (omega (arith, size)) in
    subst (λ t. Takes s t (update_loop fuel (absorb s (take n all)) (drop n all)))
      (take-append-drop n all)
      (Takes-append s (absorb s (take n all)) _ (take n all) (drop n all)
        (record { ready = ready; stepped = stepped })
        (update_loop-Takes fuel (absorb s (take n all)) (drop n all)
          (omega (arith, length-drop n all)) ready))

pub update-Takes : (s : Sha256) (input : List ℕ) → IsReady s → Takes s input (update s input)
unfolding update
update-Takes s input w =
    let r =
      update_loop-Takes (length input)
        (record s { bitlen = u64 (s.bitlen + u64 (length input * 8)) }) input (omega arith)
        (record { room_left = w.room_left; sized = w.sized }) in
    record { ready = r.ready; stepped = r.stepped }

update_loop-bitlen :
    (fuel : ℕ) (s : Sha256) (input : List ℕ) → (update_loop fuel s input).bitlen ≡ s.bitlen
unfolding update_loop
update_loop-bitlen zero s input = refl
update_loop-bitlen (suc fuel) s [] = refl
update_loop-bitlen (suc fuel) s (x ∷ input) = update_loop-bitlen fuel _ _ ∙ absorb-bitlen s _

pub update-bitlen :
    (s : Sha256) (input : List ℕ)
    → (update s input).bitlen ≡ u64 (s.bitlen + u64 (length input * 8))
unfolding update
update-bitlen s input =
    update_loop-bitlen (length input)
      (record s { bitlen = u64 (s.bitlen + u64 (length input * 8)) }) input

-- The zero bytes up to the place of the length.
pad_loop-Takes :
    (fuel d : ℕ) (s : Sha256)
    → IsReady s
    → d < fuel
    → d < 64
    → (s.buflen + d) % 64 ≡ 56
    → Takes s (replicate d 0) (pad_loop fuel s) × ((pad_loop fuel s).buflen ≡ 56)
unfolding pad_loop
pad_loop-Takes zero d s w enough small place = absurd (omega arith)
pad_loop-Takes (suc fuel) zero s w enough small place =
    let here : (s.buflen == 56) ≡ true = ground (arith, w.room_left) in
    simp here (Takes-nothing s w, ground arith)
pad_loop-Takes (suc fuel) (suc d) s w enough small place =
    let later : (s.buflen == 56) ≡ false = ground (arith, w.room_left) in
    let one = update-Takes s (0 ∷ []) w in
    let moved = Takes-buflen s (update s (0 ∷ [])) (0 ∷ []) w one in
    let (rest, end) =
      pad_loop-Takes fuel d (update s (0 ∷ [])) one.ready (omega arith) (omega arith)
        (omega (arith, moved)) in
    simp later (Takes-append s (update s (0 ∷ [])) _ (0 ∷ []) (replicate d 0) one rest, end)

-- The last block, with the length in its last eight bytes.
last_block-steps :
    (s : Sha256) (eight : List ℕ)
    → IsReady s
    → s.buflen ≡ 56
    → length eight ≡ 8
    → steps (mid s) eight ≡ (compress s.state (write_at s.buf 56 eight), [])
last_block-steps s eight w place size =
    steps-full s.state (take s.buflen s.buf) eight (omega arith) (omega (arith, length-mid s w))
    ∙ ap (λ b. (compress s.state b, []))
        (ap (λ (k : ℕ). take k s.buf ++ eight) place
          ∙ (sym (take-write_at_end s.buf eight 56 64 (omega arith) (omega (arith, w.sized)))
              ∙ take_all 64 (write_at s.buf 56 eight) (
                  omega (arith, w.sized, length-write_at s.buf 56 eight (omega (arith, w.sized))))))

-- A state and the padding of its own count of bytes.
abbrev pub completed : List ℕ × List ℕ → ℕ → ℕ → List ℕ
completed m n bits =
    state_bytes (steps m (0x80 ∷ (replicate ((119 - n) % 64) 0 ++ big_endian64 bits))).0

-- What `finish` makes of a state.
pub finish-steps : (s : Sha256) → IsReady s → (finish s).1 ≡ completed (mid s) s.buflen s.bitlen
unfolding finish process
finish-steps s w =
    let zeros = (119 - s.buflen) % 64 in
    let one = update s (0x80 ∷ []) in
    let first = update-Takes s (0x80 ∷ []) w in
    let moved = Takes-buflen s one (0x80 ∷ []) w first in
    let (rest, place) =
      pad_loop-Takes 64 zeros one first.ready (omega arith) (omega arith)
        (omega (arith, moved, w.room_left)) in
    let whole = Takes-append s one (pad_loop 64 one) (0x80 ∷ []) (replicate zeros 0) first rest in
    ap (λ (m : Mid). state_bytes m.0)
      (sym (
        steps-append (mid s) (0x80 ∷ replicate zeros 0) (big_endian64 s.bitlen)
        ∙ (ap (λ m. steps m (big_endian64 s.bitlen)) (sym whole.stepped)
            ∙ last_block-steps (pad_loop 64 one) (big_endian64 s.bitlen) rest.ready place
                (length-big_endian64 s.bitlen))))
