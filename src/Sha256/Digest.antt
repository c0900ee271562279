-- ===== src/Sha256/Digest.antt =====
-- `Sha256::hash`, and any series of calls of `update`, against the reference.
use ota_common.Common.{
  ℕ, ◌+◌, ◌*◌, ◌%◌, ◌^◌, ◌<◌, ◌≡◌, refl, sym, ap, ap₂, ◌∙◌, arith, List, [], ◌∷◌, ◌++◌, append-nil,
  length, u64, length-append,
}
use ota_common.Sha256.{Sha256, finish, hash, initial_state, new, reset, state_bytes, update}
use ota_common.Sha256.Spec.{Mid, steps, steps-append, padding, digest, digest-steps}
use ota_common.Sha256.Refine.{
  IsReady, mid, length-mid, Takes, Takes-nothing, Takes-append, Takes-buflen, update-Takes,
  update-bitlen, completed, finish-steps,
}

-- One `update` for each part.
unfoldable pub update_all : Sha256 → List (List ℕ) → Sha256
update_all s [] = s
update_all s (part ∷ parts) = update_all (update s part) parts

unfoldable pub concat : List (List ℕ) → List ℕ
concat [] = []
concat (part ∷ parts) = part ++ concat parts

update_all-Takes :
    (s : Sha256) (parts : List (List ℕ)) → IsReady s → Takes s (concat parts) (update_all s parts)
unfolding update_all concat
update_all-Takes s [] w = Takes-nothing s w
update_all-Takes s (part ∷ parts) w =
    let one = update-Takes s part w in
    Takes-append s (update s part) (update_all (update s part) parts) part (concat parts) one
      (update_all-Takes (update s part) parts one.ready)

update_all-bitlen :
    (s : Sha256) (parts : List (List ℕ))
    → s.bitlen < 2 ^ 64
    → (update_all s parts).bitlen ≡ u64 (s.bitlen + u64 (length (concat parts) * 8))
unfolding update_all concat
update_all-bitlen s [] h = omega arith
update_all-bitlen s (part ∷ parts) h =
    let one = update-bitlen s part in
    update_all-bitlen (update s part) parts (omega (arith, one))
    ∙ omega (arith, one, length-append part (concat parts))

new-IsReady : IsReady new
unfolding new reset
new-IsReady = record { room_left = omega arith; sized = refl }

mid-new : mid new ≡ (initial_state, [])
unfolding new reset
mid-new = refl

new-bitlen : new.bitlen ≡ 0
unfolding new reset
new-bitlen = refl

-- The digest of a series of parts is that of the message they make up.
pub update_all-digest :
    (parts : List (List ℕ)) → (finish (update_all new parts)).1 ≡ digest (concat parts)
unfolding padding
update_all-digest parts =
    let m = concat parts in
    let s = update_all new parts in
    let all = update_all-Takes new parts new-IsReady in
    let from_new = all.stepped ∙ ap (λ t. steps t m) mid-new in
    let count : s.buflen ≡ length m % 64 =
      Takes-buflen new s m new-IsReady all
      ∙ omega (arith, length-mid new new-IsReady, ap (λ t. length t.1) mid-new) in
    let bits : s.bitlen ≡ u64 (length m * 8) =
      update_all-bitlen new parts (omega (arith, new-bitlen)) ∙ omega (arith, new-bitlen) in
    finish-steps s all.ready
    ∙ (ap (λ (t : Mid). completed t s.buflen s.bitlen) from_new
        ∙ (ap₂ (completed (steps (initial_state, []) m)) count bits
            ∙ (ap (λ (t : Mid). state_bytes t.0)
                  (sym (steps-append (initial_state, []) m (padding (length m))))
                ∙ sym (digest-steps m))))

hash-update_all : (input : List ℕ) → hash input ≡ (finish (update_all new (input ∷ []))).1
unfolding hash update_all
hash-update_all input = refl

-- `hash` is the reference function: the message padded to whole blocks of 64 bytes, and `compress`
-- folded over them from the initial state.
pub hash_lem : (input : List ℕ) → hash input ≡ digest input
unfolding concat
hash_lem input =
    hash-update_all input ∙ (update_all-digest (input ∷ []) ∙ ap digest (append-nil input))

-- However a message is cut into the parts of a series of calls of `update`, `finish` then gives the
-- digest that `hash` gives of the whole.
pub update_all-hash :
    (parts : List (List ℕ)) → (finish (update_all new parts)).1 ≡ hash (concat parts)
update_all-hash parts = update_all-digest parts ∙ sym (hash_lem (concat parts))
