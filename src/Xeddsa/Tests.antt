-- ===== src/Xeddsa/Tests.antt =====
-- Signing buffers, and a toy TweetNaCl that opens every signed message.
use ota_common.Common.{
  ℕ, ◌≤◌, ◌≡◌, ◌↔◌, refl, arith, none, some, List, [], ◌∷◌, length, drop, replicate, ltb,
  if◌then◌else◌,
}
use ota_common.Xeddsa.{TweetNacl, signing_buffer, xeddsa_verify_raw}
use ota_common.Xeddsa.Buffer.{signing_buffer_inj}
use ota_common.Xeddsa.Raw.{Opens, IsSigned, xeddsa_verify_raw_iff}

abbrev update_message : List ℕ
update_message = 7 ∷ 8 ∷ []

update_buffer :
    signing_buffer 0 0 79 update_message
    ≡ 0 ∷ 0 ∷ 0 ∷ 0 ∷ 0 ∷ 0 ∷ 0 ∷ 0 ∷ 79 ∷ 0 ∷ 0 ∷ 0 ∷ 7 ∷ 8 ∷ []
unfolding signing_buffer
update_buffer = refl

signing_buffer_inj_example :
    (◌≡◌ {A = ℕ} 0 0) × (◌≡◌ {A = ℕ} 0 0) × (◌≡◌ {A = ℕ} 79 79) × (update_message ≡ update_message)
signing_buffer_inj_example =
    signing_buffer_inj 0 0 79 0 0 79 update_message update_message (omega arith) (omega arith)
      (omega arith) (omega arith) (omega arith) (omega arith) refl

abbrev toy : TweetNacl ℕ
toy = record {
  of_limbs = λ limbs. length limbs;
  unpack25519 = λ key. length key;
  sub = λ x y. x;
  add = λ x y. x;
  mul = λ x y. x;
  inv25519 = λ x. x;
  pack25519 = λ x. replicate 32 x;
  crypto_sign_open = λ sm key. if ltb (length sm) 64 then none else some (drop 64 sm);
}

toy-Opens : Opens toy
toy-Opens = record { recovered = λ sm key m e. ground arith }

xeddsa_verify_raw_iff_example :
    (xeddsa_verify_raw toy (replicate 32 1) update_message (replicate 64 5) ≡ 1) ↔ (
      (length update_message ≤ 256) × IsSigned toy (replicate 32 1) update_message (replicate 64 5))
xeddsa_verify_raw_iff_example =
    xeddsa_verify_raw_iff toy (replicate 32 1) update_message (replicate 64 5) toy-Opens refl
