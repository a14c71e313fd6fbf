-- ===== src/Vault/Sealed.antt =====
-- security/cipher.go: what was sealed opens again.
use neo_nect_server.Base.{
  ℕ, ◌≤◌, ◌≡◌, refl, sym, ◌∙◌, ap, false, [], ◌∷◌, ◌++◌, Bytes, nat_eq, ltb, arith, length,
  length-append, take,
}
use neo_nect_server.Error.{Result, ok}
use neo_nect_server.Vault.{
  Aead, drop, appended, sealed_with, opened_with, then_with, initialize_gcm, seal_data, open_data,
}

-- What Go documents of an authenticated cipher: a nonce of its size opens what it sealed, and the
-- ciphertext holds a tag.
pub record IsCorrect (aead : Aead) : Type 0 where
  pub opens :
      (nonce raw_data : Bytes)
      → length nonce ≡ aead.nonce_size
      → aead.open_sealed nonce (aead.seal nonce raw_data) ≡ ok raw_data
  pub tagged : (nonce raw_data : Bytes) → 1 ≤ length (aead.seal nonce raw_data)

take-append : (xs ys : Bytes) → take (length xs) (xs ++ ys) ≡ xs
take-append [] ys = refl
take-append (x ∷ xs) ys = ap (λ zs. x ∷ zs) (take-append xs ys)

drop-append : (xs ys : Bytes) → drop (length xs) (xs ++ ys) ≡ ys
unfolding drop
drop-append [] [] = refl
drop-append [] (y ∷ ys) = refl
drop-append (x ∷ xs) ys = drop-append xs ys

-- The nonce has no room for the tag, so it is not shared with the answer.
appended-apart :
    (nonce ciphertext : Bytes)
    → 1 ≤ length ciphertext
    → appended (length nonce) nonce ciphertext ≡ nonce ++ ciphertext
unfolding appended
appended-apart nonce ciphertext tagged = ground arith

opened_with-append :
    (aead : Aead) (nonce ciphertext : Bytes)
    → length nonce ≡ aead.nonce_size
    → opened_with aead (nonce ++ ciphertext) ≡ aead.open_sealed nonce ciphertext
unfolding opened_with
opened_with-append aead nonce ciphertext size =
    rw (sym size, take-append nonce ciphertext, drop-append nonce ciphertext, long) refl
  where
    long : ltb (length (nonce ++ ciphertext)) (length nonce) ≡ false
    long = ground (arith, length-append nonce ciphertext)

-- Under a key of 32 bytes and a correct cipher, where the source of random bytes answers a nonce of the
-- size asked for, SealData answers, and OpenData of its answer under the same key is the data.
pub open_data-seal_data :
    (new_gcm : Bytes → Result Aead) (random : ℕ → Result Bytes) (master_key raw_data nonce : Bytes)
    (aead : Aead)
    → length master_key ≡ 32
    → new_gcm master_key ≡ ok aead
    → IsCorrect aead
    → random aead.nonce_size ≡ ok nonce
    → length nonce ≡ aead.nonce_size
    → (sealed : Bytes) × (seal_data new_gcm random master_key raw_data ≡ ok sealed)
      × (open_data new_gcm master_key sealed ≡ ok raw_data)
unfolding seal_data open_data initialize_gcm then_with sealed_with
open_data-seal_data new_gcm random master_key raw_data nonce aead size cipher correct drawn fits =
    let ciphertext = aead.seal nonce raw_data in
    (
      nonce ++ ciphertext,
      rw (size, cipher, drawn)
          (ap ok (appended-apart nonce ciphertext (correct.tagged nonce raw_data))),
      rw (size, cipher)
          (opened_with-append aead nonce ciphertext fits ∙ correct.opens nonce raw_data fits),
    )
