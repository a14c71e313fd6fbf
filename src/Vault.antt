-- ===== src/Vault.antt =====
-- security/vault.go, security/vault_master.go, security/cipher.go and security/cipher_engine.go: data
-- sealed under a key. `Aead` is `cipher.AEAD` of Go's library, `new_gcm` stands for `aes.NewCipher` and
-- `cipher.NewGCM`, `random` for `rand.Read` into a new slice of a length, `sha256` for `sha256.Sum256`.
pub mod Sealed
pub mod Master
pub mod Restart
mod Tests
use neo_nect_server.Base.{
  ℕ, ◌+◌, Bool, true, false, not, Option, none, some, List, [], ◌∷◌, ◌++◌, Bytes, String, ◌==◌,
  nat_eq, bytes_eq, ltb, leb, length, take, replicate, if◌then◌else◌,
}
use neo_nect_server.Error.{Result, ok, err, invalid_key_size, truncated_payload}

pub record Aead : Type 0 where
  pub nonce_size : ℕ
  -- what `Seal` appends to its first argument
  pub seal : Bytes → Bytes → Bytes
  pub open_sealed : Bytes → Bytes → Result Bytes

abbrev pub token_entropy : ℕ
token_entropy = 32

-- `sealedData[n:]`
unfoldable pub drop : ℕ → Bytes → Bytes
drop n [] = []
drop Prim.Native.Nat.zero (b ∷ bytes) = b ∷ bytes
drop (Prim.Native.Nat.suc n) (b ∷ bytes) = drop n bytes

-- `aead.Seal(nonce, nonce, …)` with the deferred `scrubBuffer(nonce)`: where the capacity of the nonce
-- has room for what is appended, the answer shares the nonce's memory, which is set to zero.
unfoldable pub appended : ℕ → Bytes → Bytes → Bytes
appended capacity nonce ciphertext =
    if leb (length nonce + length ciphertext) capacity
    then replicate (length nonce) 0 ++ ciphertext
    else nonce ++ ciphertext

unfoldable pub sealed_with : Aead → Bytes → Result Bytes → Result Bytes
unfolding appended
sealed_with aead raw_data (err e) = err e
sealed_with aead raw_data (ok nonce) = ok (appended (length nonce) nonce (aead.seal nonce raw_data))

unfoldable pub opened_with : Aead → Bytes → Result Bytes
unfolding drop
opened_with aead sealed_data =
    if ltb (length sealed_data) aead.nonce_size
    then err truncated_payload
    else aead.open_sealed (take aead.nonce_size sealed_data) (drop aead.nonce_size sealed_data)

unfoldable pub then_with : Result Aead → (Aead → Result Bytes) → Result Bytes
then_with (err e) f = err e
then_with (ok aead) f = f aead

module _ (new_gcm : Bytes → Result Aead) where
  unfoldable pub initialize_gcm : Bytes → Result Aead
  initialize_gcm master_key =
      if not (length master_key == token_entropy) then err invalid_key_size else new_gcm master_key

  unfoldable pub seal_data : (ℕ → Result Bytes) → Bytes → Bytes → Result Bytes
  unfolding initialize_gcm sealed_with then_with
  seal_data random master_key raw_data =
      then_with (initialize_gcm master_key)
        λ aead. sealed_with aead raw_data (random aead.nonce_size)

  unfoldable pub open_data : Bytes → Bytes → Result Bytes
  unfolding initialize_gcm opened_with then_with
  open_data master_key sealed_data =
      then_with (initialize_gcm master_key) λ aead. opened_with aead sealed_data
