-- ===== src/Vault/Restart.antt =====
-- security/vault_master.go: a vault opened again reads what was sealed before.
use neo_nect_server.Base.{ℕ, ◌≡◌, refl, Bytes, String, length}
use neo_nect_server.Error.{Result, ok}
use neo_nect_server.Vault.{Aead}
use neo_nect_server.Vault.Sealed.{IsCorrect, open_data-seal_data}
use neo_nect_server.Vault.Master.{
  Files, WriteFile, written, opened, create_master_key, load_and_decrypt_master_key, engine_key,
  new_system_vault,
}

-- After CreateMasterKey has written a key to a path without an error, NewSystemVault on that path, under
-- the same bootstrap key of 32 bytes, opens a vault whose key is the SHA-256 of the key written: where
-- the cipher is correct, the source of random bytes answers a nonce of the size asked for, and a file
-- that was written reads as it was written.
pub new_system_vault-create_master_key :
    (new_gcm : Bytes → Result Aead) (random : ℕ → Result Bytes) (sha256 : Bytes → Bytes)
    (write_file : WriteFile) (bootstrap_key key_data nonce : Bytes) (path : String)
    (files files' : Files) (aead : Aead)
    → length bootstrap_key ≡ 32
    → new_gcm bootstrap_key ≡ ok aead
    → IsCorrect aead
    → random aead.nonce_size ≡ ok nonce
    → length nonce ≡ aead.nonce_size
    → ((d : Bytes) (f f' : Files) → write_file path d f ≡ ok f' → f'.read_file path ≡ ok d)
    → create_master_key new_gcm write_file random bootstrap_key path key_data files ≡ ok files'
    → new_system_vault new_gcm sha256 bootstrap_key path files' ≡ ok (sha256 key_data)
unfolding create_master_key written new_system_vault load_and_decrypt_master_key opened engine_key
new_system_vault-create_master_key new_gcm random sha256 write_file bootstrap_key key_data nonce
      path files files' aead size cipher correct drawn fits reads created =
    let (sealed, done, back) =
      open_data-seal_data new_gcm random bootstrap_key key_data nonce aead size cipher correct drawn
        fits in
    rw (reads sealed files files' (rw done at created), back) refl
