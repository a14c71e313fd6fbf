-- ===== src/Vault/Tests.antt =====
-- Runs of security/cipher.go and security/vault_master.go with a cipher that adds a tag of one byte.
use neo_nect_server.Base.{
  ℕ, ◌≡◌, refl, sym, ap, arith, [], ◌∷◌, Bytes, String, string_eq, replicate,
}
use neo_nect_server.Error.{Result, ok, err, cipher_failure, truncated_payload, invalid_key_size}
use neo_nect_server.Vault.{
  Aead, appended, seal_data, open_data, initialize_gcm, then_with, opened_with, sealed_with,
}
use neo_nect_server.Vault.Sealed.{IsCorrect, open_data-seal_data}
use neo_nect_server.Vault.Master.{Files, WriteFile, create_master_key, new_system_vault, written}
use neo_nect_server.Vault.Restart.{new_system_vault-create_master_key}

abbrev untag : Bytes → Bytes → Result Bytes
untag nonce [] = err cipher_failure
untag nonce (tag ∷ raw) = ok raw

abbrev tagging : Aead
tagging = record { nonce_size = 1; seal = λ nonce raw. 9 ∷ raw; open_sealed = untag }

tagging-IsCorrect : IsCorrect tagging
tagging-IsCorrect = record { opens = λ nonce raw size. refl; tagged = λ nonce raw. omega arith }

abbrev gcm : Bytes → Result Aead
gcm key = ok tagging

abbrev drawn : ℕ → Result Bytes
drawn size = ok (5 ∷ [])

abbrev key : Bytes
key = replicate 32 7

-- Memory that the answer shared with the nonce would be set to zero.
shared_scrubbed : appended 2 (5 ∷ []) (9 ∷ []) ≡ (0 ∷ 9 ∷ [])
unfolding appended
shared_scrubbed = refl

short_key_refused : open_data gcm (7 ∷ []) (5 ∷ 9 ∷ []) ≡ err invalid_key_size
unfolding open_data initialize_gcm then_with
short_key_refused = refl

no_nonce_refused : open_data gcm key [] ≡ err truncated_payload
unfolding open_data initialize_gcm then_with opened_with
no_nonce_refused = refl

open_data-seal_data_example :
    (sealed : Bytes) × (seal_data gcm drawn key (1 ∷ 2 ∷ []) ≡ ok sealed)
    × (open_data gcm key sealed ≡ ok (1 ∷ 2 ∷ []))
open_data-seal_data_example =
    open_data-seal_data gcm drawn key (1 ∷ 2 ∷ []) (5 ∷ []) tagging refl refl tagging-IsCorrect refl
      refl

abbrev no_files : Files
no_files = record { read_file = λ path. err cipher_failure }

-- a file system of one file
abbrev put : WriteFile
put path bytes files = ok (record { read_file = λ p. ok bytes })

abbrev read_back : String → Result Files → Result Bytes
read_back path (err e) = err e
read_back path (ok files) = files.read_file path

abbrev first_byte : Bytes → Bytes
first_byte [] = []
first_byte (b ∷ bytes) = b ∷ []

abbrev sealed_key : Files
sealed_key = record { read_file = λ p. ok (5 ∷ 9 ∷ 1 ∷ 2 ∷ []) }

key_created : create_master_key gcm put drawn key "master.key" (1 ∷ 2 ∷ []) no_files ≡ ok sealed_key
unfolding create_master_key written seal_data initialize_gcm then_with sealed_with appended
key_created = refl

new_system_vault-create_master_key_example :
    new_system_vault gcm first_byte key "master.key" sealed_key ≡ ok (1 ∷ [])
new_system_vault-create_master_key_example =
    new_system_vault-create_master_key gcm drawn first_byte put key (1 ∷ 2 ∷ []) (5 ∷ [])
      "master.key" no_files sealed_key tagging refl refl tagging-IsCorrect refl refl
      (λ d f f' h. sym (ap (read_back "master.key") h)) key_created
