-- ===== src/Vault/Master.antt =====
-- security/vault_master.go and security/vault.go: the master key and the vault that it opens. `Files` is
-- the file system, `lookup_env` stands for `os.LookupEnv`, `trim` for `strings.TrimSpace` on the bytes of
-- a text, and `log.Fatalf`, which ends the process, is none.
use neo_nect_server.Base.{ℕ, Option, none, some, [], Bytes, String, ◌==◌, bytes_eq, if◌then◌else◌}
use neo_nect_server.Error.{Result, ok, err}
use neo_nect_server.Vault.{Aead, seal_data, open_data}

pub record Files : Type 0 where
  pub read_file : String → Result Bytes

-- `os.WriteFile` from the files before to those after
abbrev pub WriteFile : Type 0
WriteFile = String → Bytes → Files → Result Files

unfoldable pub non_empty : Bytes → Option Bytes
non_empty key = if key == [] then none else some key

unfoldable pub key_of_file : (Bytes → Bytes) → Result Bytes → Option Bytes
unfolding non_empty
key_of_file trim (err _) = none
key_of_file trim (ok key_data) = non_empty (trim key_data)

unfoldable pub key_of_env : (String → Option Bytes) → Option Bytes
unfolding non_empty
key_of_env lookup_env = elim (lookup_env "NEONECT_BOOTSTRAP_KEY") [
  | none ↦ none
  | some key_value ↦ non_empty key_value
]

-- `path` gives a path for the bytes of a variable.
unfoldable pub get_system_bootstrap_key :
    (String → Option Bytes) → (Bytes → Bytes) → (Bytes → String) → Files → Option Bytes
unfolding key_of_file key_of_env
get_system_bootstrap_key lookup_env trim path files =
    elim (lookup_env "NEONECT_BOOTSTRAP_KEY_FILE") [
      | none ↦ key_of_env lookup_env
      | some file_path ↦
          if file_path == []
          then key_of_env lookup_env
          else key_of_file trim (files.read_file (path file_path))
    ]

module _ (new_gcm : Bytes → Result Aead) where
  unfoldable pub opened : Bytes → Result Bytes → Result Bytes
  opened bootstrap_key (err e) = err e
  opened bootstrap_key (ok cipher_data) = open_data new_gcm bootstrap_key cipher_data

  -- with the bootstrap key that `getSystemBootstrapKey` answers
  unfoldable pub load_and_decrypt_master_key : Bytes → String → Files → Result Bytes
  unfolding opened
  load_and_decrypt_master_key bootstrap_key key_path files =
      opened bootstrap_key (files.read_file key_path)

  unfoldable pub written : WriteFile → String → Files → Result Bytes → Result Files
  written write_file path files (err e) = err e
  written write_file path files (ok sealed_data) = write_file path sealed_data files

  unfoldable pub create_master_key :
      WriteFile → (ℕ → Result Bytes) → Bytes → String → Bytes → Files → Result Files
  unfolding written
  create_master_key write_file random bootstrap_key path key_data files =
      written write_file path files (seal_data new_gcm random bootstrap_key key_data)

  unfoldable pub engine_key : (Bytes → Bytes) → Result Bytes → Result Bytes
  engine_key sha256 (err e) = err e
  engine_key sha256 (ok master_secret) = ok (sha256 master_secret)

  -- the key of the vault
  unfoldable pub new_system_vault : (Bytes → Bytes) → Bytes → String → Files → Result Bytes
  unfolding engine_key load_and_decrypt_master_key
  new_system_vault sha256 bootstrap_key master_secret_path files =
      engine_key sha256 (load_and_decrypt_master_key bootstrap_key master_secret_path files)
