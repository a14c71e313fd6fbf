-- ===== src/Accounts.antt =====
-- internal/infrastructure/persistence/user_manager.go and internal/service/auth_service.go: the
-- accounts. `hash` is `security.ComputeHash`, `hash_password` and `check_password` are those of
-- security/crypto.go over bcrypt, and `encode` is `hex.EncodeToString`.
pub mod Register
pub mod Login
mod Tests
use Prim.Native.Char.{code}
use neo_nect_server.Base.{
  ℕ, ◌+◌, Bool, true, false, not, ◌&&◌, ◌||◌, Option, none, some, String, Bytes, List, [], ◌∷◌,
  ◌++◌, ltb, leb, ◌==◌, nat_eq, string_eq, if◌then◌else◌, any, find, trim_space,
}
use neo_nect_server.Error.{
  Error, Result, ok, err, no_rows, unique_violation, username_taken, invalid_credentials,
  password_too_short, password_complexity, username_too_short,
}
use neo_nect_server.Db.{
  UserRow, BlockType, BlockRow, Tables, Db, pure, raise, ◌>>=◌, ◌>>◌, attempt, statement,
  transaction,
}
use neo_nect_server.Sessions.{create_session}

-- `config.MinUsernameLength` and `config.MinPasswordLength`
abbrev pub min_username_length : ℕ
min_username_length = 3

abbrev pub min_password_length : ℕ
min_password_length = 8

-- `len` of a text: the bytes of its UTF-8
abbrev pub rune_len : ℕ → ℕ
rune_len c = if ltb c 0x80 then 1 else if ltb c 0x800 then 2 else if ltb c 0x10000 then 3 else 4

unfoldable pub byte_len : String → ℕ
byte_len String.[] = 0
byte_len (String.◌∷◌ c s) = rune_len (code c) + byte_len s

unfoldable pub validate_username_format : String → Result (Unit {0})
unfolding byte_len trim_space
validate_username_format username =
    if ltb (byte_len (trim_space username)) min_username_length
    then err username_too_short
    else ok tt

abbrev pub is_letter : ℕ → Bool
is_letter c = (leb 97 c && leb c 122) || (leb 65 c && leb c 90)

abbrev pub is_digit : ℕ → Bool
is_digit c = leb 48 c && leb c 57

-- the loop over the password: `hasLetter` and `hasNumber`
unfoldable pub scan : String → Bool → Bool → Bool × Bool
scan String.[] has_letter has_number = (has_letter, has_number)
scan (String.◌∷◌ c s) has_letter has_number =
    scan s (if is_letter (code c) then true else has_letter)
      (if is_digit (code c) then true else has_number)

unfoldable pub validate_password_complexity : String → Result (Unit {0})
unfolding byte_len scan
validate_password_complexity password =
    if ltb (byte_len password) min_password_length
    then err password_too_short
    else (let (has_letter, has_number) = scan password false false in
        if not has_letter || not has_number then err password_complexity else ok tt)

-- `Queries.CheckUser`
unfoldable pub is_username_taken : String → Db Bool
is_username_taken username_hash =
    statement (λ t. ok (any (λ u. u.username_hash == username_hash) t.users, t))

-- `Queries.CreateUser` under the constraints of its table, and the id that AUTOINCREMENT gives
unfoldable pub insert_user : String → String → Tables → Result (ℕ × Tables)
insert_user username_hash identity_blob t =
    if any (λ u. u.username_hash == username_hash) t.users
    then err unique_violation
    else ok (
      t.last_user_id + 1,
      record t {
        users =
            t.users
            ++ (record {
              id = t.last_user_id + 1;
              username_hash = username_hash;
              identity_blob = identity_blob;
            }
                ∷ []);
        last_user_id = t.last_user_id + 1;
      },
    )

-- `Queries.CreateBlock` for an authentication key; the user is of the same transaction
unfoldable pub insert_auth_block : ℕ → String → Tables → Result (Unit {0} × Tables)
insert_auth_block uid authentication_key t = ok (
  tt,
  record t {
    user_blocks =
        t.user_blocks
        ++ (record {
          user_id = uid;
          block_type = BlockType.auth;
          sub_block_id = none;
          payload = authentication_key;
          created_at = 0;
        }
            ∷ []);
  },
)

unfoldable pub create_user : String → String → String → Db ℕ
unfolding insert_user insert_auth_block
create_user identity_blob username_hash authentication_key = transaction (do
  uid ← statement (insert_user username_hash identity_blob)
  statement (insert_auth_block uid authentication_key)
  pure uid)

-- the join of `Queries.GetAuth`
abbrev pub is_auth_block : BlockRow → Bool
is_auth_block b = elim b.block_type [ BlockType.auth ↦ true | BlockType.session ↦ false ]

unfoldable pub is_auth_of : String → List UserRow → BlockRow → Bool
is_auth_of username_hash users b =
    is_auth_block b && any (λ u. u.id == b.user_id && u.username_hash == username_hash) users

unfoldable pub select_auth : String → Tables → Result (String × Tables)
select_auth username_hash t = elim (find (is_auth_of username_hash t.users) t.user_blocks) [
  | none ↦ err no_rows
  | some b ↦ ok (b.payload, t)
]

unfoldable pub get_auth_key : String → Db String
unfolding select_auth
get_auth_key username_hash = statement (select_auth username_hash)

unfoldable pub select_username : ℕ → Tables → Result (String × Tables)
select_username uid t = elim (find (λ u. u.id == uid) t.users) [
  | none ↦ err no_rows
  | some u ↦ ok (u.identity_blob, t)
]

unfoldable pub get_username_by_id : ℕ → Db String
unfolding select_username
get_username_by_id uid = statement (select_username uid)

abbrev pub lift : {A : Type 0} → Result A → Db A
lift (ok a) = pure a
lift (err e) = raise e

module _ (hash : String → String) where
  unfoldable pub username_available : Result (Unit {0}) → String → Db Bool
  unfolding is_username_taken
  username_available (err _) username = pure false
  username_available (ok _) username = do
    taken ← is_username_taken (hash username)
    pure (not taken)

  unfoldable pub is_username_available : String → Db Bool
  unfolding username_available validate_username_format
  is_username_available username = username_available (validate_username_format username) username

  unfoldable pub register : (String → Result String) → String → String → Db ℕ
  unfolding validate_username_format validate_password_complexity is_username_taken create_user
  register hash_password username password = do
    lift (validate_username_format username)
    lift (validate_password_complexity password)
    taken ← is_username_taken (hash username)
    if taken then raise username_taken else do
      password_hash ← lift (hash_password password)
      create_user username (hash username) password_hash

  -- `generateSecureSessionToken`, on what `rand.Read` answers
  unfoldable pub generate_secure_session_token : (Bytes → String) → Result Bytes → Db String
  generate_secure_session_token encode (ok random_bytes) = pure (encode random_bytes)
  generate_secure_session_token encode (err e) = raise e

  -- after `GetAuthKey`
  unfoldable pub authenticated : (String → String → Bool) → String → Result String → Db (Unit {0})
  authenticated check_password password (err _) = raise invalid_credentials
  authenticated check_password password (ok stored_hash) =
      if not (check_password password stored_hash) then raise invalid_credentials else pure tt

  unfoldable pub login :
      (String → String → Bool) → (Bytes → String) → ℕ → Result Bytes → String → String → Db String
  unfolding authenticated generate_secure_session_token get_auth_key create_session
  login check_password encode now drawn username password = do
    stored ← attempt (get_auth_key (hash username))
    authenticated check_password password stored
    session_token ← generate_secure_session_token encode drawn
    create_session hash now (hash username) session_token
    pure session_token
