-- ===== src/Accounts/Register.antt =====
-- internal/service/auth_service.go: what an accepted registration leaves, and what a login makes of it.
use neo_nect_server.Base.{
  ℕ, suc, ◌+◌, ◌<◌, ◌≡◌, refl, inl, inr, Bool, true, false, none, some, String, List, [], ◌∷◌, ◌++◌,
  ltb, ◌==◌, nat_eq, string_eq, beq_self, arith, Bool-cases, any, find, find-snoc,
}
use neo_nect_server.Error.{Result, ok, Result-cases}
use neo_nect_server.Db.{UserRow, BlockType, BlockRow, Tables, quiet, statement, transaction}
use neo_nect_server.Friends.Protocol.{calm}
use neo_nect_server.Accounts.{
  validate_username_format, validate_password_complexity, is_username_taken, insert_user,
  insert_auth_block, create_user, is_auth_block, is_auth_of, register,
}

abbrev pub new_user : String → String → Tables → UserRow
new_user identity_blob username_hash t = record {
  id = t.last_user_id + 1;
  username_hash = username_hash;
  identity_blob = identity_blob;
}

abbrev pub auth_block : String → Tables → BlockRow
auth_block key t = record {
  user_id = t.last_user_id + 1;
  block_type = BlockType.auth;
  sub_block_id = none;
  payload = key;
  created_at = 0;
}

-- the tables with one more account
abbrev pub with_account : String → String → String → Tables → Tables
with_account identity_blob username_hash key t = record t {
  users = t.users ++ (new_user identity_blob username_hash t ∷ []);
  user_blocks = t.user_blocks ++ (auth_block key t ∷ []);
  last_user_id = t.last_user_id + 1;
}

abbrev pub is_named : String → UserRow → Bool
is_named username_hash u = u.username_hash == username_hash

user_created :
    (identity_blob username_hash key : String) (t : Tables) (n : ℕ)
    → any (is_named username_hash) t.users ≡ false
    → create_user identity_blob username_hash key (calm t n) ≡ (
      ok (t.last_user_id + 1),
      calm (with_account identity_blob username_hash key t) (suc (suc (suc (suc n)))),
    )
unfolding create_user transaction statement insert_user insert_auth_block
user_created identity_blob username_hash key t n fresh = rw fresh refl

-- An accepted registration: the password's hash, and the account in the tables.
pub record Registered (hash : String → String) (hash_password : String → Result String)
    (username password : String) (uid : ℕ) (t : Tables) : Type 0 where
  pub stored : String
  pub hashed : hash_password password ≡ ok stored
  pub free : any (is_named (hash username)) t.users ≡ false
  pub allocated : t.last_user_id + 1 ≡ uid
  pub result :
      (register hash hash_password username password (quiet t)).1.tables
      ≡ with_account username (hash username) stored t

pub register-ok :
    (hash : String → String) (hash_password : String → Result String) (username password : String)
    (uid : ℕ) (t : Tables)
    → (register hash hash_password username password (quiet t)).0 ≡ ok uid
    → Registered hash hash_password username password uid t
unfolding register is_username_taken statement
register-ok hash hash_password username password uid t =
    elim (Result-cases (validate_username_format username)) [
      | inr (e, bad) ↦ rw bad (λ h. absurd cc)
      | inl (_, good) ↦ elim (Result-cases (validate_password_complexity password)) [
        | inr (e, bad) ↦ rw (good, bad) (λ h. absurd cc)
        | inl (_, strong) ↦ elim (Bool-cases (any (is_named (hash username)) t.users)) [
          | inl taken ↦ rw (good, strong, taken) (λ h. absurd cc)
          | inr free ↦ elim (Result-cases (hash_password password)) [
            | inr (e, bad) ↦ rw (good, strong, free, bad) (λ h. absurd cc)
            | inl (stored, hashed) ↦
                let made = user_created username (hash username) stored t 1 free in
                rw (good, strong, free, hashed, made)
                  (λ h. record {
                    stored = stored;
                    hashed = hashed;
                    free = free;
                    allocated = cc;
                    result = rw (good, strong, free, hashed, made) refl;
                  })
          ]
        ]
      ]
    ]

-- Every block is of a user that AUTOINCREMENT has given an id.
abbrev pub IsAllocated : Tables → Type 0
IsAllocated t = any (λ b. ltb t.last_user_id b.user_id) t.user_blocks ≡ false

-- No user of the old tables has the name, and the new user has no block among the old ones.
none_of_user :
    (h : String) (users : List UserRow) (u : UserRow) (b : BlockRow)
    → any (is_named h) users ≡ false
    → b.user_id < u.id
    → is_auth_of h (users ++ (u ∷ [])) b ≡ false
unfolding is_auth_of any
none_of_user h [] u b free older = ground arith
none_of_user h (v ∷ users) u b free older = ground (arith, none_of_user h users u b)

none_of_old :
    (h : String) (users : List UserRow) (u : UserRow) (last : ℕ) (blocks : List BlockRow)
    → any (is_named h) users ≡ false
    → last < u.id
    → any (λ b. ltb last b.user_id) blocks ≡ false
    → find (is_auth_of h (users ++ (u ∷ []))) blocks ≡ none
unfolding find any
none_of_old h users u last [] free newer old = refl
none_of_old h users u last (b ∷ blocks) free newer old =
    ground (arith, none_of_user h users u b, none_of_old h users u last blocks)

new_is_auth :
    (h : String) (users : List UserRow) (u : UserRow) (b : BlockRow)
    → is_auth_block b ≡ true
    → u.id ≡ b.user_id
    → u.username_hash ≡ h
    → is_auth_of h (users ++ (u ∷ [])) b ≡ true
unfolding is_auth_of any
new_is_auth h [] u b auth same named = ground (arith, same, named, auth, beq_self u.id, beq_self h)
new_is_auth h (v ∷ users) u b auth same named =
    ground (arith, new_is_auth h users u b auth same named)

pub account_found :
    (name h key : String) (t : Tables)
    → IsAllocated t
    → any (is_named h) t.users ≡ false
    → find (is_auth_of h (with_account name h key t).users) (with_account name h key t).user_blocks
      ≡ some (auth_block key t)
account_found name h key t allocated free =
    find-snoc _ t.user_blocks (auth_block key t)
      (none_of_old h t.users (new_user name h t) t.last_user_id t.user_blocks free (omega arith)
        allocated)
      (new_is_auth h t.users (new_user name h t) (auth_block key t) refl refl refl)
