-- ===== src/Accounts/Login.antt =====
-- internal/service/auth_service.go: a login succeeds for the password of the account and for no
-- other, and its token stands for the user until the session ends.
use neo_nect_server.Base.{
  ℕ, suc, ◌+◌, ◌≤◌, ◌≡◌, ◌⊎◌, refl, sym, inl, inr, Bool, true, false, none, some, String, Bytes, [],
  ◌∷◌, ◌++◌, string_eq, beq_self, arith, Bool-cases, any, find, find-none, find-snoc, any-append,
  any-of-find, ◌==◌, nat_eq, lookup,
}
use neo_nect_server.Error.{Result, ok, err, no_rows, invalid_credentials}
use neo_nect_server.Db.{UserRow, BlockType, BlockRow, Tables, World, quiet, statement}
use neo_nect_server.Friends.Protocol.{calm}
use neo_nect_server.Friends.Service.{select_user_id}
use neo_nect_server.Sessions.{
  Cache, session_duration, is_session, insert_session, select_session, loaded, get_by_hash,
  create_session, get_user_id_by_session,
}
use neo_nect_server.Accounts.{is_auth_of, select_auth, get_auth_key, register, login}
use neo_nect_server.Accounts.Register.{
  is_named, auth_block, with_account, new_user, IsAllocated, register-ok, account_found,
}

select_auth-found :
    (h : String) (t : Tables) (b : BlockRow)
    → find (is_auth_of h t.users) t.user_blocks ≡ some b
    → select_auth h t ≡ ok (b.payload, t)
unfolding select_auth
select_auth-found h t b found = rw (found, select_auth) refl

select_auth-missing :
    (h : String) (t : Tables)
    → find (is_auth_of h t.users) t.user_blocks ≡ none
    → select_auth h t ≡ err no_rows
unfolding select_auth
select_auth-missing h t missing = rw (missing, select_auth) refl

-- The account of the name has no key, or another password's.
abbrev pub IsRefused :
    (String → String) → (String → String → Bool) → String → String → Tables → Type 0
IsRefused hash check_password username password t =
    (find (is_auth_of (hash username) t.users) t.user_blocks ≡ none)
    ⊎ ((b : BlockRow) × (find (is_auth_of (hash username) t.users) t.user_blocks ≡ some b)
        × (check_password password b.payload ≡ false))

-- `Login` answers an unknown name and a wrong password alike, with `ErrInvalidCredentials`, and
-- leaves the tables as they are, whichever driver calls fail.
pub login_opaque :
    (hash : String → String) (check_password : String → String → Bool) (encode : Bytes → String)
    (now : ℕ) (drawn : Result Bytes) (username password : String) (w : World)
    → IsRefused hash check_password username password w.tables
    → ((login hash check_password encode now drawn username password w).0 ≡ err invalid_credentials)
      × ((login hash check_password encode now drawn username password w).1.tables ≡ w.tables)
unfolding login get_auth_key statement
login_opaque hash check_password encode now drawn username password w refused =
    elim (Bool-cases (w.fails w.calls)) [
      | inl failed ↦ rw failed (refl, refl)
      | inr answered ↦ elim refused [
        | inl missing ↦
            rw (answered, select_auth-missing (hash username) w.tables missing) (refl, refl)
        | inr (b, found, wrong) ↦
            rw (answered, select_auth-found (hash username) w.tables b found, wrong) (refl, refl)
      ]
    ]

abbrev session_block : ℕ → ℕ → String → BlockRow
session_block now uid hashed = record {
  user_id = uid;
  block_type = BlockType.session;
  sub_block_id = some hashed;
  payload = "";
  created_at = now;
}

abbrev with_session : ℕ → ℕ → String → Tables → Tables
with_session now uid hashed t = record t {
  user_blocks = t.user_blocks ++ (session_block now uid hashed ∷ []);
}

session_created :
    (hash : String → String) (now : ℕ) (h token : String) (u : UserRow) (t : Tables) (n : ℕ)
    → find (is_named h) t.users ≡ some u
    → any (is_session (hash token)) t.user_blocks ≡ false
    → create_session hash now h token (calm t n)
      ≡ (ok tt, calm (with_session now u.id (hash token) t) (suc (suc n)))
unfolding create_session statement select_user_id insert_session find
session_created hash now h token u t n known fresh =
    rw (known, fresh, any-of-find (is_named h) (λ v. v.id == u.id) t.users u known (beq_self u.id))
      refl

select_session-found :
    (hashed : String) (now uid : ℕ) (t : Tables)
    → any (is_session hashed) t.user_blocks ≡ false
    → select_session hashed (with_session now uid hashed t)
      ≡ ok ((uid, now), with_session now uid hashed t)
unfolding select_session
select_session-found hashed now uid t fresh =
    rw
      (
        find-snoc (is_session hashed) t.user_blocks (session_block now uid hashed)
            (find-none _ t.user_blocks fresh) (beq_self hashed),
        select_session,
      )
      refl

-- A token just made is accepted, for its user, for as long as the session lasts.
session_accepted :
    (hash : String → String) (now later uid : ℕ) (token : String) (cache : Cache) (t : Tables)
    → any (is_session (hash token)) t.user_blocks ≡ false
    → lookup (hash token) cache ≡ none
    → later ≤ now + session_duration
    → (get_user_id_by_session hash later token cache
        (quiet (with_session now uid (hash token) t))).0
      ≡ ok uid
unfolding get_user_id_by_session get_by_hash statement loaded
session_accepted hash now later uid token cache t fresh uncached early =
    rw (uncached, select_session-found (hash token) now uid t fresh) (ground arith)

login_issued :
    (hash : String → String) (check_password : String → String → Bool) (encode : Bytes → String)
    (now : ℕ) (bytes : Bytes) (username password : String) (b : BlockRow) (u : UserRow) (t : Tables)
    → find (is_auth_of (hash username) t.users) t.user_blocks ≡ some b
    → check_password password b.payload ≡ true
    → find (is_named (hash username)) t.users ≡ some u
    → any (is_session (hash (encode bytes))) t.user_blocks ≡ false
    → login hash check_password encode now (ok bytes) username password (quiet t)
      ≡ (ok (encode bytes), calm (with_session now u.id (hash (encode bytes)) t) 3)
unfolding login get_auth_key statement
login_issued hash check_password encode now bytes username password b u t found right known fresh =
    rw
      (
        select_auth-found (hash username) t b found,
        right,
        session_created hash now (hash username) (encode bytes) u t 1 known fresh,
      )
      refl

fresh_with_account :
    (hashed name h key : String) (t : Tables)
    → any (is_session hashed) t.user_blocks ≡ false
    → any (is_session hashed) (with_account name h key t).user_blocks ≡ false
unfolding any
fresh_with_account hashed name h key t fresh =
    rw (any-append (is_session hashed) t.user_blocks (auth_block key t ∷ []), fresh) refl

new_login :
    (hash : String → String) (check_password : String → String → Bool) (encode : Bytes → String)
    (now : ℕ) (bytes : Bytes) (username password key : String) (t : Tables)
    → IsAllocated t
    → any (is_named (hash username)) t.users ≡ false
    → check_password password key ≡ true
    → any (is_session (hash (encode bytes))) t.user_blocks ≡ false
    → login hash check_password encode now
        (ok bytes)
        username
        password
        (quiet (with_account username (hash username) key t))
      ≡ (
        ok (encode bytes),
        calm
            (with_session now
              (t.last_user_id + 1)
              (hash (encode bytes))
              (with_account username (hash username) key t))
            3,
      )
new_login hash check_password encode now bytes username password key t allocated free right fresh =
    login_issued hash check_password encode now bytes username password (auth_block key t)
      (new_user username (hash username) t) (with_account username (hash username) key t)
      (account_found username (hash username) key t allocated free) right
      (find-snoc (is_named (hash username)) t.users (new_user username (hash username) t)
        (find-none (is_named (hash username)) t.users free) (beq_self (hash username)))
      (fresh_with_account (hash (encode bytes)) username (hash username) key t fresh)

-- A user whom `Register` accepted, on a driver that does not fail, logs in with the same name and
-- password, and the token that `Login` then issues is accepted for this user's id until the session
-- ends: a hashed password checks against its hash, every block is of a user that has been given an
-- id, and the token drawn hashes to no session of the table or of the cache.
pub login-register :
    (hash : String → String) (hash_password : String → Result String)
    (check_password : String → String → Bool) (encode : Bytes → String) (now later uid : ℕ)
    (bytes : Bytes) (username password : String) (cache : Cache) (t : Tables)
    → ((p h : String) → hash_password p ≡ ok h → check_password p h ≡ true)
    → IsAllocated t
    → (register hash hash_password username password (quiet t)).0 ≡ ok uid
    → any (is_session (hash (encode bytes))) t.user_blocks ≡ false
    → lookup (hash (encode bytes)) cache ≡ none
    → later ≤ now + session_duration
    → ((login hash check_password encode now
          (ok bytes)
          username
          password
          (quiet (register hash hash_password username password (quiet t)).1.tables)).0
        ≡ ok (encode bytes))
      × ((get_user_id_by_session hash later (encode bytes) cache (
            quiet
              (login hash check_password encode now (ok bytes) username password (
                quiet
                  (register hash hash_password username password (quiet t)).1.tables)).1.tables)).0
          ≡ ok uid)
login-register hash hash_password check_password encode now later uid bytes username password cache
      t opens allocated accepted fresh uncached early =
    let r = register-ok hash hash_password username password uid t accepted in
    let in_ =
      new_login hash check_password encode now bytes username password r.stored t allocated r.free
        (opens password r.stored r.hashed) fresh in
    rw (r.result, in_, sym r.allocated)
      (
        refl,
        session_accepted hash now later (t.last_user_id + 1) (encode bytes) cache
            (with_account username (hash username) r.stored t)
            (fresh_with_account (hash (encode bytes)) username (hash username) r.stored t fresh)
            uncached early,
      )
