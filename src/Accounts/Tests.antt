-- ===== src/Accounts/Tests.antt =====
-- Runs of internal/service/auth_service.go on a database without accounts.
use neo_nect_server.Base.{
  ◌≡◌, refl, inr, arith, true, false, Bool, String, Bytes, [], ◌∷◌, ltb, ◌==◌, string_eq, nat_eq,
  any, find, lookup,
}
use neo_nect_server.Error.{
  Result, ok, err, invalid_credentials, password_complexity, username_too_short,
}
use neo_nect_server.Db.{Tables, quiet, statement, transaction}
use neo_nect_server.Sessions.{get_user_id_by_session}
use neo_nect_server.Accounts.{
  is_auth_of, register, login, validate_username_format, validate_password_complexity,
}
use neo_nect_server.Accounts.Login.{IsRefused, login_opaque, login-register}

abbrev no_accounts : Tables
no_accounts = record {
  users = [];
  user_blocks = [];
  devices = [];
  friendships = [];
  friend_requests = [];
  delivery_queue = [];
  signed_curve = [];
  one_time_curve = [];
  signed_pq = [];
  one_time_pq = [];
  idempotency = [];
  last_user_id = 0;
  last_queue_id = 0;
}

-- the functions of the tests
abbrev plain_hash : String → String
plain_hash s = s

abbrev keep_password : String → Result String
keep_password p = ok p

abbrev same_password : String → String → Bool
same_password p h = p == h

abbrev one_token : Bytes → String
one_token b = "token"

keeps_password : (p h : String) → keep_password p ≡ ok h → same_password p h ≡ true
keeps_password p h e = ground (arith, string_eq.same_iff p h)

too_short : validate_username_format "  ab  " ≡ err username_too_short
unfolding validate_username_format
too_short = refl

-- three bytes of UTF-8 in one letter
long_enough : validate_username_format "猫" ≡ ok tt
unfolding validate_username_format
long_enough = refl

no_number : validate_password_complexity "password" ≡ err password_complexity
unfolding validate_password_complexity
no_number = refl

signed_up : (register plain_hash keep_password "alice" "secret123" (quiet no_accounts)).0 ≡ ok 1
unfolding register statement any transaction
signed_up = refl

nobody : any (λ b. ltb no_accounts.last_user_id b.user_id) no_accounts.user_blocks ≡ false
unfolding any
nobody = refl

login-register_example :
    ((login plain_hash same_password one_token 100 (ok (7 ∷ [])) "alice" "secret123" (
        quiet
          (register plain_hash keep_password "alice" "secret123" (quiet no_accounts)).1.tables)).0
      ≡ ok "token")
    × ((get_user_id_by_session plain_hash 200 "token" [] (
          quiet
            (login plain_hash same_password one_token 100 (ok (7 ∷ [])) "alice" "secret123" (
              quiet
                (register plain_hash keep_password "alice" "secret123"
                  (quiet no_accounts)).1.tables)).1.tables)).0
        ≡ ok 1)
unfolding any lookup
login-register_example =
    login-register plain_hash keep_password same_password one_token 100 200 1 (7 ∷ []) "alice"
      "secret123" [] no_accounts keeps_password refl signed_up refl refl (omega arith)

abbrev with_alice : Tables
with_alice = (register plain_hash keep_password "alice" "secret123" (quiet no_accounts)).1.tables

wrong_password : IsRefused plain_hash same_password "alice" "guess" with_alice
unfolding register find statement any transaction is_auth_of
wrong_password = inr (_, refl, refl)

login_opaque_example :
    ((login plain_hash same_password one_token 100 (ok []) "alice" "guess" (quiet with_alice)).0
      ≡ err invalid_credentials)
    × ((login plain_hash same_password one_token 100
          (ok [])
          "alice"
          "guess"
          (quiet with_alice)).1.tables
        ≡ with_alice)
login_opaque_example =
    login_opaque plain_hash same_password one_token 100 (ok []) "alice" "guess" (quiet with_alice)
      wrong_password

logged_in :
    (login plain_hash same_password one_token 100 (ok []) "alice" "secret123" (quiet with_alice)).0
    ≡ ok "token"
unfolding register login statement find any transaction is_auth_of
logged_in = refl
