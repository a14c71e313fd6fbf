-- ===== src/Http/Auth.antt =====
-- internal/api/auth_handlers.go: the handlers of the accounts and of the sessions. The answer sets the
-- session cookie to `set_cookie`, with the attributes of the source.
use neo_nect_server.Base.{Option, none, some, String, trim_space, if◌then◌else◌}
use neo_nect_server.Error.{Error, username_taken}
use neo_nect_server.Rate.Requests.{allow_auth_attempt}
use neo_nect_server.Sessions.{delete_session}
use neo_nect_server.Accounts.{is_username_available, register, login}
use neo_nect_server.Http.{
  Env, Request, Method, Parsed, of_error, Body, generic, signed_up, logged_in, availability,
  Response, plain, failure, value, Http, pure, ◌>>=◌, ◌>>◌, answer, ask, get_token, parse_json,
  require_text, server_error, method_not_allowed, success,
}

pub record Credentials : Type 0 where
  pub username : String
  pub password : String

-- `if !hm.RateLimiter.AllowAuthAttempt(ip) { … }`
unfoldable pub check_auth_limit : Request → Http (Unit {0})
check_auth_limit r s =
    let (admitted, limiter) = allow_auth_attempt s.limiter r.client_ip r.nano in
    (if admitted then pure tt else answer (failure 429 "too many requests"))
      (record s { limiter = limiter })

unfoldable pub register_error : Error → Response
register_error username_taken = failure 409 "username is already taken"
register_error e = plain 400 (Body.error (of_error e))

abbrev pub login_error : Error → Response
login_error e = plain 401 (Body.error (of_error e))

module _ (env : Env) where
  unfoldable pub handle_check_username : Request → Http Response
  unfolding check_auth_limit
  handle_check_username r = do
    check_auth_limit r
    require_text (trim_space r.u)
    available ← ask (λ _. server_error) (is_username_available env.hash (trim_space r.u))
    pure (plain 200 (availability available))

  unfoldable pub handle_register_user : Request → Parsed Credentials → Http Response
  unfolding check_auth_limit register_error
  handle_register_user r body = do
    check_auth_limit r
    request ← parse_json body
    uid ← ask register_error (register env.hash env.hash_password request.username request.password)
    pure (plain 201 (signed_up uid))

  unfoldable pub handle_login_user : Request → Parsed Credentials → Http Response
  unfolding check_auth_limit
  handle_login_user r body = do
    check_auth_limit r
    request ← parse_json body
    token ← ask login_error (
        login env.hash env.check_password env.encode_hex r.unix r.drawn request.username
          request.password)
    pure (record { status = 200; body = logged_in token; set_cookie = some token })

  -- after `getToken`: the error of `Logout` is dropped
  unfoldable pub logged_out : Option String → Http Response
  logged_out none s = (value (success 200), s)
  logged_out (some token) s =
      let (_, cache, w) = delete_session env.hash token s.cache s.world in
      (
        value (record { status = 200; body = generic; set_cookie = some "" }),
        record s { cache = cache; world = w },
      )

  unfoldable pub handle_logout_user : Request → Http Response
  unfolding logged_out
  handle_logout_user r = logged_out (get_token r)

  unfoldable pub handle_auth_v1 : Request → Method → Parsed Credentials → Http Response
  handle_auth_v1 r Method.post body = handle_login_user r body
  handle_auth_v1 r Method.delete body = handle_logout_user r
  handle_auth_v1 r Method.get body = answer method_not_allowed
  handle_auth_v1 r Method.other body = answer method_not_allowed
