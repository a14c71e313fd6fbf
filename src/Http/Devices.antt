-- ===== src/Http/Devices.antt =====
-- internal/api/device_handlers.go: the handlers of the devices and of their keys.
use neo_nect_server.Base.{
  ℕ, Bool, true, false, not, ◌||◌, Option, none, some, String, Bytes, ◌==◌, nat_eq, string_eq,
  trim_space, map, if◌then◌else◌,
}
use neo_nect_server.Error.{
  Error, Result, ok, err, no_rows, user_not_found, device_limit_reached, device_conflict,
}
use neo_nect_server.Db.{statement}
use neo_nect_server.Friends.Service.{select_user_id, are_friends}
use neo_nect_server.Devices.Service.{
  register_own, validate_device_ownership, get_own_public_key, list_devices, get_recipient_keys,
  revoke_own,
}
use neo_nect_server.Sockets.{disconnect_device}
use neo_nect_server.Http.{
  Env, Request, Parsed, of_error, Body, device_key, recipient_keys, devices, Response, plain, value,
  Http, pure, ◌>>=◌, ◌>>◌, answer, ask, query, require_session, check_message_limit,
  check_discovery_limit, parse_json, require_text, require, unauthorized, bad_request, server_error,
  not_found, success,
}

pub record DeviceEnrollmentRequest : Type 0 where
  pub device_id : String
  pub public_key : String

pub record DeviceRevocationRequest : Type 0 where
  pub device_id : String

unfoldable pub register_device_error : Error → Response
register_device_error device_limit_reached = plain 400 (Body.error (of_error device_limit_reached))
register_device_error device_conflict = plain 409 (Body.error (of_error device_conflict))
register_device_error e = server_error

-- `err.Error() == "user not found" || errors.Is(err, sql.ErrNoRows)`
unfoldable pub user_error : Error → Response
user_error user_not_found = not_found
user_error no_rows = not_found
user_error e = server_error

-- `base64.StdEncoding.DecodeString`, and 400 where it fails
unfoldable pub decoded : Option Bytes → Http Bytes
decoded (some b) = pure b
decoded none = answer bad_request

-- `if err != nil || !isFriend { … 401 … }`
unfoldable pub friends_only : Result Bool → Http (Unit {0})
friends_only (ok true) = pure tt
friends_only (ok false) = answer unauthorized
friends_only (err _) = answer unauthorized

unfoldable pub authorize_keys : ℕ → ℕ → Http (Unit {0})
unfolding friends_only
authorize_keys uid target =
    if target == uid then pure tt else query (are_friends uid target) >>= friends_only

-- `hm.WSManager.DisconnectDevice`
unfoldable pub disconnect : String → Http (Unit {0})
disconnect device_id s = (value tt, record s { sockets = disconnect_device device_id s.sockets })

module _ (env : Env) where
  unfoldable pub handle_register_device : Request → Parsed DeviceEnrollmentRequest → Http Response
  unfolding decoded register_device_error
  handle_register_device r body = do
    uid ← require_session env r
    check_message_limit r uid
    request ← parse_json body
    require bad_request (not (request.device_id == "" || request.public_key == ""))
    pub_key ← decoded (env.decode_base64 request.public_key)
    ask register_device_error
        (register_own env.protect env.max_devices_per_user uid request.device_id pub_key)
    pure (success 201)

  unfoldable pub handle_get_device_public_key : Request → Http Response
  handle_get_device_public_key r = do
    require_session env r
    require_text r.device_id
    pub_key ← ask (λ _. not_found) (get_own_public_key env.reveal r.device_id)
    pure (
        plain 200
          (device_key (record { device_id = r.device_id; public_key = env.encode_base64 pub_key })))

  unfoldable pub handle_get_recipient_keys : Request → Http Response
  unfolding user_error authorize_keys
  handle_get_recipient_keys r = do
    uid ← require_session env r
    check_message_limit r uid
    check_discovery_limit r uid
    require_text (trim_space r.u)
    target ← ask user_error (statement (select_user_id (env.hash (trim_space r.u))))
    authorize_keys uid target
    keys ← ask user_error (get_recipient_keys env.hash env.reveal (trim_space r.u))
    pure (
        plain 200 (
          recipient_keys (
            map
              (λ d. record { device_id = d.device_id; public_key = env.encode_base64 d.public_key })
              keys)))

  unfoldable pub handle_revoke_device : Request → Parsed DeviceRevocationRequest → Http Response
  unfolding disconnect
  handle_revoke_device r body = do
    uid ← require_session env r
    check_message_limit r uid
    request ← parse_json body
    require_text request.device_id
    is_owned ← ask (λ _. server_error) (validate_device_ownership uid request.device_id)
    require unauthorized is_owned
    ask (λ _. server_error) (revoke_own uid request.device_id)
    disconnect request.device_id
    pure (success 200)

  unfoldable pub handle_list_devices : Request → Http Response
  handle_list_devices r = do
    uid ← require_session env r
    ids ← ask (λ _. server_error) (list_devices uid)
    pure (plain 200 (devices ids))
