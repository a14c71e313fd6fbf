-- ===== src/Http/System.antt =====
-- internal/api/sys_handlers.go: the handlers of the profile, of presence and of the state of the server.
-- `SystemVault.VerifyIntegrity` is on the bytes of `config.IntegrityCheckSeed`.
use neo_nect_server.Base.{
  Bool, true, false, ◌||◌, String, Bytes, List, [], ◌∷◌, ◌==◌, string_eq, bytes_eq, if◌then◌else◌,
}
use neo_nect_server.Error.{Result, ok, err}
use neo_nect_server.Db.{statement}
use neo_nect_server.Friends.Service.{select_user_id}
use neo_nect_server.Accounts.{get_username_by_id}
use neo_nect_server.Devices.Service.{list_devices}
use neo_nect_server.Sockets.{Manager, is_device_online}
use neo_nect_server.Http.{
  Env, Request, profile, presence, capabilities, Response, plain, failure, value, Http, pure, ◌>>=◌,
  ◌>>◌, ask, require_session, require, server_error, success,
}

-- `Reveal` of what `Protect` answered, compared with the seed
unfoldable pub unsealed : (Bytes → Result Bytes) → Bytes → Result Bytes → Bool
unsealed reveal seed (err _) = false
unsealed reveal seed (ok sealed) = elim (reveal sealed) [
  | err _ ↦ false
  | ok opened ↦ opened == seed
]

unfoldable pub verify_integrity : (Bytes → Result Bytes) → (Bytes → Result Bytes) → Bytes → Bool
unfolding unsealed
verify_integrity protect reveal seed = unsealed reveal seed (protect seed)

-- the loop of `GetPresence`
unfoldable pub any_online : List String → Manager → Bool
any_online [] m = false
any_online (d ∷ ids) m = is_device_online d m || any_online ids m

abbrev pub offline : Response
offline = plain 200 (presence false)

unfoldable pub online_of : List String → Http Response
unfolding any_online
online_of ids s = (value (plain 200 (presence (any_online ids s.sockets))), s)

module _ (env : Env) where
  unfoldable pub handle_get_profile : Request → Http Response
  handle_get_profile r = do
    uid ← require_session env r
    username ← ask (λ _. server_error) (get_username_by_id uid)
    pure (plain 200 (profile username))

  unfoldable pub handle_verify_security_system : Bytes → Request → Http Response
  unfolding verify_integrity
  handle_verify_security_system seed r = do
    require_session env r
    require (failure 403 "vault integrity check failed")
        (verify_integrity env.protect env.reveal seed)
    require (failure 403 "database integrity check failed") r.database_intact
    pure (success 200)

  unfoldable pub handle_health_check : Request → Http Response
  handle_health_check r = do
    require (failure 503 "database unavailable") r.database_intact
    pure (success 200)

  unfoldable pub handle_get_presence : Request → Http Response
  unfolding online_of
  handle_get_presence r = do
    require_session env r
    require (failure 400 "missing username parameter") (if r.u == "" then false else true)
    uid ← ask (λ _. offline) (statement (select_user_id (env.hash r.u)))
    ids ← ask (λ _. offline) (list_devices uid)
    online_of ids

  unfoldable pub handle_get_capabilities : Http Response
  handle_get_capabilities = pure (
      plain 200 (
        capabilities env.http_max_body_bytes env.queue.max_envelope_bytes env.max_devices_per_user))
