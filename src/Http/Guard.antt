-- ===== src/Http/Guard.antt =====
-- internal/api: without a valid session nothing happens.
use neo_nect_server.Base.{◌≡◌, refl, ℕ}
use neo_nect_server.Error.{Error, err}
use neo_nect_server.Http.{
  Env, Request, Server, answered, Http, ◌>>=◌, unauthorized, get_session_user, require_session,
}
use neo_nect_server.Http.Endpoints.{Endpoint, serve}
use neo_nect_server.Http.Friends.{
  handle_add_friend, handle_list_friends, handle_remove_friend, handle_list_requests,
  handle_accept_request, handle_decline_request, handle_cancel_request,
}
use neo_nect_server.Http.Devices.{
  handle_register_device, handle_get_device_public_key, handle_get_recipient_keys,
  handle_revoke_device, handle_list_devices,
}
use neo_nect_server.Http.Relay.{
  handle_send_relay_message, handle_poll_relay_messages, handle_acknowledge_message,
  handle_web_socket,
}
use neo_nect_server.Http.Prekeys.{handle_upload_prekeys, handle_claim_prekeys}
use neo_nect_server.Http.System.{
  handle_get_profile, handle_verify_security_system, handle_get_presence,
}

-- The server after the lookup of the session: the cache and the table of the sessions may change.
unfoldable pub looked_up : Env → Request → Server → Server
looked_up env r s =
    let (_, cache, w) = get_session_user env r s.cache s.world in
    record s { cache = cache; world = w }

refused_first :
    {B : Type 0} (env : Env) (r : Request) (s : Server) (e : Error) (f : ℕ → Http B)
    → (get_session_user env r s.cache s.world).0 ≡ err e
    → (require_session env r >>= f) s ≡ (answered unauthorized, looked_up env r s)
unfolding require_session looked_up
refused_first env r s e f none_found = rw none_found refl

-- Every handler that asks for a session answers 401 to a request whose token is missing, unknown or
-- expired, and does nothing else: the server is as the lookup of the session left it.
pub unauthorized_refused :
    (env : Env) (endpoint : Endpoint) (r : Request) (s : Server) (e : Error)
    → (get_session_user env r s.cache s.world).0 ≡ err e
    → serve env endpoint r s ≡ (answered unauthorized, looked_up env r s)
unfolding serve handle_add_friend handle_list_friends handle_remove_friend handle_list_requests
    handle_accept_request handle_decline_request handle_cancel_request handle_register_device
    handle_get_device_public_key handle_get_recipient_keys handle_revoke_device handle_list_devices
    handle_send_relay_message handle_poll_relay_messages handle_acknowledge_message
    handle_web_socket handle_upload_prekeys handle_claim_prekeys handle_get_profile
    handle_verify_security_system handle_get_presence
unauthorized_refused env Endpoint.list_friends r s e h = refused_first env r s e _ h
unauthorized_refused env Endpoint.list_requests r s e h = refused_first env r s e _ h
unauthorized_refused env Endpoint.get_device_public_key r s e h = refused_first env r s e _ h
unauthorized_refused env Endpoint.get_recipient_keys r s e h = refused_first env r s e _ h
unauthorized_refused env Endpoint.list_devices r s e h = refused_first env r s e _ h
unauthorized_refused env Endpoint.poll_relay_messages r s e h = refused_first env r s e _ h
unauthorized_refused env Endpoint.web_socket r s e h = refused_first env r s e _ h
unauthorized_refused env Endpoint.get_profile r s e h = refused_first env r s e _ h
unauthorized_refused env Endpoint.get_presence r s e h = refused_first env r s e _ h
unauthorized_refused env (Endpoint.add_friend body) r s e h = refused_first env r s e _ h
unauthorized_refused env (Endpoint.remove_friend body) r s e h = refused_first env r s e _ h
unauthorized_refused env (Endpoint.accept_request body) r s e h = refused_first env r s e _ h
unauthorized_refused env (Endpoint.decline_request body) r s e h = refused_first env r s e _ h
unauthorized_refused env (Endpoint.cancel_request body) r s e h = refused_first env r s e _ h
unauthorized_refused env (Endpoint.register_device body) r s e h = refused_first env r s e _ h
unauthorized_refused env (Endpoint.revoke_device body) r s e h = refused_first env r s e _ h
unauthorized_refused env (Endpoint.send_relay_message body) r s e h = refused_first env r s e _ h
unauthorized_refused env (Endpoint.acknowledge_message body) r s e h = refused_first env r s e _ h
unauthorized_refused env (Endpoint.upload_prekeys body) r s e h = refused_first env r s e _ h
unauthorized_refused env (Endpoint.claim_prekeys marshal body) r s e h = refused_first env r s e _ h
unauthorized_refused env (Endpoint.verify_security_system seed) r s e h =
    refused_first env r s e _ h
