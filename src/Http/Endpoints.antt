-- ===== src/Http/Endpoints.antt =====
-- internal/app/app_routes.go, on the handlers of internal/api: the requests that need a session.
use neo_nect_server.Base.{Bytes}
use neo_nect_server.Error.{Result}
use neo_nect_server.Http.{Env, Request, Parsed, PrekeyBundleResponse, Response, Http}
use neo_nect_server.Http.Friends.{
  AddFriendRequest, handle_add_friend, handle_list_friends, handle_remove_friend,
  handle_list_requests, handle_accept_request, handle_decline_request, handle_cancel_request,
}
use neo_nect_server.Http.Devices.{
  DeviceEnrollmentRequest, DeviceRevocationRequest, handle_register_device,
  handle_get_device_public_key, handle_get_recipient_keys, handle_revoke_device,
  handle_list_devices,
}
use neo_nect_server.Http.Relay.{
  RelayMessageRequest, AcknowledgeRequest, handle_send_relay_message, handle_poll_relay_messages,
  handle_acknowledge_message, handle_web_socket,
}
use neo_nect_server.Http.Prekeys.{
  PrekeyUploadRequest, PrekeyClaimRequest, handle_upload_prekeys, handle_claim_prekeys,
}
use neo_nect_server.Http.System.{
  handle_get_profile, handle_verify_security_system, handle_get_presence,
}

-- A handler, with the decoded body that it is given.
pub data Endpoint : Type 0 where
  list_friends list_requests get_device_public_key get_recipient_keys list_devices : Endpoint
  poll_relay_messages web_socket get_profile get_presence : Endpoint
  add_friend remove_friend accept_request decline_request cancel_request :
      Parsed AddFriendRequest → Endpoint
  register_device : Parsed DeviceEnrollmentRequest → Endpoint
  revoke_device : Parsed DeviceRevocationRequest → Endpoint
  send_relay_message : Parsed RelayMessageRequest → Endpoint
  acknowledge_message : Parsed AcknowledgeRequest → Endpoint
  upload_prekeys : Parsed PrekeyUploadRequest → Endpoint
  claim_prekeys : (PrekeyBundleResponse → Result Bytes) → Parsed PrekeyClaimRequest → Endpoint
  verify_security_system : Bytes → Endpoint

unfoldable pub serve : Env → Endpoint → Request → Http Response
serve env Endpoint.list_friends r = handle_list_friends env r
serve env Endpoint.list_requests r = handle_list_requests env r
serve env Endpoint.get_device_public_key r = handle_get_device_public_key env r
serve env Endpoint.get_recipient_keys r = handle_get_recipient_keys env r
serve env Endpoint.list_devices r = handle_list_devices env r
serve env Endpoint.poll_relay_messages r = handle_poll_relay_messages env r
serve env Endpoint.web_socket r = handle_web_socket env r
serve env Endpoint.get_profile r = handle_get_profile env r
serve env Endpoint.get_presence r = handle_get_presence env r
serve env (Endpoint.add_friend body) r = handle_add_friend env r body
serve env (Endpoint.remove_friend body) r = handle_remove_friend env r body
serve env (Endpoint.accept_request body) r = handle_accept_request env r body
serve env (Endpoint.decline_request body) r = handle_decline_request env r body
serve env (Endpoint.cancel_request body) r = handle_cancel_request env r body
serve env (Endpoint.register_device body) r = handle_register_device env r body
serve env (Endpoint.revoke_device body) r = handle_revoke_device env r body
serve env (Endpoint.send_relay_message body) r = handle_send_relay_message env r body
serve env (Endpoint.acknowledge_message body) r = handle_acknowledge_message env r body
serve env (Endpoint.upload_prekeys body) r = handle_upload_prekeys env r body
serve env (Endpoint.claim_prekeys marshal body) r = handle_claim_prekeys env marshal r body
serve env (Endpoint.verify_security_system seed) r = handle_verify_security_system env seed r
