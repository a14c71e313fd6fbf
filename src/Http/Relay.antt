-- ===== src/Http/Relay.antt =====
-- internal/api/relay_handlers.go: the handlers of the messages. A negative protocol version, which is
-- refused as every version but 1 and 2 is, is no number here.
use neo_nect_server.Base.{
  ℕ, not, ◌||◌, Option, none, some, String, Bytes, ◌==◌, nat_eq, string_eq, map, if◌then◌else◌,
}
use neo_nect_server.Error.{
  Error, unauthorized_sender, recipient_device_not_found, duplicate_conflict,
  mailbox_quota_exceeded, recipient_not_found, recipient_no_devices,
}
use neo_nect_server.Db.{QueueRow}
use neo_nect_server.Queue.{get_queue, acknowledge}
use neo_nect_server.Relay.{Notices, send, send_envelope}
use neo_nect_server.Devices.Service.{validate_active_device_ownership}
use neo_nect_server.Sockets.{Manager, acquire, upgrade_failed, install}
use neo_nect_server.Http.{
  Env, Request, Parsed, DeliveryMessage, messages, socket, Response, plain, failure, value, Http,
  pure, ◌>>=◌, ◌>>◌, answer, ask, require_session, check_message_limit, parse_json, require_text,
  require, unauthorized, bad_request, server_error, not_found, success,
}
use neo_nect_server.Http.Devices.{decoded}

pub record RelayMessageRequest : Type 0 where
  pub message_id : String
  pub from_device_id : String
  pub recipient_device_id : String
  pub protocol_version : Option ℕ
  pub to_username : String
  pub ciphertext : String

pub record AcknowledgeRequest : Type 0 where
  pub device_id : String
  pub message_id : ℕ

unfoldable pub send_envelope_error : Error → Response
send_envelope_error unauthorized_sender = failure 403 "unauthorized"
send_envelope_error recipient_device_not_found = not_found
send_envelope_error duplicate_conflict = failure 409 "conflict"
send_envelope_error mailbox_quota_exceeded = failure 413 "quota exceeded"
send_envelope_error e = server_error

unfoldable pub send_error : Error → Response
send_error unauthorized_sender = failure 403 "unauthorized"
send_error recipient_not_found = not_found
send_error recipient_no_devices = failure 422 "recipient has no registered devices"
send_error mailbox_quota_exceeded = failure 413 "quota exceeded"
send_error e = server_error

-- the checks of the request's fields, up to the version that it names
unfoldable pub require_version : RelayMessageRequest → Option ℕ → Http ℕ
require_version request none = answer bad_request
require_version request (some version) =
    if version == 2
    then (do
      require bad_request (not (request.recipient_device_id == "" || request.message_id == ""))
      pure version)
    else if version == 1
    then (do require bad_request (not (request.to_username == "")); pure version)
    else answer bad_request

module _ (env : Env) where
  -- `ValidateActiveDeviceOwnership`, 500 where it fails and 401 where the device is not the user's
  unfoldable pub require_own_device : ℕ → String → Http (Unit {0})
  require_own_device uid device_id = do
    is_owned ← ask (λ _. server_error) (validate_active_device_ownership uid device_id)
    require unauthorized is_owned

  unfoldable pub deliver : Request → ℕ → RelayMessageRequest → ℕ → Bytes → Http Notices
  unfolding send_envelope_error send_error
  deliver r uid request version cipher =
      if version == 2
      then ask send_envelope_error (
          send_envelope env.queue r.unix env.message_ttl uid (record {
            message_id = request.message_id;
            sender_device_id = request.from_device_id;
            recipient_device_id = request.recipient_device_id;
            protocol_version = version;
            payload = cipher;
          }))
      else ask send_error
          (send env.hash env.queue r.unix env.message_ttl uid request.to_username cipher)

  unfoldable pub handle_send_relay_message : Request → Parsed RelayMessageRequest → Http Response
  unfolding require_version require_own_device deliver decoded
  handle_send_relay_message r body = do
    uid ← require_session env r
    check_message_limit r uid
    request ← parse_json body
    require bad_request (not (request.from_device_id == "" || request.ciphertext == ""))
    version ← require_version request request.protocol_version
    require_own_device uid request.from_device_id
    cipher ← decoded (env.decode_base64 request.ciphertext)
    deliver r uid request version cipher
    pure (success 201)

  abbrev pub to_message : QueueRow → DeliveryMessage
  to_message item = record {
    id = item.id;
    message_id = item.message_id;
    sender_device_id = item.sender_device_id;
    protocol_version = item.protocol_version;
    ciphertext = env.encode_base64 item.payload;
  }

  unfoldable pub handle_poll_relay_messages : Request → Http Response
  unfolding require_own_device
  handle_poll_relay_messages r = do
    uid ← require_session env r
    check_message_limit r uid
    require_text r.device_id
    require_own_device uid r.device_id
    items ← ask (λ _. server_error) (get_queue r.unix r.device_id)
    pure (plain 200 (messages (map to_message items)))

  unfoldable pub handle_acknowledge_message : Request → Parsed AcknowledgeRequest → Http Response
  unfolding require_own_device
  handle_acknowledge_message r body = do
    uid ← require_session env r
    check_message_limit r uid
    request ← parse_json body
    require_own_device uid request.device_id
    ask (λ _. server_error) (acknowledge request.device_id request.message_id)
    pure (success 200)

  -- `HandleConnection`, up to the first read: the semaphore, the upgrade and the session
  unfoldable pub upgraded : String → Option ℕ → Manager → Response × Manager
  upgraded device_id (some status) m = (plain status socket, upgrade_failed m)
  upgraded device_id none m = (plain 101 socket, install device_id m)

  unfoldable pub connected : String → Option ℕ → Manager → Option Manager → Response × Manager
  unfolding upgraded
  connected device_id upgrade m none =
      (failure 503 "Service Unavailable: connection limit reached", m)
  connected device_id upgrade m (some m') = upgraded device_id upgrade m'

  unfoldable pub handle_connection : Request → Http Response
  unfolding connected
  handle_connection r s =
      let (response, m) =
        connected r.device_id r.upgrade s.sockets (acquire env.max_global_web_sockets s.sockets) in
      (value response, record s { sockets = m })

  unfoldable pub handle_web_socket : Request → Http Response
  unfolding require_own_device handle_connection
  handle_web_socket r = do
    uid ← require_session env r
    check_message_limit r uid
    require_text r.device_id
    require_own_device uid r.device_id
    handle_connection r
