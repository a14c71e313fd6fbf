-- ===== src/Http/Own.antt =====
-- internal/api/relay_handlers.go: nobody reads, acknowledges, sends from or connects a device but its
-- owner, while the device is active.
use mathlib.Core.Path.{subst}
use neo_nect_server.Base.{
  ℕ, ◌≡◌, refl, sym, Bool, false, ◌&&◌, Option, none, some, String, arith, ◌==◌, nat_eq, string_eq,
  any, some-injective,
}
use neo_nect_server.Error.{ok}
use neo_nect_server.Db.{Tables}
use neo_nect_server.Relay.{is_active}
use neo_nect_server.Http.{
  Env, Request, parsed, too_large, malformed, Server, Response, Http, ◌>>=◌, get_session_user,
  require_session, parse_json, bad_request,
}
use neo_nect_server.Http.Relay.{
  RelayMessageRequest, AcknowledgeRequest, handle_send_relay_message, handle_poll_relay_messages,
  handle_acknowledge_message, handle_web_socket,
}
use neo_nect_server.Http.Endpoints.{Endpoint, serve}
use neo_nect_server.Http.Guard.{looked_up}
use neo_nect_server.Http.Passage.{
  IsAt, Refusal, then_stops, limit_passes, require_passes, text_passes, own_stops, version_passes,
}

-- The active device that a request acts for.
unfoldable pub device_of : Endpoint → Request → Option String
device_of Endpoint.poll_relay_messages r = some r.device_id
device_of Endpoint.web_socket r = some r.device_id
device_of (Endpoint.send_relay_message (parsed q)) r = some q.from_device_id
device_of (Endpoint.acknowledge_message (parsed q)) r = some q.device_id
device_of endpoint r = none

abbrev pub owns : ℕ → String → Tables → Bool
owns uid device_id t =
    any (λ d. d.device_id == device_id && d.user_id == uid && is_active d) t.devices

pub entered :
    {B : Type 0} (env : Env) (r : Request) (s : Server) (uid : ℕ) (f : ℕ → Http B)
    → (get_session_user env r s.cache s.world).0 ≡ ok uid
    → (require_session env r >>= f) s ≡ f uid (looked_up env r s)
unfolding require_session looked_up
entered env r s uid f found = rw found refl

-- The handlers, for a device that the user of the session does not own.
module _ (env : Env) (r : Request) (s : Server) (uid : ℕ)
    (found : (get_session_user env r s.cache s.world).0 ≡ ok uid) where
  abbrev Refuses : Http Response → Type 0
  Refuses m = Refusal (looked_up env r s).world.tables (looked_up env r s).sockets (m s)

  here : IsAt (looked_up env r s).world.tables (looked_up env r s).sockets (looked_up env r s)
  here = record { tables = refl; sockets = refl }

  poll_refused :
      owns uid r.device_id (looked_up env r s).world.tables ≡ false
      → Refuses (handle_poll_relay_messages env r)
  unfolding handle_poll_relay_messages
  poll_refused foreign = rw (entered env r s uid _ found) (
      then_stops _ _ _ _ (limit_passes _ _ r uid (looked_up env r s) here) λ _ s₁ at₁.
        then_stops _ _ _ _ (text_passes _ _ r.device_id s₁ at₁)
          λ _ s₂ at₂. own_stops _ _ env uid r.device_id _ s₂ foreign at₂)

  web_socket_refused :
      owns uid r.device_id (looked_up env r s).world.tables ≡ false
      → Refuses (handle_web_socket env r)
  unfolding handle_web_socket
  web_socket_refused foreign = rw (entered env r s uid _ found) (
      then_stops _ _ _ _ (limit_passes _ _ r uid (looked_up env r s) here) λ _ s₁ at₁.
        then_stops _ _ _ _ (text_passes _ _ r.device_id s₁ at₁)
          λ _ s₂ at₂. own_stops _ _ env uid r.device_id _ s₂ foreign at₂)

  acknowledge_refused :
      (q : AcknowledgeRequest)
      → owns uid q.device_id (looked_up env r s).world.tables ≡ false
      → Refuses (handle_acknowledge_message env r (parsed q))
  unfolding handle_acknowledge_message parse_json
  acknowledge_refused q foreign = rw (entered env r s uid _ found) (
      then_stops _ _ _ _ (limit_passes _ _ r uid (looked_up env r s) here)
        λ _ s₁ at₁. own_stops _ _ env uid q.device_id _ s₁ foreign at₁)

  send_refused :
      (q : RelayMessageRequest)
      → owns uid q.from_device_id (looked_up env r s).world.tables ≡ false
      → Refuses (handle_send_relay_message env r (parsed q))
  unfolding handle_send_relay_message parse_json
  send_refused q foreign = rw (entered env r s uid _ found) (
      then_stops _ _ _ _ (limit_passes _ _ r uid (looked_up env r s) here) λ _ s₁ at₁.
        then_stops _ _ _ _ (require_passes _ _ bad_request _ s₁ (omega arith) at₁) λ _ s₂ at₂.
          then_stops _ _ _ _ (version_passes _ _ q q.protocol_version s₂ at₂)
            λ _ s₃ at₃. own_stops _ _ env uid q.from_device_id _ s₃ foreign at₃)

same_device :
    (uid : ℕ) (d d' : String) (t : Tables)
    → some d ≡ some d'
    → owns uid d' t ≡ false
    → owns uid d t ≡ false
same_device uid d d' t same foreign =
    subst (λ x. owns uid x t ≡ false) (sym (some-injective same)) foreign

-- A request that polls, acknowledges, sends from or connects a device which is not an active device of
-- the user of its session is answered with an error, and changes no table and no connection, the
-- lookup of the session aside, whichever driver calls fail.
pub foreign_device_refused :
    (env : Env) (endpoint : Endpoint) (device_id : String) (r : Request) (s : Server) (uid : ℕ)
    → (get_session_user env r s.cache s.world).0 ≡ ok uid
    → device_of endpoint r ≡ some device_id
    → owns uid device_id (looked_up env r s).world.tables ≡ false
    → Refusal (looked_up env r s).world.tables (looked_up env r s).sockets (serve env endpoint r s)
unfolding serve device_of
foreign_device_refused env Endpoint.poll_relay_messages device_id r s uid found names foreign =
    poll_refused env r s uid found
      (same_device uid r.device_id device_id (looked_up env r s).world.tables names foreign)
foreign_device_refused env Endpoint.web_socket device_id r s uid found names foreign =
    web_socket_refused env r s uid found
      (same_device uid r.device_id device_id (looked_up env r s).world.tables names foreign)
foreign_device_refused env (Endpoint.send_relay_message (parsed q)) device_id r s uid found names
      foreign =
    send_refused env r s uid found q
      (same_device uid q.from_device_id device_id (looked_up env r s).world.tables names foreign)
foreign_device_refused env (Endpoint.acknowledge_message (parsed q)) device_id r s uid found names
      foreign =
    acknowledge_refused env r s uid found q
      (same_device uid q.device_id device_id (looked_up env r s).world.tables names foreign)
foreign_device_refused env Endpoint.list_friends device_id r s uid found names foreign = absurd cc
foreign_device_refused env Endpoint.list_requests device_id r s uid found names foreign = absurd cc
foreign_device_refused env Endpoint.get_device_public_key device_id r s uid found names foreign =
    absurd cc
foreign_device_refused env Endpoint.get_recipient_keys device_id r s uid found names foreign =
    absurd cc
foreign_device_refused env Endpoint.list_devices device_id r s uid found names foreign = absurd cc
foreign_device_refused env Endpoint.get_profile device_id r s uid found names foreign = absurd cc
foreign_device_refused env Endpoint.get_presence device_id r s uid found names foreign = absurd cc
foreign_device_refused env (Endpoint.add_friend body) device_id r s uid found names foreign =
    absurd cc
foreign_device_refused env (Endpoint.remove_friend body) device_id r s uid found names foreign =
    absurd cc
foreign_device_refused env (Endpoint.accept_request body) device_id r s uid found names foreign =
    absurd cc
foreign_device_refused env (Endpoint.decline_request body) device_id r s uid found names foreign =
    absurd cc
foreign_device_refused env (Endpoint.cancel_request body) device_id r s uid found names foreign =
    absurd cc
foreign_device_refused env (Endpoint.register_device body) device_id r s uid found names foreign =
    absurd cc
foreign_device_refused env (Endpoint.revoke_device body) device_id r s uid found names foreign =
    absurd cc
foreign_device_refused env (Endpoint.upload_prekeys body) device_id r s uid found names foreign =
    absurd cc
foreign_device_refused env (Endpoint.send_relay_message too_large) device_id r s uid found names
      foreign =
    absurd cc
foreign_device_refused env (Endpoint.send_relay_message malformed) device_id r s uid found names
      foreign =
    absurd cc
foreign_device_refused env (Endpoint.acknowledge_message too_large) device_id r s uid found names
      foreign =
    absurd cc
foreign_device_refused env (Endpoint.acknowledge_message malformed) device_id r s uid found names
      foreign =
    absurd cc
foreign_device_refused env (Endpoint.claim_prekeys marshal body) device_id r s uid found names
      foreign =
    absurd cc
foreign_device_refused env (Endpoint.verify_security_system seed) device_id r s uid found names
      foreign =
    absurd cc
