-- ===== src/Http.antt =====
-- internal/api/handlers.go and internal/api/handler_utils.go: the server that the HTTP handlers share,
-- and the steps that they begin with. A handler reads the request and its decoded body, and either
-- goes on or answers at once. The clock is read once for each request.
pub mod Auth
pub mod Friends
pub mod Devices
pub mod Relay
pub mod Prekeys
pub mod System
pub mod Guard
pub mod Endpoints
pub mod Passage
pub mod Own
pub mod Accept
pub mod Logout
mod Tests
use Prim.Native.Char.{code}
use neo_nect_server.Base.{
  ℕ, Bool, true, false, Option, none, some, String, Bytes, List, [], ◌∷◌, ◌==◌, nat_eq, string_eq,
  if◌then◌else◌,
}
use neo_nect_server.Error.{Error, Result, ok, err, no_rows}
use neo_nect_server.Db.{World, Db}
use neo_nect_server.Queue.{QueueConfig}
use neo_nect_server.Sessions.{Cache, Call, get_user_id_by_session}
use neo_nect_server.Rate.Requests.{RequestRateLimiter, allow_message, allow_discovery}
use neo_nect_server.Sockets.{Manager}

-- What the handlers use of Go's library, of the vault and of the configuration.
pub record Env : Type 0 where
  pub hash : String → String
  pub hash_password : String → Result String
  pub check_password : String → String → Bool
  pub encode_hex : Bytes → String
  pub decode_base64 : String → Option Bytes
  pub encode_base64 : Bytes → String
  pub protect : Bytes → Result Bytes
  pub reveal : Bytes → Result Bytes
  pub fingerprint : String → String → String
  pub queue : QueueConfig
  pub message_ttl : ℕ
  pub http_max_body_bytes : ℕ
  pub max_devices_per_user : ℕ
  pub max_global_web_sockets : ℕ

-- What a handler reads of the request, its body aside; `drawn` is what `rand.Read` answers, `upgrade`
-- the status that a failed WebSocket upgrade answers, and `database_intact` what the integrity
-- repository finds.
pub record Request : Type 0 where
  pub authorization : String
  pub cookie : Option String
  pub client_ip : String
  pub device_id : String
  pub u : String
  pub idempotency_key : String
  pub unix : ℕ
  pub nano : ℕ
  pub drawn : Result Bytes
  pub upgrade : Option ℕ
  pub database_intact : Bool

pub data Method : Type 0 where
  get post delete other : Method

-- What `json.Decoder` makes of the body.
pub data Parsed (A : Type 0) : Type 0 where
  parsed : A → Parsed A
  too_large malformed : Parsed A

pub record Server : Type 0 where
  pub cache : Cache
  pub world : World
  pub limiter : RequestRateLimiter
  pub sockets : Manager

-- a text of the source, or `err.Error()`
pub data Message : Type 0 where
  text : String → Message
  of_error : Error → Message

pub record DeviceKeyResponse : Type 0 where
  pub device_id : String
  pub public_key : String

pub record DeliveryMessage : Type 0 where
  pub id : ℕ
  pub message_id : Option String
  pub sender_device_id : Option String
  pub protocol_version : Option ℕ
  pub ciphertext : String

pub record SignedPrekeyJson : Type 0 where
  pub key_id : ℕ
  pub public_key : String
  pub signature : String

pub record OneTimePrekeyJson : Type 0 where
  pub key_id : ℕ
  pub public_key : String

pub record PrekeyBundleResponse : Type 0 where
  pub identity_key : String
  pub signed_curve_prekey : Option SignedPrekeyJson
  pub signed_pq_prekey : Option SignedPrekeyJson
  pub one_time_curve_prekey : Option OneTimePrekeyJson
  pub one_time_pq_prekey : Option OneTimePrekeyJson

-- The bodies of the answers: `error` for `ErrorResponse`, `generic` for `GenericResponse`, and the
-- payload of each of the others.
pub data Body : Type 0 where
  error : Message → Body
  generic : Body
  signed_up : ℕ → Body
  logged_in : String → Body
  availability : Bool → Body
  friends : List String → Body
  requests : List String → List String → Body
  device_key : DeviceKeyResponse → Body
  recipient_keys : List DeviceKeyResponse → Body
  devices : List String → Body
  messages : List DeliveryMessage → Body
  bundle : PrekeyBundleResponse → Body
  stored : Bytes → Body
  profile : String → Body
  presence : Bool → Body
  capabilities : ℕ → ℕ → ℕ → Body
  socket : Body

-- `set_cookie` is the value that the session cookie is set to.
pub record Response : Type 0 where
  pub status : ℕ
  pub body : Body
  pub set_cookie : Option String

abbrev pub plain : ℕ → Body → Response
plain status body = record { status = status; body = body; set_cookie = none }

abbrev pub failure : ℕ → String → Response
failure status message = plain status (error (text message))

pub data Reply (A : Type 0) : Type 0 where
  value : A → Reply A
  answered : Response → Reply A

abbrev pub Http : Type 0 → Type 0
Http A = Server → Reply A × Server

abbrev pub pure : {A : Type 0} → A → Http A
pure a s = (value a, s)

abbrev pub answer : {A : Type 0} → Response → Http A
answer r s = (answered r, s)

abbrev pub proceed : {A B : Type 0} → Reply A → (A → Http B) → Http B
proceed (value a) f s = f a s
proceed (answered r) f s = (answered r, s)

infixl 5 ◌>>=◌ ◌>>◌
abbrev pub ◌>>=◌ : {A B : Type 0} → Http A → (A → Http B) → Http B
◌>>=◌ m f s = let (r, s') = m s in proceed r f s'

abbrev pub ◌>>◌ : {A B : Type 0} → Http A → Http B → Http B
m >> n = m >>= λ _. n

-- A call of a service, with its error as a value.
abbrev pub query : {A : Type 0} → Db A → Http (Result A)
query m s = let (r, w) = m s.world in (value r, record s { world = w })

-- A call of a service, with what to answer to each of its errors.
abbrev pub settled : {A : Type 0} → (Error → Response) → Result A → Http A
settled f (ok a) = pure a
settled f (err e) = answer (f e)

abbrev pub ask : {A : Type 0} → (Error → Response) → Db A → Http A
ask f m = query m >>= settled f

-- `strings.HasPrefix` with `strings.TrimPrefix`
unfoldable pub cut_prefix : String → String → Option String
cut_prefix String.[] s = some s
cut_prefix (String.◌∷◌ c p) String.[] = none
cut_prefix (String.◌∷◌ c p) (String.◌∷◌ d s) =
    let rest = cut_prefix p s in if code c == code d then rest else none

unfoldable pub get_token : Request → Option String
unfolding cut_prefix
get_token req = elim (cut_prefix "Bearer " req.authorization) [
  | some token ↦ some token
  | none ↦ req.cookie
]

-- `http.ErrNoCookie` stands for no row: `requireSession` reads no error.
unfoldable pub session_of : (String → String) → ℕ → Option String → Call ℕ
session_of hash now none cache w = (err no_rows, cache, w)
session_of hash now (some token) cache w = get_user_id_by_session hash now token cache w

unfoldable pub get_session_user : Env → Request → Call ℕ
unfolding get_token session_of
get_session_user env req cache w = session_of env.hash req.unix (get_token req) cache w

abbrev pub unauthorized : Response
unauthorized = failure 401 "unauthorized"

abbrev pub bad_request : Response
bad_request = failure 400 "bad request"

abbrev pub server_error : Response
server_error = failure 500 "internal server error"

abbrev pub not_found : Response
not_found = failure 404 "resource not found"

abbrev pub method_not_allowed : Response
method_not_allowed = failure 405 "method not allowed"

abbrev pub success : ℕ → Response
success status = plain status generic

unfoldable pub require_session : Env → Request → Http ℕ
unfolding get_session_user
require_session env req s =
    let (r, cache, w) = get_session_user env req s.cache s.world in
    settled (λ _. unauthorized) r (record s { cache = cache; world = w })

unfoldable pub check_message_limit : Request → ℕ → Http (Unit {0})
check_message_limit req uid s =
    let (admitted, limiter) = allow_message s.limiter uid req.nano in
    (if admitted then pure tt else answer (failure 429 "too many messages"))
      (record s { limiter = limiter })

unfoldable pub check_discovery_limit : Request → ℕ → Http (Unit {0})
check_discovery_limit req uid s =
    let (admitted, limiter) = allow_discovery s.limiter uid req.nano in
    (if admitted then pure tt else answer (failure 429 "too many discovery requests"))
      (record s { limiter = limiter })

unfoldable pub parse_json : {A : Type 0} → Parsed A → Http A
parse_json (parsed a) = pure a
parse_json too_large = answer (failure 413 "request entity too large")
parse_json malformed = answer bad_request

-- `if x == "" { … 400 … }`
unfoldable pub require_text : String → Http (Unit {0})
require_text x = if x == "" then answer bad_request else pure tt

-- `if !ok { … }`
unfoldable pub require : Response → Bool → Http (Unit {0})
require r holds = if holds then pure tt else answer r

-- What is written at last.
unfoldable pub written : Reply Response → Response
written (value r) = r
written (answered r) = r
