-- ===== src/Http/Tests.antt =====
-- Runs of the handlers of internal/api on two users, of whom Alice has asked Bob and Bob is logged in.
use neo_nect_server.Base.{
  ◌≡◌, refl, arith, true, false, none, some, [], ◌∷◌, ◌==◌, string_eq, nat_eq, any, find, lookup,
  count, trim_space,
}
use neo_nect_server.Error.{ok, err, no_rows}
use neo_nect_server.Db.{UserRow, BlockType, BlockRow, DeviceRow, DeviceStatus, Tables, World, quiet}
use neo_nect_server.Sessions.{get_user_id_by_session}
use neo_nect_server.Rate.Requests.{Limits}
use neo_nect_server.Rate.Requests
use neo_nect_server.Sockets
use neo_nect_server.Friends.{has_user}
use neo_nect_server.Friends.Invariant.{IsConsistent}
use neo_nect_server.Friends.Protocol.{Status, status, accept, IsNamed, status_of}
use neo_nect_server.Http.{
  Env, Request, parsed, Server, answered, generic, success, written, unauthorized, get_session_user,
  get_token,
}
use neo_nect_server.Http.Friends.{handle_accept_request}
use neo_nect_server.Http.Auth.{handle_logout_user}
use neo_nect_server.Http.Endpoints.{Endpoint, serve}
use neo_nect_server.Http.Guard.{looked_up, unauthorized_refused}
use neo_nect_server.Http.Passage.{Refusal}
use neo_nect_server.Http.Own.{device_of, owns, foreign_device_refused}
use neo_nect_server.Http.Accept.{IsCached, reply_for, handle_accept_request_refines}
use neo_nect_server.Http.Logout.{logout_unnoticed}

abbrev env : Env
env = record {
  hash = λ s. s;
  hash_password = λ p. ok p;
  check_password = λ p h. p == h;
  encode_hex = λ b. "token";
  decode_base64 = λ s. some [];
  encode_base64 = λ b. "";
  protect = λ b. ok b;
  reveal = λ b. ok b;
  fingerprint = λ u d. d;
  queue = record {
    max_envelope_bytes = 4;
    max_mailbox_messages = 2;
    max_mailbox_bytes = 8;
    delivery_batch_size = 10;
  };
  message_ttl = 60;
  http_max_body_bytes = 4096;
  max_devices_per_user = 5;
  max_global_web_sockets = 10;
}

-- a request with the token of Bob's session
abbrev request : Request
request = record {
  authorization = "Bearer bobs";
  cookie = none;
  client_ip = "10.0.0.1";
  device_id = "laptop";
  u = "";
  idempotency_key = "";
  unix = 100;
  nano = 0;
  drawn = ok [];
  upgrade = none;
  database_intact = true;
}

abbrev alice : UserRow
alice = record { id = 1; username_hash = "alice"; identity_blob = "alice" }

abbrev bob : UserRow
bob = record { id = 2; username_hash = "bob"; identity_blob = "bob" }

abbrev bobs_session : BlockRow
bobs_session = record {
  user_id = 2;
  block_type = BlockType.session;
  sub_block_id = some "bobs";
  payload = "";
  created_at = 50;
}

-- Alice's laptop
abbrev laptop : DeviceRow
laptop = record {
  device_id = "laptop";
  user_id = 1;
  identity_key = [];
  status = DeviceStatus.active;
}

abbrev tables : Tables
tables = record {
  users = alice ∷ bob ∷ [];
  user_blocks = bobs_session ∷ [];
  devices = laptop ∷ [];
  friendships = [];
  friend_requests = record { user_id_1 = 1; user_id_2 = 2; sender_id = 1 } ∷ [];
  delivery_queue = [];
  signed_curve = [];
  one_time_curve = [];
  signed_pq = [];
  one_time_pq = [];
  idempotency = [];
  last_user_id = 2;
  last_queue_id = 0;
}

abbrev limits : Limits
limits = record {
  max_conn_per_ip = 10;
  max_req_per_sec_ip = 50;
  max_msg_per_sec = 100;
  max_discovery_per_sec = 10;
  max_auth_per_sec_ip = 5;
}

abbrev server_on : World → Server
server_on w = record {
  cache = ("bobs", record { uid = 2; expires_at = 86450 }) ∷ [];
  world = w;
  limiter = Requests.init (λ s. 0) (λ n. n) limits;
  sockets = Sockets.init;
}

abbrev server : Server
server = server_on (quiet tables)

abbrev anonymous : Request
anonymous = record request { authorization = "" }

no_token : (get_session_user env anonymous server.cache server.world).0 ≡ err no_rows
unfolding get_session_user
no_token = refl

unauthorized_refused_example :
    serve env Endpoint.list_friends anonymous server
    ≡ (answered unauthorized, looked_up env anonymous server)
unauthorized_refused_example =
    unauthorized_refused env Endpoint.list_friends anonymous server no_rows no_token

bob_found : (get_session_user env request server.cache server.world).0 ≡ ok 2
unfolding get_session_user get_user_id_by_session lookup
bob_found = refl

not_bobs : owns 2 "laptop" (looked_up env request server).world.tables ≡ false
unfolding looked_up any get_session_user get_user_id_by_session lookup
not_bobs = refl

foreign_device_refused_example :
    Refusal
      (looked_up env request server).world.tables
      (looked_up env request server).sockets
      (serve env Endpoint.poll_relay_messages request server)
unfolding device_of
foreign_device_refused_example =
    foreign_device_refused env Endpoint.poll_relay_messages "laptop" request server 2 bob_found refl
      not_bobs

bob-IsCached : IsCached env request 2 server
unfolding get_token lookup
bob-IsCached = record {
  token = "bobs";
  expires_at = 86450;
  given = refl;
  entry = refl;
  live = refl;
}

tables-IsConsistent : IsConsistent tables
unfolding any count
tables-IsConsistent = record {
  disjoint = λ u1 u2 h. cc;
  one_request = λ u1 u2. ground arith;
  one_friendship = λ u1 u2. omega arith;
  in_order = λ u1 u2 h. ground arith;
  known = λ u1 u2 h. ground arith;
}

names_alice : IsNamed env.hash (trim_space " alice ") alice tables
unfolding find trim_space
names_alice = record { not_blank = refl; registered = refl }

bob_known : has_user 2 tables ≡ true
unfolding any
bob_known = refl

handle_accept_request_refines_example :
    (written (handle_accept_request env request (parsed (record { username = " alice " })) server).0
      ≡ success 200)
    × (status 2 1
          (handle_accept_request env request
            (parsed (record { username = " alice " }))
            server).1.world.tables
        ≡ Status.friends)
unfolding accept status_of any find reply_for
handle_accept_request_refines_example =
    handle_accept_request_refines env request (record { username = " alice " }) 2 alice tables
      server refl bob-IsCached tables-IsConsistent bob_known names_alice (λ h. omega (arith, h))

-- a driver whose first call fails
abbrev failing : World
failing = record (quiet tables) { fails = λ n. n == 0 }

logout_unnoticed_example :
    (written (handle_logout_user env request (server_on failing)).0
      ≡ record { status = 200; body = generic; set_cookie = some "" })
    × ((get_user_id_by_session env.hash 100 "bobs"
          (handle_logout_user env request (server_on failing)).1.cache
          (quiet (handle_logout_user env request (server_on failing)).1.world.tables)).0
        ≡ ok 2)
unfolding get_token find lookup
logout_unnoticed_example =
    logout_unnoticed env request 100 "bobs" bobs_session (server_on failing)
      (quiet (handle_logout_user env request (server_on failing)).1.world.tables) refl (refl, tt)
      refl refl refl refl refl
