-- ===== src/Sessions/Tests.antt =====
-- Runs of internal/infrastructure/persistence/session_manager.go on one session.
use neo_nect_server.Base.{◌≡◌, ◌≢◌, refl, String, some, [], ◌∷◌, Distinct, lookup, string_eq}
use neo_nect_server.Error.{ok}
use neo_nect_server.Db.{BlockType, Tables, quiet, statement}
use neo_nect_server.Sessions.{Cache, get_user_id_by_session, delete_session}
use neo_nect_server.Sessions.Logout.{delete_session_effective}

abbrev one_session : Tables
one_session = record {
  users = [];
  user_blocks =
      record {
        user_id = 1;
        block_type = BlockType.session;
        sub_block_id = some "t";
        payload = "";
        created_at = 50;
      }
      ∷ [];
  devices = [];
  friendships = [];
  friend_requests = [];
  delivery_queue = [];
  signed_curve = [];
  one_time_curve = [];
  signed_pq = [];
  one_time_pq = [];
  idempotency = [];
  last_user_id = 1;
  last_queue_id = 0;
}

abbrev plain_hash : String → String
plain_hash s = s

abbrev warm_cache : Cache
warm_cache = ("t", record { uid = 1; expires_at = 86450 }) ∷ []

warm-Distinct : Distinct warm_cache
unfolding lookup
warm-Distinct = (refl, tt)

logged_out : (delete_session plain_hash "t" warm_cache (quiet one_session)).0 ≡ ok tt
unfolding delete_session statement
logged_out = refl

delete_session_effective_example :
    (get_user_id_by_session plain_hash 60 "t"
      (delete_session plain_hash "t" warm_cache (quiet one_session)).1
      (quiet (delete_session plain_hash "t" warm_cache (quiet one_session)).2.tables)).0
    ≢ ok 1
delete_session_effective_example =
    delete_session_effective plain_hash 60 "t" warm_cache (quiet one_session)
      (quiet (delete_session plain_hash "t" warm_cache (quiet one_session)).2.tables) 1
      warm-Distinct logged_out refl
