-- ===== src/Sessions.antt =====
-- internal/infrastructure/persistence/session_manager.go: the sessions, in the table `user_blocks` and
-- in a cache of the process. `hash` is `security.ComputeHash` and `now` what `time.Now().Unix()` answers.
-- No two calls run at once.
pub mod Logout
mod Tests
use neo_nect_server.Base.{
  ℕ, ◌+◌, Bool, true, false, not, ◌&&◌, Option, none, some, String, List, [], ◌∷◌, ◌++◌, ltb, ◌==◌,
  string_eq, if◌then◌else◌, any, find, delete, Assoc, lookup, insert, remove,
}
use neo_nect_server.Error.{
  Error, Result, ok, err, no_rows, unique_violation, foreign_key_violation, session_expired,
}
use neo_nect_server.Db.{BlockType, BlockRow, Tables, World, Db, pure, raise, ◌>>=◌, ◌>>◌, statement}
use neo_nect_server.Friends.{has_user}
use neo_nect_server.Friends.Service.{select_user_id}

pub record CachedSession : Type 0 where
  pub uid : ℕ
  pub expires_at : ℕ

abbrev pub Cache : Type 0
Cache = Assoc String CachedSession

-- `config.SessionDuration`, in seconds
abbrev pub session_duration : ℕ
session_duration = 86400

abbrev pub is_session_block : BlockRow → Bool
is_session_block b = elim b.block_type [ BlockType.session ↦ true | BlockType.auth ↦ false ]

abbrev pub is_session : String → BlockRow → Bool
is_session hashed b =
    is_session_block b && (elim b.sub_block_id [ none ↦ false | some s ↦ s == hashed ])

-- `Queries.CreateSess`; no two sessions have one hash
unfoldable pub insert_session : ℕ → ℕ → String → Tables → Result (Unit {0} × Tables)
insert_session now uid hashed t =
    if any (is_session hashed) t.user_blocks
    then err unique_violation
    else if not (has_user uid t)
    then err foreign_key_violation
    else ok (
      tt,
      record t {
        user_blocks =
            t.user_blocks
            ++ (record {
              user_id = uid;
              block_type = BlockType.session;
              sub_block_id = some hashed;
              payload = "";
              created_at = now;
            }
                ∷ []);
      },
    )

-- `Queries.GetBySessWithTime`
unfoldable pub select_session : String → Tables → Result ((ℕ × ℕ) × Tables)
select_session hashed t = elim (find (is_session hashed) t.user_blocks) [
  | none ↦ err no_rows
  | some b ↦ ok ((b.user_id, b.created_at), t)
]

-- A call: its result, the cache and the world after it.
abbrev pub Call : Type 0 → Type 0
Call A = Cache → World → Result A × Cache × World

unfoldable pub delete_session_by_hash : String → Call (Unit {0})
delete_session_by_hash hashed cache w =
    let (r, w') =
      statement (λ t. ok (tt, record t { user_blocks = delete (is_session hashed) t.user_blocks }))
        w in
    (r, remove hashed cache, w')

-- what the row of the table says at `now`
unfoldable pub loaded : ℕ → String → Result (ℕ × ℕ) → Call ℕ
unfolding delete_session_by_hash
loaded now hashed (err e) cache w = (err e, cache, w)
loaded now hashed (ok (uid, ts)) cache w =
    if ltb (ts + session_duration) now
    then (let (_, cache', w') = delete_session_by_hash hashed cache w in
        (err session_expired, cache', w'))
    else (ok uid, insert hashed (record { uid = uid; expires_at = ts + session_duration }) cache, w)

-- what the cache says, or else the table
unfoldable pub get_by_hash : ℕ → String → Option CachedSession → Call ℕ
unfolding loaded select_session
get_by_hash now hashed (some cs) cache w =
    if ltb cs.expires_at now
    then (err session_expired, remove hashed cache, w)
    else (ok cs.uid, cache, w)
get_by_hash now hashed none cache w =
    let (r, w') = statement (select_session hashed) w in loaded now hashed r cache w'

-- the loop over the cache
unfoldable pub evict : ℕ → Cache → Cache
evict now [] = []
evict now ((h, cs) ∷ cache) =
    let rest = evict now cache in if ltb cs.expires_at now then rest else (h, cs) ∷ rest

-- `created_at < ?` on the times' texts, which order as the times do
unfoldable pub cleanup_expired_sessions : ℕ → Call (Unit {0})
unfolding evict
cleanup_expired_sessions now cache w =
    let (r, w') =
      statement
        (λ t. ok (
          tt,
          record t {
            user_blocks =
                delete (λ b. is_session_block b && ltb (b.created_at + session_duration) now)
                  t.user_blocks;
          },
        ))
        w in
    (r, evict now cache, w')

module _ (hash : String → String) where
  unfoldable pub create_session : ℕ → String → String → Db (Unit {0})
  unfolding insert_session select_user_id
  create_session now username_hash token = do
    uid ← statement (select_user_id username_hash)
    statement (insert_session now uid (hash token))

  unfoldable pub get_user_id_by_session : ℕ → String → Call ℕ
  unfolding get_by_hash
  get_user_id_by_session now token cache w =
      get_by_hash now (hash token) (lookup (hash token) cache) cache w

  unfoldable pub delete_session : String → Call (Unit {0})
  unfolding delete_session_by_hash
  delete_session token cache w = delete_session_by_hash (hash token) cache w
