-- ===== src/Db.antt =====
-- The SQLite database behind internal/infrastructure/persistence: its tables (schema and migrations
-- of manager.go), and programs of SQL statements over it. A statement is a function on the tables.
-- The driver may fail any statement, BEGIN and COMMIT included: `fails n` says whether the n-th
-- call of the driver does, for a cancelled context, a busy database or any other reason. A call
-- that fails changes no table. Between two calls no other program runs.
pub mod Keeps
use neo_nect_server.Base.{ℕ, suc, String, Bytes, Bool, false, Option, List, [], if◌then◌else◌}
use neo_nect_server.Error.{Error, driver_failure, Result, ok, err}

pub record UserRow : Type 0 where
  pub id : ℕ
  pub username_hash : String
  pub identity_blob : String

pub data BlockType : Type 0 where
  auth session : BlockType

-- `user_blocks`; `created_at` in seconds
pub record BlockRow : Type 0 where
  pub user_id : ℕ
  pub block_type : BlockType
  pub sub_block_id : Option String
  pub payload : String
  pub created_at : ℕ

pub data DeviceStatus : Type 0 where
  active revoked : DeviceStatus

pub record DeviceRow : Type 0 where
  pub device_id : String
  pub user_id : ℕ
  pub identity_key : Bytes
  pub status : DeviceStatus

pub record FriendshipRow : Type 0 where
  pub user_id_1 : ℕ
  pub user_id_2 : ℕ

pub record FriendRequestRow : Type 0 where
  pub user_id_1 : ℕ
  pub user_id_2 : ℕ
  pub sender_id : ℕ

pub record QueueRow : Type 0 where
  pub id : ℕ
  pub device_id : String
  pub payload : Bytes
  pub expiry : ℕ
  pub sequence : ℕ
  pub retry_count : ℕ
  pub next_retry : ℕ
  pub ack_deadline : ℕ
  pub message_id : Option String
  pub sender_device_id : Option String
  pub protocol_version : Option ℕ

pub record SignedRow : Type 0 where
  pub device_id : String
  pub key_id : ℕ
  pub public_key : Bytes
  pub signature : Bytes

pub data PrekeyStatus : Type 0 where
  available consumed : PrekeyStatus

pub record OneTimeRow : Type 0 where
  pub device_id : String
  pub key_id : ℕ
  pub public_key : Bytes
  pub status : PrekeyStatus

-- `http_status` and `response_payload` are NULL until the response is stored.
pub record IdempotencyRow : Type 0 where
  pub user_id : ℕ
  pub idempotency_key : String
  pub request_fingerprint : String
  pub target_device_id : String
  pub response : Option (Bytes × ℕ)

-- The tables, and the last ids that AUTOINCREMENT gave out.
pub record Tables : Type 0 where
  pub users : List UserRow
  pub user_blocks : List BlockRow
  pub devices : List DeviceRow
  pub friendships : List FriendshipRow
  pub friend_requests : List FriendRequestRow
  pub delivery_queue : List QueueRow
  pub signed_curve : List SignedRow
  pub one_time_curve : List OneTimeRow
  pub signed_pq : List SignedRow
  pub one_time_pq : List OneTimeRow
  pub idempotency : List IdempotencyRow
  pub last_user_id : ℕ
  pub last_queue_id : ℕ

pub record World : Type 0 where
  pub tables : Tables
  pub calls : ℕ
  pub fails : ℕ → Bool

-- A world whose driver never fails.
abbrev pub quiet : Tables → World
quiet t = record { tables = t; calls = 0; fails = λ _. false }

abbrev pub Db : Type 0 → Type 0
Db A = World → Result A × World

abbrev pub pure : {A : Type 0} → A → Db A
pure a w = (ok a, w)

abbrev pub raise : {A : Type 0} → Error → Db A
raise e w = (err e, w)

abbrev pub continue : {A B : Type 0} → Result A → (A → Db B) → Db B
continue (ok a) f w = f a w
continue (err e) f w = (err e, w)

infixl 5 ◌>>=◌ ◌>>◌
abbrev pub ◌>>=◌ : {A B : Type 0} → Db A → (A → Db B) → Db B
◌>>=◌ m f w = let (r, w') = m w in continue r f w'

abbrev pub ◌>>◌ : {A B : Type 0} → Db A → Db B → Db B
m >> n = m >>= λ _. n

-- `if err != nil` with the error in hand: the result of `m` as a value.
abbrev pub attempt : {A : Type 0} → Db A → Db (Result A)
attempt m w = let (r, w') = m w in (ok r, w')

abbrev pub settle : {A : Type 0} → Result (A × Tables) → World → Result A × World
settle (ok (a, t)) w = (ok a, record w { tables = t })
settle (err e) w = (err e, w)

-- One call of `ExecContext`, `QueryContext` or `QueryRowContext` with its `Scan`.
unfoldable pub statement : {A : Type 0} → (Tables → Result (A × Tables)) → Db A
statement f w =
    if w.fails w.calls
    then (err driver_failure, record w { calls = suc w.calls })
    else settle (f w.tables) (record w { calls = suc w.calls })

abbrev pub commit : {A : Type 0} → Tables → Result A → World → Result A × World
commit before (err e) w = (err e, record w { tables = before })
commit before (ok a) w =
    if w.fails w.calls
    then (err driver_failure, record w { tables = before; calls = suc w.calls })
    else (ok a, record w { calls = suc w.calls })

-- `BeginTx`, a body, and `Commit`; the deferred `Rollback` on every way out but a commit.
unfoldable pub transaction : {A : Type 0} → Db A → Db A
transaction body w =
    if w.fails w.calls
    then (err driver_failure, record w { calls = suc w.calls })
    else (let (r, w') = body (record w { calls = suc w.calls }) in commit w.tables r w')

-- How a body of a transaction ends that returns a value with or without `Commit`.
pub data Ending (A : Type 0) : Type 0 where
  to_commit to_roll_back : A → Ending A

abbrev pub conclude : {A : Type 0} → Tables → Result (Ending A) → World → Result A × World
conclude before (err e) w = (err e, record w { tables = before })
conclude before (ok (to_roll_back a)) w = (ok a, record w { tables = before })
conclude before (ok (to_commit a)) w = commit before (ok a) w

unfoldable pub transaction_ending : {A : Type 0} → Db (Ending A) → Db A
transaction_ending body w =
    if w.fails w.calls
    then (err driver_failure, record w { calls = suc w.calls })
    else (let (r, w') = body (record w { calls = suc w.calls }) in conclude w.tables r w')
