-- ===== src/Friends.antt =====
-- internal/infrastructure/persistence/friendship_manager.go: the friendship repository. A pair of
-- users is stored with the smaller id first.
pub mod Invariant
pub mod Operations
pub mod Runs
pub mod Listings
mod Tests
pub mod Protocol
pub mod Service
use neo_nect_server.Base.{
  ℕ, ◌+◌, Bool, true, false, not, ◌&&◌, ◌||◌, Option, none, some, String, List, [], ◌∷◌, ◌++◌, ltb,
  ◌==◌, nat_eq, if◌then◌else◌, any, find, filter, count, delete,
}
use neo_nect_server.Error.{
  Error, Result, ok, err, no_rows, unique_violation, check_violation, foreign_key_violation,
  duplicate_record, record_not_found,
}
use neo_nect_server.Db.{
  UserRow, FriendshipRow, FriendRequestRow, Tables, Db, pure, raise, ◌>>=◌, ◌>>◌, attempt,
  statement, transaction,
}

-- `u1, u2 := …; if u1 > u2 { u1, u2 = u2, u1 }`
abbrev pub ordered : ℕ → ℕ → ℕ × ℕ
ordered a b = if ltb b a then (b, a) else (a, b)

abbrev pub is_friendship : ℕ → ℕ → FriendshipRow → Bool
is_friendship u1 u2 f = f.user_id_1 == u1 && f.user_id_2 == u2

abbrev pub is_request : ℕ → ℕ → FriendRequestRow → Bool
is_request u1 u2 r = r.user_id_1 == u1 && r.user_id_2 == u2

abbrev pub is_request_of : ℕ → ℕ → ℕ → FriendRequestRow → Bool
is_request_of u1 u2 sender r = is_request u1 u2 r && r.sender_id == sender

abbrev pub has_user : ℕ → Tables → Bool
has_user uid t = any (λ u. u.id == uid) t.users

-- `Queries.CheckFriendship`
unfoldable pub check_friendship : ℕ → ℕ → Db Bool
check_friendship a b =
    let (u1, u2) = ordered a b in statement (λ t. ok (any (is_friendship u1 u2) t.friendships, t))

unfoldable pub remove_friendship : ℕ → ℕ → Db (Unit {0})
remove_friendship a b =
    let (u1, u2) = ordered a b in
    statement (λ t. ok (tt, record t { friendships = delete (is_friendship u1 u2) t.friendships }))

-- `Queries.CreateFriendRequest` under the constraints of its table: the rows affected
unfoldable pub insert_friend_request : ℕ → ℕ → ℕ → Tables → Result (ℕ × Tables)
insert_friend_request u1 u2 sender t =
    if any (is_friendship u1 u2) t.friendships
    then ok (0, t)
    else if not (ltb u1 u2) || not (sender == u1 || sender == u2)
    then err check_violation
    else if any (is_request u1 u2) t.friend_requests
    then err unique_violation
    else if not (has_user u1 t && has_user u2 t)
    then err foreign_key_violation
    else ok (
      1,
      record t {
        friend_requests =
            t.friend_requests
            ++ (record { user_id_1 = u1; user_id_2 = u2; sender_id = sender } ∷ []);
      },
    )

-- `isUniqueConstraint`, and the answer to it
unfoldable pub unique_to_duplicate : Error → Error
unique_to_duplicate unique_violation = duplicate_record
unique_to_duplicate e = e

unfoldable pub created : Result ℕ → Db (Unit {0})
created (err e) = raise (unique_to_duplicate e)
created (ok affected) = if affected == 0 then raise duplicate_record else pure tt

unfoldable pub create_friend_request : ℕ → ℕ → Db (Unit {0})
unfolding created insert_friend_request unique_to_duplicate
create_friend_request sender receiver =
    let (u1, u2) = ordered sender receiver in
    (do inserted ← attempt (statement (insert_friend_request u1 u2 sender)); created inserted)

-- `Queries.GetFriendRequestSender`
unfoldable pub select_sender : ℕ → ℕ → Tables → Result (ℕ × Tables)
select_sender u1 u2 t = elim (find (is_request u1 u2) t.friend_requests) [
  | none ↦ err no_rows
  | some r ↦ ok (r.sender_id, t)
]

-- `errors.Is(err, sql.ErrNoRows)`
unfoldable pub no_rows_to_not_found : Error → Error
no_rows_to_not_found no_rows = record_not_found
no_rows_to_not_found e = e

unfoldable pub sender_or : Result ℕ → Db ℕ
sender_or (ok sender) = pure sender
sender_or (err e) = raise (no_rows_to_not_found e)

unfoldable pub get_friend_request_sender : ℕ → ℕ → Db ℕ
unfolding sender_or select_sender no_rows_to_not_found
get_friend_request_sender a b =
    let (u1, u2) = ordered a b in
    (do found ← attempt (statement (select_sender u1 u2)); sender_or found)

-- `Queries.DeleteFriendRequest`: the rows affected
unfoldable pub delete_friend_request : ℕ → ℕ → ℕ → Tables → Result (ℕ × Tables)
delete_friend_request u1 u2 sender t = ok (
  count (is_request_of u1 u2 sender) t.friend_requests,
  record t { friend_requests = delete (is_request_of u1 u2 sender) t.friend_requests },
)

-- `Queries.CreateFriendship` under the constraints of its table
unfoldable pub insert_friendship : ℕ → ℕ → Tables → Result (Unit {0} × Tables)
insert_friendship u1 u2 t =
    if not (ltb u1 u2)
    then err check_violation
    else if any (is_friendship u1 u2) t.friendships
    then err unique_violation
    else if not (has_user u1 t && has_user u2 t)
    then err foreign_key_violation
    else ok (
      tt,
      record t { friendships = t.friendships ++ (record { user_id_1 = u1; user_id_2 = u2 } ∷ []) },
    )

unfoldable pub befriended : Result (Unit {0}) → Db (Unit {0})
befriended (ok _) = pure tt
befriended (err e) = raise (unique_to_duplicate e)

unfoldable pub accept_friend_request : ℕ → ℕ → Db (Unit {0})
unfolding befriended delete_friend_request insert_friendship unique_to_duplicate
accept_friend_request sender recipient =
    let (u1, u2) = ordered sender recipient in
    transaction (do
      affected ← statement (delete_friend_request u1 u2 sender)
      if affected == 0
          then raise record_not_found
          else do inserted ← attempt (statement (insert_friendship u1 u2)); befriended inserted)

unfoldable pub decline_friend_request : ℕ → ℕ → Db (Unit {0})
unfolding delete_friend_request
decline_friend_request sender recipient =
    let (u1, u2) = ordered sender recipient in
    (do
      affected ← statement (delete_friend_request u1 u2 sender)
      if affected == 0 then raise record_not_found else pure tt)

unfoldable pub cancel_friend_request : ℕ → ℕ → Db (Unit {0})
unfolding delete_friend_request
cancel_friend_request sender recipient =
    let (u1, u2) = ordered sender recipient in
    (do
      affected ← statement (delete_friend_request u1 u2 sender)
      if affected == 0 then raise record_not_found else pure tt)
