-- ===== src/Friends/Service.antt =====
-- internal/service/friend_service.go: the friend service, over the friendship repository. The user
-- acts under the id of the session; the other user is named by a user name, hashed by
-- `security.ComputeHash`, which is the parameter `hash`.
use neo_nect_server.Base.{
  ℕ, suc, zero, Bool, true, false, not, none, some, String, ◌==◌, nat_eq, string_eq, if◌then◌else◌,
  find, trim_space,
}
use neo_nect_server.Error.{
  Error, Result, ok, err, no_rows, duplicate_record, record_not_found, user_not_found,
  self_friendship, duplicate_friendship, request_already_sent, request_already_received,
  request_not_found, unauthorized_action, concurrent_modifications,
}
use neo_nect_server.Db.{Tables, Db, pure, raise, ◌>>=◌, attempt, statement}
use neo_nect_server.Friends.{
  check_friendship, remove_friendship, create_friend_request, get_friend_request_sender,
  accept_friend_request, decline_friend_request, cancel_friend_request,
}

-- `UserRepository.GetUserIdByUsername`
unfoldable pub select_user_id : String → Tables → Result (ℕ × Tables)
select_user_id name_hash t = elim (find (λ u. u.username_hash == name_hash) t.users) [
  | none ↦ err no_rows
  | some u ↦ ok (u.id, t)
]

unfoldable pub no_rows_to_user : Error → Error
no_rows_to_user no_rows = user_not_found
no_rows_to_user e = e

unfoldable pub found_user : Result ℕ → Db ℕ
unfolding no_rows_to_user
found_user (ok uid) = pure uid
found_user (err e) = raise (no_rows_to_user e)

-- `errors.Is(err, persistence.ErrRecordNotFound)`
unfoldable pub not_found_to_request : Error → Error
not_found_to_request record_not_found = request_not_found
not_found_to_request e = e

unfoldable pub requested : {A : Type 0} → Result A → Db A
unfolding not_found_to_request
requested (ok a) = pure a
requested (err e) = raise (not_found_to_request e)

unfoldable pub are_friends : ℕ → ℕ → Db Bool
are_friends uid1 uid2 = check_friendship uid1 uid2

-- what one pass of the loop of `AddFriend` ends with: `return err`, or `continue`
pub data Pass : Type 0 where
  finished : Result (Unit {0}) → Pass
  again : Pass

-- after `CheckFriendship`
unfoldable pub checked : Result Bool → Db Pass
checked (err e) = pure (finished (err e))
checked (ok true) = pure (finished (err duplicate_friendship))
checked (ok false) = pure again

-- after `GetFriendRequestSender`
unfoldable pub sender_checked : ℕ → ℕ → Result ℕ → Db Pass
unfolding checked
sender_checked me target (ok sender) =
    pure (finished (err (if sender == me then request_already_sent else request_already_received)))
sender_checked me target (err record_not_found) = do
  exists ← attempt (check_friendship me target)
  checked exists
sender_checked me target (err e) = pure (finished (err e))

-- after `CreateFriendRequest`
unfoldable pub create_checked : ℕ → ℕ → Result (Unit {0}) → Db Pass
unfolding sender_checked
create_checked me target (ok _) = pure (finished (ok tt))
create_checked me target (err duplicate_record) = do
  sender ← attempt (get_friend_request_sender me target)
  sender_checked me target sender
create_checked me target (err e) = pure (finished (err e))

unfoldable pub add_attempt : ℕ → ℕ → Db Pass
unfolding create_checked
add_attempt me target = do
  done ← attempt (create_friend_request me target)
  create_checked me target done

unfoldable pub next_pass : Db (Unit {0}) → Pass → Db (Unit {0})
next_pass rest (finished (ok _)) = pure tt
next_pass rest (finished (err e)) = raise e
next_pass rest again = rest

-- the loop of `AddFriend`, with the passes left
unfoldable pub add_loop : ℕ → ℕ → ℕ → Db (Unit {0})
unfolding next_pass
add_loop me target zero = raise concurrent_modifications
add_loop me target (suc left) =
    let rest = add_loop me target left in add_attempt me target >>= next_pass rest

module _ (hash : String → String) where
  unfoldable pub get_target_user_id : String → Db ℕ
  unfolding found_user select_user_id
  get_target_user_id username =
      let name = trim_space username in
      if name == ""
      then raise user_not_found
      else do uid ← attempt (statement (select_user_id (hash name))); found_user uid

  unfoldable pub add_friend : ℕ → String → Db (Unit {0})
  add_friend me username = do
    target ← get_target_user_id username
    if me == target then raise self_friendship else add_loop me target 3

  unfoldable pub remove_friend : ℕ → String → Db (Unit {0})
  remove_friend me username = do target ← get_target_user_id username; remove_friendship me target

  unfoldable pub accept_request : ℕ → String → Db (Unit {0})
  unfolding requested
  accept_request me username = do
    target ← get_target_user_id username
    found ← attempt (get_friend_request_sender me target)
    sender ← requested found
    if not (sender == target)
        then raise unauthorized_action
        else do done ← attempt (accept_friend_request target me); requested done

  unfoldable pub decline_request : ℕ → String → Db (Unit {0})
  unfolding requested
  decline_request me username = do
    target ← get_target_user_id username
    found ← attempt (get_friend_request_sender me target)
    sender ← requested found
    if not (sender == target)
        then raise unauthorized_action
        else do done ← attempt (decline_friend_request target me); requested done

  unfoldable pub cancel_request : ℕ → String → Db (Unit {0})
  unfolding requested
  cancel_request me username = do
    target ← get_target_user_id username
    found ← attempt (get_friend_request_sender me target)
    sender ← requested found
    if not (sender == me)
        then raise unauthorized_action
        else do done ← attempt (cancel_friend_request me target); requested done
