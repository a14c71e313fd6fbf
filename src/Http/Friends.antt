-- ===== src/Http/Friends.antt =====
-- internal/api/friend_handlers.go: the handlers of friends and of friend requests.
use neo_nect_server.Base.{ℕ, String, trim_space}
use neo_nect_server.Error.{
  Error, self_friendship, user_not_found, duplicate_friendship, request_already_sent,
  request_already_received, request_not_found, unauthorized_action,
}
use neo_nect_server.Friends.Service.{
  add_friend, remove_friend, accept_request, decline_request, cancel_request,
}
use neo_nect_server.Friends.Listings.{get_friends, get_requests}
use neo_nect_server.Http.{
  Env, Request, Method, Parsed, of_error, Body, friends, requests, Response, plain, Http, pure,
  ◌>>=◌, ◌>>◌, answer, ask, require_session, check_discovery_limit, parse_json, require_text,
  server_error, not_found, method_not_allowed, success,
}

pub record AddFriendRequest : Type 0 where
  pub username : String

-- `hm.sendError(w, err.Error(), …)`
abbrev pub report : ℕ → Error → Response
report status e = plain status (Body.error (of_error e))

-- `parseJSON`, and the name trimmed and not empty
unfoldable pub read_username : Parsed AddFriendRequest → Http String
read_username body = do
  req ← parse_json body
  require_text (trim_space req.username)
  pure (trim_space req.username)

unfoldable pub add_friend_error : Error → Response
add_friend_error self_friendship = report 400 self_friendship
add_friend_error user_not_found = not_found
add_friend_error duplicate_friendship = report 409 duplicate_friendship
add_friend_error request_already_sent = report 409 request_already_sent
add_friend_error request_already_received = report 409 request_already_received
add_friend_error e = server_error

unfoldable pub remove_friend_error : Error → Response
remove_friend_error user_not_found = not_found
remove_friend_error e = server_error

-- of `AcceptRequest`, `DeclineRequest` and `CancelRequest`
unfoldable pub request_error : Error → Response
request_error user_not_found = not_found
request_error request_not_found = not_found
request_error unauthorized_action = report 403 unauthorized_action
request_error e = server_error

module _ (env : Env) where
  unfoldable pub handle_add_friend : Request → Parsed AddFriendRequest → Http Response
  unfolding read_username add_friend_error
  handle_add_friend r body = do
    uid ← require_session env r
    check_discovery_limit r uid
    username ← read_username body
    ask add_friend_error (add_friend env.hash uid username)
    pure (success 201)

  unfoldable pub handle_list_friends : Request → Http Response
  handle_list_friends r = do
    uid ← require_session env r
    names ← ask (λ _. server_error) (get_friends uid)
    pure (plain 200 (friends names))

  unfoldable pub handle_remove_friend : Request → Parsed AddFriendRequest → Http Response
  unfolding read_username remove_friend_error
  handle_remove_friend r body = do
    uid ← require_session env r
    username ← read_username body
    ask remove_friend_error (remove_friend env.hash uid username)
    pure (success 200)

  unfoldable pub handle_friends_v1 : Request → Method → Parsed AddFriendRequest → Http Response
  handle_friends_v1 r Method.get body = handle_list_friends r
  handle_friends_v1 r Method.post body = handle_add_friend r body
  handle_friends_v1 r Method.delete body = handle_remove_friend r body
  handle_friends_v1 r Method.other body = answer method_not_allowed

  unfoldable pub handle_list_requests : Request → Http Response
  handle_list_requests r = do
    uid ← require_session env r
    list ← ask (λ _. server_error) (get_requests uid)
    pure (plain 200 (requests list.incoming list.outgoing))

  unfoldable pub handle_accept_request : Request → Parsed AddFriendRequest → Http Response
  unfolding read_username request_error
  handle_accept_request r body = do
    uid ← require_session env r
    username ← read_username body
    ask request_error (accept_request env.hash uid username)
    pure (success 200)

  unfoldable pub handle_decline_request : Request → Parsed AddFriendRequest → Http Response
  unfolding read_username request_error
  handle_decline_request r body = do
    uid ← require_session env r
    username ← read_username body
    ask request_error (decline_request env.hash uid username)
    pure (success 200)

  unfoldable pub handle_cancel_request : Request → Parsed AddFriendRequest → Http Response
  unfolding read_username request_error
  handle_cancel_request r body = do
    uid ← require_session env r
    username ← read_username body
    ask request_error (cancel_request env.hash uid username)
    pure (success 200)

  unfoldable pub handle_requests_v1 : Request → Method → Parsed AddFriendRequest → Http Response
  handle_requests_v1 r Method.get body = handle_list_requests r
  handle_requests_v1 r Method.delete body = handle_cancel_request r body
  handle_requests_v1 r Method.post body = answer method_not_allowed
  handle_requests_v1 r Method.other body = answer method_not_allowed
