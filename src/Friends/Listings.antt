-- ===== src/Friends/Listings.antt =====
-- internal/infrastructure/persistence/friendship_manager.go and internal/service/friend_service.go: the
-- names that the listings answer. The source asks for no order; here it is the order of the joined
-- tables.
use neo_nect_server.Base.{
  ℕ, Bool, not, ◌&&◌, ◌||◌, String, List, [], ◌∷◌, ◌++◌, ◌==◌, nat_eq, if◌then◌else◌, filter, map,
}
use neo_nect_server.Error.{ok}
use neo_nect_server.Db.{UserRow, FriendshipRow, FriendRequestRow, Db, pure, ◌>>=◌, statement}

-- `u.identity_blob` of the users `u` joined with the rows of another table
unfoldable pub join_names :
    {R : Type 0} → (UserRow → R → Bool) → List UserRow → List R → List String
join_names on [] rows = []
join_names on (u ∷ users) rows =
    map (λ _. u.identity_blob) (filter (on u) rows) ++ join_names on users rows

abbrev pub is_friend_of : ℕ → UserRow → FriendshipRow → Bool
is_friend_of uid u f =
    (f.user_id_1 == u.id || f.user_id_2 == u.id)
    && (f.user_id_1 == uid || f.user_id_2 == uid)
    && not (u.id == uid)

unfoldable pub get_friends_list : ℕ → Db (List String)
unfolding join_names
get_friends_list uid = statement (λ t. ok (join_names (is_friend_of uid) t.users t.friendships, t))

-- `Queries.GetIncomingRequests`
abbrev pub asks : ℕ → UserRow → FriendRequestRow → Bool
asks uid u r =
    u.id == r.sender_id && (r.user_id_1 == uid || r.user_id_2 == uid) && not (r.sender_id == uid)

unfoldable pub get_incoming_requests : ℕ → Db (List String)
unfolding join_names
get_incoming_requests uid = statement (λ t. ok (join_names (asks uid) t.users t.friend_requests, t))

-- `Queries.GetOutgoingRequests`
abbrev pub is_asked : ℕ → UserRow → FriendRequestRow → Bool
is_asked uid u r =
    (u.id == (if r.user_id_1 == r.sender_id then r.user_id_2 else r.user_id_1))
    && r.sender_id == uid

unfoldable pub get_outgoing_requests : ℕ → Db (List String)
unfolding join_names
get_outgoing_requests uid =
    statement (λ t. ok (join_names (is_asked uid) t.users t.friend_requests, t))

unfoldable pub get_friends : ℕ → Db (List String)
get_friends uid = get_friends_list uid

pub record FriendRequestList : Type 0 where
  pub incoming : List String
  pub outgoing : List String

unfoldable pub get_requests : ℕ → Db FriendRequestList
get_requests uid = do
  incoming ← get_incoming_requests uid
  outgoing ← get_outgoing_requests uid
  pure (record { incoming = incoming; outgoing = outgoing })
