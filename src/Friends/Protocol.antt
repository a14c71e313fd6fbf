-- ===== src/Friends/Protocol.antt =====
-- The friendship protocol that internal/service/friend_service.go promises, on the status of a pair
-- of users: what each operation answers and what it makes of the status.
pub mod Ask
pub mod Pair
pub mod Answers
use neo_nect_server.Base.{
  ℕ, suc, String, string_eq, trim_space, any-of-find, ◌≡◌, refl, ◌⊎◌, inl, inr, ◌≢◌, Bool, true,
  false, not, ◌&&◌, ◌||◌, Option, none, some, List, arith, ltb, ◌==◌, nat_eq, nat_beq_iff,
  if◌then◌else◌, any, find, find-none, find-some, find-holds, Bool-cases, Option-cases,
}
use neo_nect_server.Error.{
  Error, Result, ok, err, duplicate_record, record_not_found, duplicate_friendship,
  request_already_sent, request_already_received, request_not_found, unauthorized_action,
}
use neo_nect_server.Db.{Tables, UserRow, World, statement, FriendRequestRow}
use neo_nect_server.Friends.{has_user, ordered, is_friendship, is_request}
use neo_nect_server.Friends.Service.{get_target_user_id}
use neo_nect_server.Friends.Invariant.{IsConsistent}

pub data Status : Type 0 where
  strangers friends : Status
  pending : ℕ → Status

-- The status of the pair stored under `u1`, `u2`.
unfoldable pub status_of : ℕ → ℕ → Tables → Status
status_of u1 u2 t =
    if any (is_friendship u1 u2) t.friendships
    then friends
    else elim (find (is_request u1 u2) t.friend_requests) [
      | none ↦ strangers
      | some r ↦ pending r.sender_id
    ]

abbrev pub status : ℕ → ℕ → Tables → Status
status a b t = status_of (ordered a b).0 (ordered a b).1 t

-- An answer, and the status after it.
abbrev pub Answer : Type 0
Answer = Result (Unit {0}) × Status

-- What `AddFriend` answers to `me`.
unfoldable pub ask : ℕ → Status → Answer
ask me strangers = (ok tt, pending me)
ask me friends = (err duplicate_friendship, friends)
ask me (pending sender) =
    (err (if sender == me then request_already_sent else request_already_received), pending sender)

-- What `AcceptRequest` answers for a request of `other`, and `DeclineRequest`.
unfoldable pub accept : ℕ → Status → Answer
accept other strangers = (err request_not_found, strangers)
accept other friends = (err request_not_found, friends)
accept other (pending sender) =
    if sender == other then (ok tt, friends) else (err unauthorized_action, pending sender)

unfoldable pub decline : ℕ → Status → Answer
decline other strangers = (err request_not_found, strangers)
decline other friends = (err request_not_found, friends)
decline other (pending sender) =
    if sender == other then (ok tt, strangers) else (err unauthorized_action, pending sender)

-- `RemoveFriend` ends a friendship and leaves a request alone.
unfoldable pub part : Status → Answer
part strangers = (ok tt, strangers)
part friends = (ok tt, strangers)
part (pending sender) = (ok tt, pending sender)

-- What the two tables hold of a pair, for each status.
pub data Shape (u1 u2 : ℕ) (t : Tables) : Status → Type 0 where
  no_rows :
      any (is_friendship u1 u2) t.friendships ≡ false
      → any (is_request u1 u2) t.friend_requests ≡ false
      → find (is_request u1 u2) t.friend_requests ≡ none
      → Shape u1 u2 t strangers
  friend_row :
      any (is_friendship u1 u2) t.friendships ≡ true
      → any (is_request u1 u2) t.friend_requests ≡ false
      → find (is_request u1 u2) t.friend_requests ≡ none
      → Shape u1 u2 t friends
  request_row :
      (r : FriendRequestRow)
      → any (is_friendship u1 u2) t.friendships ≡ false
      → any (is_request u1 u2) t.friend_requests ≡ true
      → find (is_request u1 u2) t.friend_requests ≡ some r
      → Shape u1 u2 t (pending r.sender_id)

pub shape : (u1 u2 : ℕ) (t : Tables) → IsConsistent t → Shape u1 u2 t (status_of u1 u2 t)
unfolding status_of
shape u1 u2 t c = elim (Bool-cases (any (is_friendship u1 u2) t.friendships)) [
  | inl f ↦ rw f (
      friend_row f (c.disjoint u1 u2 f)
        (find-none (is_request u1 u2) t.friend_requests (c.disjoint u1 u2 f)))
  | inr f ↦ elim (Bool-cases (any (is_request u1 u2) t.friend_requests)) [
    | inl r ↦
        let (row, e) = find-some (is_request u1 u2) t.friend_requests r in
        rw (f, e) (request_row row f r e)
    | inr r ↦ let e = find-none (is_request u1 u2) t.friend_requests r in rw (f, e) (no_rows f r e)
  ]
]

pub Shape-status : (u1 u2 : ℕ) (t : Tables) {s : Status} → Shape u1 u2 t s → status_of u1 u2 t ≡ s
unfolding status_of
Shape-status u1 u2 t (no_rows f r e) = rw (f, e)
Shape-status u1 u2 t (friend_row f r e) = rw f
Shape-status u1 u2 t (request_row row f r e) = rw (f, e)

-- A world whose driver has answered `n` calls and never fails.
abbrev pub calm : Tables → ℕ → World
calm t n = record { tables = t; calls = n; fails = λ _. false }

-- The name names the user `u`.
pub record IsNamed (hash : String → String) (username : String) (u : UserRow) (t : Tables)
    : Type 0 where
  pub not_blank : (trim_space username == "") ≡ false
  pub registered : find (λ v. v.username_hash == hash (trim_space username)) t.users ≡ some u

pub user_resolved :
    (hash : String → String) (username : String) (u : UserRow) (t : Tables) (n : ℕ)
    → IsNamed hash username u t
    → get_target_user_id hash username (calm t n) ≡ (ok u.id, calm t (suc n))
unfolding get_target_user_id statement find
user_resolved hash username u t n named = rw (named.not_blank, named.registered)

pub named-has_user :
    (hash : String → String) (username : String) (u : UserRow) (t : Tables)
    → IsNamed hash username u t
    → has_user u.id t ≡ true
named-has_user hash username u t named =
    any-of-find (λ v. v.username_hash == hash (trim_space username)) (λ v. v.id == u.id) t.users u
      named.registered ((nat_beq_iff u.id u.id).1 refl)
