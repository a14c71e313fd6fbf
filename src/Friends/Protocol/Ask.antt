-- ===== src/Friends/Protocol/Ask.antt =====
-- internal/service/friend_service.go: `AddFriend` carries out the protocol.
use neo_nect_server.Base.{
  ℕ, String, suc, ◌≡◌, refl, inl, inr, ◌≢◌, true, false, ◌&&◌, ◌||◌, none, some, [], ◌∷◌, ◌++◌,
  arith, ltb, ◌==◌, nat_eq, nat_beq_iff, any, find, find-append, Bool-cases,
}
use neo_nect_server.Error.{ok, err, duplicate_record, record_not_found, unique_violation}
use neo_nect_server.Db.{Tables, UserRow, quiet, statement, FriendRequestRow}
use neo_nect_server.Friends.{
  ordered, is_friendship, is_request, has_user, insert_friend_request, create_friend_request,
  get_friend_request_sender, check_friendship, created,
}
use neo_nect_server.Friends.Invariant.{IsConsistent}
use neo_nect_server.Friends.Service.{add_friend, add_attempt, add_loop}
use neo_nect_server.Friends.Protocol.{
  Status, pending, status_of, status, ask, Shape, no_rows, friend_row, request_row, shape,
  Shape-status, IsNamed, user_resolved, named-has_user, calm,
}

-- Two known users under one order of their ids.
pub record Pair (u1 u2 a b : ℕ) (t : Tables) : Type 0 where
  pub lower : ltb u1 u2 ≡ true
  pub first : (a == u1 || a == u2) ≡ true
  pub users : (has_user u1 t && has_user u2 t) ≡ true

pub ordered-Pair :
    (a b : ℕ) (t : Tables)
    → a ≢ b
    → has_user a t ≡ true
    → has_user b t ≡ true
    → Pair (ordered a b).0 (ordered a b).1 a b t
ordered-Pair a b t ne ua ub = elim (Bool-cases (ltb b a)) [
  | inl swap ↦ rw swap (record { lower = swap; first = ground arith; users = ground arith })
  | inr keep ↦ rw keep (record { lower = ground arith; first = ground arith; users = ground arith })
]

with_request : ℕ → ℕ → ℕ → Tables → Tables
with_request u1 u2 sender t = record t {
  friend_requests =
      t.friend_requests ++ (record { user_id_1 = u1; user_id_2 = u2; sender_id = sender } ∷ []);
}

insert_fresh :
    (u1 u2 a b : ℕ) (t : Tables)
    → Pair u1 u2 a b t
    → any (is_friendship u1 u2) t.friendships ≡ false
    → any (is_request u1 u2) t.friend_requests ≡ false
    → insert_friend_request u1 u2 a t ≡ ok (1, with_request u1 u2 a t)
unfolding insert_friend_request with_request
insert_fresh u1 u2 a b t p f r = rw (f, p.lower, p.first, r, p.users)

insert_taken :
    (u1 u2 a b : ℕ) (t : Tables)
    → Pair u1 u2 a b t
    → any (is_friendship u1 u2) t.friendships ≡ false
    → any (is_request u1 u2) t.friend_requests ≡ true
    → insert_friend_request u1 u2 a t ≡ err unique_violation
unfolding insert_friend_request
insert_taken u1 u2 a b t p f r = rw (f, p.lower, p.first, r)

insert_befriended :
    (u1 u2 a : ℕ) (t : Tables)
    → any (is_friendship u1 u2) t.friendships ≡ true
    → insert_friend_request u1 u2 a t ≡ ok (0, t)
unfolding insert_friend_request
insert_befriended u1 u2 a t f = rw f

-- One pass of the loop for each shape of the pair.
create_fresh :
    (a b : ℕ) (t : Tables) (n : ℕ)
    → Pair (ordered a b).0 (ordered a b).1 a b t
    → any (is_friendship (ordered a b).0 (ordered a b).1) t.friendships ≡ false
    → any (is_request (ordered a b).0 (ordered a b).1) t.friend_requests ≡ false
    → create_friend_request a b (calm t n)
      ≡ (ok tt, calm (with_request (ordered a b).0 (ordered a b).1 a t) (suc n))
unfolding create_friend_request statement created
create_fresh a b t n p f r = rw (insert_fresh (ordered a b).0 (ordered a b).1 a b t p f r)

create_taken :
    (a b : ℕ) (t : Tables) (n : ℕ)
    → Pair (ordered a b).0 (ordered a b).1 a b t
    → any (is_friendship (ordered a b).0 (ordered a b).1) t.friendships ≡ false
    → any (is_request (ordered a b).0 (ordered a b).1) t.friend_requests ≡ true
    → create_friend_request a b (calm t n) ≡ (err duplicate_record, calm t (suc n))
unfolding create_friend_request statement created
create_taken a b t n p f r = rw (insert_taken (ordered a b).0 (ordered a b).1 a b t p f r)

create_befriended :
    (a b : ℕ) (t : Tables) (n : ℕ)
    → any (is_friendship (ordered a b).0 (ordered a b).1) t.friendships ≡ true
    → create_friend_request a b (calm t n) ≡ (err duplicate_record, calm t (suc n))
unfolding create_friend_request statement created
create_befriended a b t n f = rw (insert_befriended (ordered a b).0 (ordered a b).1 a t f)

pub sender_found :
    (a b : ℕ) (t : Tables) (n : ℕ) (r : FriendRequestRow)
    → find (is_request (ordered a b).0 (ordered a b).1) t.friend_requests ≡ some r
    → get_friend_request_sender a b (calm t n) ≡ (ok r.sender_id, calm t (suc n))
unfolding get_friend_request_sender statement find
sender_found a b t n r e = rw e

pub sender_missing :
    (a b : ℕ) (t : Tables) (n : ℕ)
    → find (is_request (ordered a b).0 (ordered a b).1) t.friend_requests ≡ none
    → get_friend_request_sender a b (calm t n) ≡ (err record_not_found, calm t (suc n))
unfolding get_friend_request_sender statement find
sender_missing a b t n e = rw e

friendship_found :
    (a b : ℕ) (t : Tables) (n : ℕ)
    → any (is_friendship (ordered a b).0 (ordered a b).1) t.friendships ≡ true
    → check_friendship a b (calm t n) ≡ (ok true, calm t (suc n))
unfolding check_friendship statement
friendship_found a b t n f = rw f

status-with_request :
    (u1 u2 a : ℕ) (t : Tables)
    → any (is_friendship u1 u2) t.friendships ≡ false
    → any (is_request u1 u2) t.friend_requests ≡ false
    → status_of u1 u2 (with_request u1 u2 a t) ≡ pending a
unfolding status_of with_request find
status-with_request u1 u2 a t f r = rw (
  f,
  find-append (is_request u1 u2) t.friend_requests
      (record { user_id_1 = u1; user_id_2 = u2; sender_id = a } ∷ []),
  r,
  (nat_beq_iff u1 u1).1 refl,
  (nat_beq_iff u2 u2).1 refl,
)

-- The first pass decides, whatever passes are left.
add_loop-cases :
    (me target left n : ℕ) (t : Tables)
    → Pair (ordered me target).0 (ordered me target).1 me target t
    → (s : Status) → Shape (ordered me target).0 (ordered me target).1 t s
    → ((add_loop me target (suc left) (calm t n)).0 ≡ (ask me s).0)
      × (status me target (add_loop me target (suc left) (calm t n)).1.tables ≡ (ask me s).1)
unfolding add_loop add_attempt ask
add_loop-cases me target left n t p _ (no_rows f r e) =
    rw (create_fresh me target t n p f r)
      (refl, status-with_request (ordered me target).0 (ordered me target).1 me t f r)
add_loop-cases me target left n t p _ (friend_row f r e) =
    rw
      (
        create_befriended me target t n f,
        sender_missing me target t (suc n) e,
        friendship_found me target t (suc (suc n)) f,
      )
      (refl, Shape-status (ordered me target).0 (ordered me target).1 t (friend_row f r e))
add_loop-cases me target left n t p _ (request_row row f r e) =
    rw (create_taken me target t n p f r, sender_found me target t (suc n) row e)
      (refl, Shape-status (ordered me target).0 (ordered me target).1 t (request_row row f r e))

-- `AddFriend`, on a driver that does not fail, answers as the protocol says and moves the pair to
-- the status that the protocol says: the tables are consistent, the user acting is registered, and
-- the name given is another user's.
pub add_friend_refines :
    (hash : String → String) (me : ℕ) (username : String) (u : UserRow) (t : Tables)
    → IsConsistent t
    → has_user me t ≡ true
    → IsNamed hash username u t
    → me ≢ u.id
    → ((add_friend hash me username (quiet t)).0 ≡ (ask me (status me u.id t)).0)
      × (status me u.id (add_friend hash me username (quiet t)).1.tables
          ≡ (ask me (status me u.id t)).1)
unfolding add_friend
add_friend_refines hash me username u t c here named ne =
    rw (user_resolved hash username u t 0 named) (elim (Bool-cases (me == u.id)) [
      | inl same ↦ absurd (ne ((nat_beq_iff me u.id).0 same))
      | inr other ↦ rw other (
          add_loop-cases me u.id 2 1 t
            (ordered-Pair me u.id t ne here (named-has_user hash username u t named)) _
            (shape (ordered me u.id).0 (ordered me u.id).1 t c))
    ])
