-- ===== src/Friends/Invariant.antt =====
-- What holds of the two tables of friends after any operation, whichever driver calls fail.
use mathlib.Core.Path.{subst}
use neo_nect_server.Base.{
  ◌⊎◌, inl, inr, Bool-cases, ℕ, ◌≤◌, ◌<◌, ◌≡◌, true, false, ◌&&◌, [], ◌∷◌, ◌++◌, arith, ltb, nat_eq,
  any, count, delete, any-append, any-count, any-delete_none, any-of-delete, nat_beq_iff,
  count-append, count-delete-le,
}
use neo_nect_server.Error.{ok}
use neo_nect_server.Db.{Tables, FriendRequestRow, FriendshipRow}
use neo_nect_server.Db.Keeps.{After, success, After-of}
use neo_nect_server.Friends.{
  is_friendship, is_request, is_request_of, has_user, insert_friend_request, delete_friend_request,
  insert_friendship,
}

-- Of every pair of users: it is not both befriended and asked for, no row stands twice, and a
-- request has its ids in order and both users in the users' table.
pub record IsConsistent (t : Tables) : Type 0 where
  pub disjoint :
      (u1 u2 : ℕ)
      → any (is_friendship u1 u2) t.friendships ≡ true
      → any (is_request u1 u2) t.friend_requests ≡ false
  pub one_request : (u1 u2 : ℕ) → count (is_request u1 u2) t.friend_requests ≤ 1
  pub one_friendship : (u1 u2 : ℕ) → count (is_friendship u1 u2) t.friendships ≤ 1
  pub in_order : (u1 u2 : ℕ) → any (is_request u1 u2) t.friend_requests ≡ true → u1 < u2
  pub known :
      (u1 u2 : ℕ)
      → any (is_request u1 u2) t.friend_requests ≡ true
      → (has_user u1 t && has_user u2 t) ≡ true

-- A new row between two known users that have neither a friendship nor a request.
add_request-IsConsistent :
    (u1 u2 sender : ℕ) (t : Tables)
    → IsConsistent t
    → any (is_friendship u1 u2) t.friendships ≡ false
    → ltb u1 u2 ≡ true
    → any (is_request u1 u2) t.friend_requests ≡ false
    → (has_user u1 t && has_user u2 t) ≡ true
    → IsConsistent (record t {
      friend_requests =
          t.friend_requests ++ (record { user_id_1 = u1; user_id_2 = u2; sender_id = sender } ∷ []);
    })
unfolding any count
add_request-IsConsistent u1 u2 sender t c strangers order fresh users = record {
  disjoint = λ a b h. ground (
    arith,
    any-append (is_request a b) t.friend_requests (row ∷ []),
    c.disjoint a b,
    nat_beq_iff u1 a,
    nat_beq_iff u2 b,
  );
  one_request = λ a b. ground (
    arith,
    count-append (is_request a b) t.friend_requests (row ∷ []),
    c.one_request a b,
    any-count (is_request u1 u2) t.friend_requests,
    nat_beq_iff u1 a,
    nat_beq_iff u2 b,
  );
  one_friendship = c.one_friendship;
  in_order = λ a b h. ground (
    arith,
    any-append (is_request a b) t.friend_requests (row ∷ []),
    c.in_order a b,
    nat_beq_iff u1 a,
    nat_beq_iff u2 b,
  );
  known = λ a b h. ground (
    arith,
    any-append (is_request a b) t.friend_requests (row ∷ []),
    c.known a b,
    nat_beq_iff u1 a,
    nat_beq_iff u2 b,
  );
}
  where
    row : FriendRequestRow
    row = record { user_id_1 = u1; user_id_2 = u2; sender_id = sender }

-- An insertion that succeeds either changes nothing or has passed every constraint.
insert_friend_request_success :
    (u1 u2 sender n : ℕ) (t t' : Tables)
    → insert_friend_request u1 u2 sender t ≡ ok (n, t')
    → (t ≡ t')
      ⊎ ((any (is_friendship u1 u2) t.friendships ≡ false)
          × (ltb u1 u2 ≡ true)
          × (any (is_request u1 u2) t.friend_requests ≡ false)
          × ((has_user u1 t && has_user u2 t) ≡ true)
          × (record t {
            friend_requests =
                t.friend_requests
                ++ (record { user_id_1 = u1; user_id_2 = u2; sender_id = sender } ∷ []);
          }
              ≡ t'))
unfolding insert_friend_request
insert_friend_request_success u1 u2 sender n t t' h =
    elim (Bool-cases (any (is_friendship u1 u2) t.friendships)) [
      | inl friends ↦ inl (ground arith)
      | inr strangers ↦ inr (strangers, ground arith, ground arith, ground arith, ground arith)
    ]

pub insert_friend_request-IsConsistent :
    (u1 u2 sender : ℕ) (t : Tables)
    → IsConsistent t
    → After IsConsistent (insert_friend_request u1 u2 sender t)
insert_friend_request-IsConsistent u1 u2 sender t c =
    After-of (insert_friend_request u1 u2 sender t) λ n t' h.
      elim (insert_friend_request_success u1 u2 sender n t t' h) [
        | inl same ↦ subst IsConsistent same c
        | inr (strangers, order, fresh, users, e) ↦
            subst IsConsistent e
              (add_request-IsConsistent u1 u2 sender t c strangers order fresh users)
      ]

pub without_request-IsConsistent :
    (u1 u2 sender : ℕ) (t : Tables)
    → IsConsistent t
    → IsConsistent
        (record t { friend_requests = delete (is_request_of u1 u2 sender) t.friend_requests })
without_request-IsConsistent u1 u2 sender t c = record {
  disjoint = λ a b h.
      any-delete_none (is_request a b) (is_request_of u1 u2 sender) t.friend_requests
        (c.disjoint a b h);
  one_request = λ a b. omega (
    arith,
    c.one_request a b,
    count-delete-le (is_request a b) (is_request_of u1 u2 sender) t.friend_requests,
  );
  one_friendship = c.one_friendship;
  in_order = λ a b h.
      c.in_order a b
        (any-of-delete (is_request a b) (is_request_of u1 u2 sender) t.friend_requests h);
  known = λ a b h.
      c.known a b (any-of-delete (is_request a b) (is_request_of u1 u2 sender) t.friend_requests h);
}

pub delete_friend_request-IsConsistent :
    (u1 u2 sender : ℕ) (t : Tables)
    → IsConsistent t
    → After IsConsistent (delete_friend_request u1 u2 sender t)
unfolding delete_friend_request
delete_friend_request-IsConsistent u1 u2 sender t c =
    success (without_request-IsConsistent u1 u2 sender t c)

add_friendship-IsConsistent :
    (u1 u2 : ℕ) (t : Tables)
    → IsConsistent t
    → any (is_request u1 u2) t.friend_requests ≡ false
    → any (is_friendship u1 u2) t.friendships ≡ false
    → IsConsistent (record t {
      friendships = t.friendships ++ (record { user_id_1 = u1; user_id_2 = u2 } ∷ []);
    })
unfolding any count
add_friendship-IsConsistent u1 u2 t c gone fresh = record {
  disjoint = λ a b h. ground (
    arith,
    any-append (is_friendship a b) t.friendships (row ∷ []),
    c.disjoint a b,
    nat_beq_iff u1 a,
    nat_beq_iff u2 b,
  );
  one_request = c.one_request;
  one_friendship = λ a b. ground (
    arith,
    count-append (is_friendship a b) t.friendships (row ∷ []),
    c.one_friendship a b,
    any-count (is_friendship u1 u2) t.friendships,
    nat_beq_iff u1 a,
    nat_beq_iff u2 b,
  );
  in_order = c.in_order;
  known = c.known;
}
  where
    row : FriendshipRow
    row = record { user_id_1 = u1; user_id_2 = u2 }

insert_friendship_success :
    (u1 u2 : ℕ) (t t' : Tables) (r : Unit {0})
    → insert_friendship u1 u2 t ≡ ok (r, t')
    → (any (is_friendship u1 u2) t.friendships ≡ false)
      × (record t {
        friendships = t.friendships ++ (record { user_id_1 = u1; user_id_2 = u2 } ∷ []);
      }
          ≡ t')
unfolding insert_friendship
insert_friendship_success u1 u2 t t' r h = ground arith

-- The insertion of a friendship keeps the tables consistent once the pair's request is gone.
pub insert_friendship-IsConsistent :
    (u1 u2 : ℕ) (t : Tables)
    → IsConsistent t
    → any (is_request u1 u2) t.friend_requests ≡ false
    → After IsConsistent (insert_friendship u1 u2 t)
insert_friendship-IsConsistent u1 u2 t c gone = After-of (insert_friendship u1 u2 t) λ r t' h.
    let (fresh, e) = insert_friendship_success u1 u2 t t' r h in
    subst IsConsistent e (add_friendship-IsConsistent u1 u2 t c gone fresh)

pub delete_friendship-IsConsistent :
    (u1 u2 : ℕ) (t : Tables)
    → IsConsistent t
    → IsConsistent (record t { friendships = delete (is_friendship u1 u2) t.friendships })
delete_friendship-IsConsistent u1 u2 t c = record {
  disjoint = λ a b h.
      c.disjoint a b (any-of-delete (is_friendship a b) (is_friendship u1 u2) t.friendships h);
  one_request = c.one_request;
  one_friendship = λ a b. omega (
    arith,
    c.one_friendship a b,
    count-delete-le (is_friendship a b) (is_friendship u1 u2) t.friendships,
  );
  in_order = c.in_order;
  known = c.known;
}
