-- ===== src/Friends/Protocol/Pair.antt =====
-- internal/infrastructure/persistence/friendship_manager.go: what the repository makes of one pair of
-- users, on a driver that does not fail.
use mathlib.Core.Path.{subst}
use neo_nect_server.Base.{
  ℕ, suc, ◌≡◌, refl, inl, inr, false, some, [], ◌∷◌, ◌++◌, arith, ltb, ◌==◌, nat_eq, nat_beq_iff,
  any, find, count, delete, find-none, find-holds, any-append, any-delete_self, any-delete_of_count,
  count-of-find, Bool-cases,
}
use neo_nect_server.Error.{ok}
use neo_nect_server.Db.{Tables, statement, transaction, FriendRequestRow}
use neo_nect_server.Friends.{
  ordered, is_friendship, is_request, is_request_of, insert_friendship, accept_friend_request,
  decline_friend_request, cancel_friend_request, remove_friendship, befriended,
}
use neo_nect_server.Friends.Invariant.{IsConsistent}
use neo_nect_server.Friends.Protocol.{
  Status, strangers, friends, status_of, status, part, Shape, no_rows, friend_row, request_row,
  calm,
}
use neo_nect_server.Friends.Protocol.Ask.{Pair}

pub ordered_comm : (a b : ℕ) → ordered a b ≡ ordered b a
ordered_comm a b = elim (Bool-cases (ltb b a)) [ inl swap ↦ ground arith | inr keep ↦ ground arith ]

pub without_request : ℕ → ℕ → ℕ → Tables → Tables
without_request u1 u2 sender t = record t {
  friend_requests = delete (is_request_of u1 u2 sender) t.friend_requests;
}

module _ (u1 u2 a : ℕ) (t : Tables) (r : FriendRequestRow)
    (found : find (is_request u1 u2) t.friend_requests ≡ some r) (of_sender : r.sender_id ≡ a) where
  pub row_counted : (count (is_request_of u1 u2 a) t.friend_requests == 0) ≡ false
  row_counted = ground (
    arith,
    count-of-find (is_request u1 u2) (is_request_of u1 u2 a) t.friend_requests r found,
    find-holds (is_request u1 u2) t.friend_requests r found,
    nat_beq_iff r.sender_id a,
  )

  pub row_deleted :
      IsConsistent t
      → any (is_request u1 u2) (delete (is_request_of u1 u2 a) t.friend_requests) ≡ false
  row_deleted c =
      any-delete_of_count (is_request u1 u2) (is_request_of u1 u2 a) t.friend_requests
        (λ _ h. ground arith) (c.one_request u1 u2) (ground (arith, row_counted))

  pub stranger_again :
      IsConsistent t
      → any (is_friendship u1 u2) t.friendships ≡ false
      → status_of u1 u2 (without_request u1 u2 a t) ≡ strangers
  unfolding status_of without_request
  stranger_again c f = rw (
    f,
    find-none (is_request u1 u2) (delete (is_request_of u1 u2 a) t.friend_requests) (row_deleted c),
  )

-- The request of the pair, answered by `DeclineFriendRequest` or taken back.
module _ (a b : ℕ) (t : Tables) (n : ℕ) (r : FriendRequestRow)
    (found : find (is_request (ordered a b).0 (ordered a b).1) t.friend_requests ≡ some r)
    (of_sender : r.sender_id ≡ a) where
  pub declined :
      decline_friend_request a b (calm t n)
      ≡ (ok tt, calm (without_request (ordered a b).0 (ordered a b).1 a t) (suc n))
  unfolding decline_friend_request statement without_request
  declined = rw (row_counted (ordered a b).0 (ordered a b).1 a t r found of_sender)

  pub cancelled :
      cancel_friend_request a b (calm t n)
      ≡ (ok tt, calm (without_request (ordered a b).0 (ordered a b).1 a t) (suc n))
  unfolding cancel_friend_request statement without_request
  cancelled = rw (row_counted (ordered a b).0 (ordered a b).1 a t r found of_sender)

pub befriend : ℕ → ℕ → Tables → Tables
befriend u1 u2 t = record t {
  friendships = t.friendships ++ (record { user_id_1 = u1; user_id_2 = u2 } ∷ []);
}

pub inserted :
    (u1 u2 a b : ℕ) (t : Tables)
    → Pair u1 u2 a b t
    → any (is_friendship u1 u2) t.friendships ≡ false
    → insert_friendship u1 u2 t ≡ ok (tt, befriend u1 u2 t)
unfolding insert_friendship befriend
inserted u1 u2 a b t p f = rw (p.lower, f, p.users)

pub accepted :
    (a b x y : ℕ) (t : Tables) (n : ℕ) (r : FriendRequestRow)
    → Pair (ordered a b).0 (ordered a b).1 x y t
    → any (is_friendship (ordered a b).0 (ordered a b).1) t.friendships ≡ false
    → find (is_request (ordered a b).0 (ordered a b).1) t.friend_requests ≡ some r
    → r.sender_id ≡ a
    → accept_friend_request a b (calm t n) ≡ (
      ok tt,
      calm
          (befriend
            (ordered a b).0
            (ordered a b).1
            (without_request (ordered a b).0 (ordered a b).1 a t))
          (suc (suc (suc (suc n)))),
    )
unfolding accept_friend_request transaction statement without_request befriended
accepted a b x y t n r p f e s = rw (
  row_counted (ordered a b).0 (ordered a b).1 a t r e s,
  inserted (ordered a b).0 (ordered a b).1 x y (without_request (ordered a b).0 (ordered a b).1 a t)
      (record { lower = p.lower; first = p.first; users = p.users }) f,
)

pub status-befriend : (u1 u2 : ℕ) (t : Tables) → status_of u1 u2 (befriend u1 u2 t) ≡ friends
unfolding status_of befriend any
status-befriend u1 u2 t = ground (
  arith,
  any-append (is_friendship u1 u2) t.friendships (record { user_id_1 = u1; user_id_2 = u2 } ∷ []),
  nat_beq_iff u1 u1,
  nat_beq_iff u2 u2,
)

-- What the user named asked for, answered by the user acting: the pair is stored in one order.
module _ (me other : ℕ) (t : Tables) (n : ℕ) (r : FriendRequestRow)
    (of_other : r.sender_id ≡ other) where
  pub accepted_by_me :
      Pair (ordered me other).0 (ordered me other).1 me other t
      → any (is_friendship (ordered me other).0 (ordered me other).1) t.friendships ≡ false
      → find (is_request (ordered me other).0 (ordered me other).1) t.friend_requests ≡ some r
      → accept_friend_request other me (calm t n) ≡ (
        ok tt,
        calm
            (befriend
              (ordered me other).0
              (ordered me other).1
              (without_request (ordered me other).0 (ordered me other).1 other t))
            (suc (suc (suc (suc n)))),
      )
  accepted_by_me =
      subst
        (λ o.
          Pair o.0 o.1 me other t
          → any (is_friendship o.0 o.1) t.friendships ≡ false
          → find (is_request o.0 o.1) t.friend_requests ≡ some r
          → accept_friend_request other me (calm t n) ≡ (
            ok tt,
            calm (befriend o.0 o.1 (without_request o.0 o.1 other t)) (suc (suc (suc (suc n)))),
          ))
        (ordered_comm other me) (λ p f e. accepted other me me other t n r p f e of_other)

  pub declined_by_me :
      find (is_request (ordered me other).0 (ordered me other).1) t.friend_requests ≡ some r
      → decline_friend_request other me (calm t n)
        ≡ (ok tt, calm (without_request (ordered me other).0 (ordered me other).1 other t) (suc n))
  declined_by_me =
      subst
        (λ o.
          find (is_request o.0 o.1) t.friend_requests ≡ some r
          → decline_friend_request other me (calm t n)
            ≡ (ok tt, calm (without_request o.0 o.1 other t) (suc n)))
        (ordered_comm other me) (λ e. declined other me t n r e of_other)

pub remove_friendship-cases :
    (a b : ℕ) (t : Tables) (n : ℕ) (s : Status)
    → Shape (ordered a b).0 (ordered a b).1 t s
    → ((remove_friendship a b (calm t n)).0 ≡ (part s).0)
      × (status a b (remove_friendship a b (calm t n)).1.tables ≡ (part s).1)
unfolding remove_friendship statement part status_of
remove_friendship-cases a b t n _ (no_rows f r e) =
    (refl, rw (any-delete_self (is_friendship (ordered a b).0 (ordered a b).1) t.friendships, e))
remove_friendship-cases a b t n _ (friend_row f r e) =
    (refl, rw (any-delete_self (is_friendship (ordered a b).0 (ordered a b).1) t.friendships, e))
remove_friendship-cases a b t n _ (request_row row f r e) =
    (refl, rw (any-delete_self (is_friendship (ordered a b).0 (ordered a b).1) t.friendships, e))
