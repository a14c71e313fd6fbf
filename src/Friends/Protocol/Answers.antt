-- ===== src/Friends/Protocol/Answers.antt =====
-- internal/service/friend_service.go: the answers to a request carry out the protocol.
use neo_nect_server.Base.{
  ℕ, String, ◌≡◌, refl, inl, inr, ◌≢◌, true, ◌==◌, nat_eq, nat_beq_iff, Bool-cases,
}
use neo_nect_server.Db.{Tables, UserRow, quiet}
use neo_nect_server.Friends.{ordered, has_user}
use neo_nect_server.Friends.Invariant.{IsConsistent}
use neo_nect_server.Friends.Service.{accept_request, decline_request, cancel_request, remove_friend}
use neo_nect_server.Friends.Protocol.{
  Status, status, accept, decline, part, Shape, no_rows, friend_row, request_row, shape,
  Shape-status, IsNamed, user_resolved, named-has_user,
}
use neo_nect_server.Friends.Protocol.Ask.{Pair, ordered-Pair, sender_found, sender_missing}
use neo_nect_server.Friends.Protocol.Pair.{
  accepted_by_me, declined_by_me, cancelled, stranger_again, status-befriend,
  remove_friendship-cases,
}

-- Each answer, for each shape of the pair.
module _ (hash : String → String) (me : ℕ) (username : String) (u : UserRow) (t : Tables)
    (c : IsConsistent t) (named : IsNamed hash username u t) where
  accept_request-cases :
      (s : Status)
      → Pair (ordered me u.id).0 (ordered me u.id).1 me u.id t
      → Shape (ordered me u.id).0 (ordered me u.id).1 t s
      → ((accept_request hash me username (quiet t)).0 ≡ (accept u.id s).0)
        × (status me u.id (accept_request hash me username (quiet t)).1.tables ≡ (accept u.id s).1)
  unfolding accept_request accept
  accept_request-cases _ p (no_rows f r e) =
      rw (user_resolved hash username u t 0 named, sender_missing me u.id t 1 e)
        (refl, Shape-status _ _ t (no_rows f r e))
  accept_request-cases _ p (friend_row f r e) =
      rw (user_resolved hash username u t 0 named, sender_missing me u.id t 1 e)
        (refl, Shape-status _ _ t (friend_row f r e))
  accept_request-cases _ p (request_row row f r e) = elim (Bool-cases (row.sender_id == u.id)) [
    | inl theirs ↦
        rw
          (
            user_resolved hash username u t 0 named,
            sender_found me u.id t 1 row e,
            theirs,
            accepted_by_me me u.id t 2 row ((nat_beq_iff row.sender_id u.id).0 theirs) p f e,
          )
          (refl, status-befriend _ _ _)
    | inr mine ↦
        rw (user_resolved hash username u t 0 named, sender_found me u.id t 1 row e, mine)
          (refl, Shape-status _ _ t (request_row row f r e))
  ]

  decline_request-cases :
      (s : Status)
      → Shape (ordered me u.id).0 (ordered me u.id).1 t s
      → ((decline_request hash me username (quiet t)).0 ≡ (decline u.id s).0)
        × (status me u.id (decline_request hash me username (quiet t)).1.tables
            ≡ (decline u.id s).1)
  unfolding decline_request decline
  decline_request-cases _ (no_rows f r e) =
      rw (user_resolved hash username u t 0 named, sender_missing me u.id t 1 e)
        (refl, Shape-status _ _ t (no_rows f r e))
  decline_request-cases _ (friend_row f r e) =
      rw (user_resolved hash username u t 0 named, sender_missing me u.id t 1 e)
        (refl, Shape-status _ _ t (friend_row f r e))
  decline_request-cases _ (request_row row f r e) = elim (Bool-cases (row.sender_id == u.id)) [
    | inl theirs ↦
        rw
          (
            user_resolved hash username u t 0 named,
            sender_found me u.id t 1 row e,
            theirs,
            declined_by_me me u.id t 2 row ((nat_beq_iff row.sender_id u.id).0 theirs) e,
          )
          (refl, stranger_again _ _ u.id t row e ((nat_beq_iff row.sender_id u.id).0 theirs) c f)
    | inr mine ↦
        rw (user_resolved hash username u t 0 named, sender_found me u.id t 1 row e, mine)
          (refl, Shape-status _ _ t (request_row row f r e))
  ]

  cancel_request-cases :
      (s : Status)
      → Shape (ordered me u.id).0 (ordered me u.id).1 t s
      → ((cancel_request hash me username (quiet t)).0 ≡ (decline me s).0)
        × (status me u.id (cancel_request hash me username (quiet t)).1.tables ≡ (decline me s).1)
  unfolding cancel_request decline
  cancel_request-cases _ (no_rows f r e) =
      rw (user_resolved hash username u t 0 named, sender_missing me u.id t 1 e)
        (refl, Shape-status _ _ t (no_rows f r e))
  cancel_request-cases _ (friend_row f r e) =
      rw (user_resolved hash username u t 0 named, sender_missing me u.id t 1 e)
        (refl, Shape-status _ _ t (friend_row f r e))
  cancel_request-cases _ (request_row row f r e) = elim (Bool-cases (row.sender_id == me)) [
    | inl mine ↦
        rw
          (
            user_resolved hash username u t 0 named,
            sender_found me u.id t 1 row e,
            mine,
            cancelled me u.id t 2 row e ((nat_beq_iff row.sender_id me).0 mine),
          )
          (refl, stranger_again _ _ me t row e ((nat_beq_iff row.sender_id me).0 mine) c f)
    | inr theirs ↦
        rw (user_resolved hash username u t 0 named, sender_found me u.id t 1 row e, theirs)
          (refl, Shape-status _ _ t (request_row row f r e))
  ]

-- `AcceptRequest`, on a driver that does not fail, makes friends of the pair exactly when the user
-- named has asked, and answers and leaves the status as the protocol says otherwise: the tables are
-- consistent, the user acting is registered, and the name given is another user's.
pub accept_request_refines :
    (hash : String → String) (me : ℕ) (username : String) (u : UserRow) (t : Tables)
    → IsConsistent t
    → has_user me t ≡ true
    → IsNamed hash username u t
    → me ≢ u.id
    → ((accept_request hash me username (quiet t)).0 ≡ (accept u.id (status me u.id t)).0)
      × (status me u.id (accept_request hash me username (quiet t)).1.tables
          ≡ (accept u.id (status me u.id t)).1)
accept_request_refines hash me username u t c here named ne =
    accept_request-cases hash me username u t c named _
      (ordered-Pair me u.id t ne here (named-has_user hash username u t named)) (shape _ _ t c)

-- `DeclineRequest`, on a driver that does not fail, makes strangers of the pair exactly when the
-- user named has asked, and answers and leaves the status as the protocol says otherwise: the tables
-- are consistent, and the name given is a user's.
pub decline_request_refines :
    (hash : String → String) (me : ℕ) (username : String) (u : UserRow) (t : Tables)
    → IsConsistent t
    → IsNamed hash username u t
    → ((decline_request hash me username (quiet t)).0 ≡ (decline u.id (status me u.id t)).0)
      × (status me u.id (decline_request hash me username (quiet t)).1.tables
          ≡ (decline u.id (status me u.id t)).1)
decline_request_refines hash me username u t c named =
    decline_request-cases hash me username u t c named _ (shape _ _ t c)

-- `CancelRequest`, on a driver that does not fail, makes strangers of the pair exactly when the user
-- acting has asked, and answers and leaves the status as the protocol says otherwise: the tables are
-- consistent, and the name given is a user's.
pub cancel_request_refines :
    (hash : String → String) (me : ℕ) (username : String) (u : UserRow) (t : Tables)
    → IsConsistent t
    → IsNamed hash username u t
    → ((cancel_request hash me username (quiet t)).0 ≡ (decline me (status me u.id t)).0)
      × (status me u.id (cancel_request hash me username (quiet t)).1.tables
          ≡ (decline me (status me u.id t)).1)
cancel_request_refines hash me username u t c named =
    cancel_request-cases hash me username u t c named _ (shape _ _ t c)

-- `RemoveFriend`, on a driver that does not fail, ends the friendship of the pair, if there is one,
-- and leaves a request of the pair as it is: the tables are consistent, and the name given is a
-- user's.
pub remove_friend_refines :
    (hash : String → String) (me : ℕ) (username : String) (u : UserRow) (t : Tables)
    → IsConsistent t
    → IsNamed hash username u t
    → ((remove_friend hash me username (quiet t)).0 ≡ (part (status me u.id t)).0)
      × (status me u.id (remove_friend hash me username (quiet t)).1.tables
          ≡ (part (status me u.id t)).1)
unfolding remove_friend
remove_friend_refines hash me username u t c named =
    rw (user_resolved hash username u t 0 named)
      (remove_friendship-cases me u.id t 1 _ (shape _ _ t c))
