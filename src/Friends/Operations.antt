-- ===== src/Friends/Operations.antt =====
-- internal/infrastructure/persistence/friendship_manager.go: every operation of the repository keeps
-- its two tables consistent, whichever driver calls fail.
use neo_nect_server.Base.{
  inl, inr, Bool-cases, ℕ, suc, ◌≡◌, false, arith, ◌==◌, nat_eq, if◌then◌else◌, any, count, delete,
  any-delete_of_count,
}
use neo_nect_server.Error.{Result, ok, err, record_not_found}
use neo_nect_server.Db.{Tables, World, statement, attempt, pure, raise, ◌>>=◌}
use neo_nect_server.Db.Keeps.{
  Keeps, Keeps-statement, Keeps-settle, Keeps-pure, Keeps-raise, Keeps-bind, Keeps-if,
  Keeps-attempt, Keeps-transaction, After, success,
}
use neo_nect_server.Friends.{
  is_request, is_request_of, ordered, delete_friend_request, insert_friendship, created, befriended,
  create_friend_request, accept_friend_request, decline_friend_request, cancel_friend_request,
  remove_friendship,
}
use neo_nect_server.Friends.Invariant.{
  IsConsistent, without_request-IsConsistent, insert_friend_request-IsConsistent,
  delete_friend_request-IsConsistent, insert_friendship-IsConsistent,
  delete_friendship-IsConsistent,
}

created-Keeps : (P : Tables → Type 0) (r : Result ℕ) → Keeps P (created r)
unfolding created
created-Keeps P (ok affected) =
    Keeps-if (affected == 0) (raise _) (pure tt) (Keeps-raise _) (Keeps-pure tt)
created-Keeps P (err e) = Keeps-raise _

-- A request to be friends keeps the tables consistent.
pub create_friend_request-IsConsistent :
    (sender receiver : ℕ) → Keeps IsConsistent (create_friend_request sender receiver)
unfolding create_friend_request
create_friend_request-IsConsistent sender receiver =
    Keeps-bind _ _
      (Keeps-attempt _ (
        Keeps-statement _ (
          insert_friend_request-IsConsistent (ordered sender receiver).0 (ordered sender receiver).1
            sender)))
      (created-Keeps IsConsistent)

-- An answer to a request, whatever it finds.
answered-Keeps :
    (P : Tables → Type 0) (affected : ℕ)
    → Keeps P (if affected == 0 then raise record_not_found else pure tt)
answered-Keeps P affected =
    Keeps-if (affected == 0) (raise record_not_found) (pure tt) (Keeps-raise _) (Keeps-pure tt)

-- A declined request keeps the tables consistent.
pub decline_friend_request-IsConsistent :
    (sender recipient : ℕ) → Keeps IsConsistent (decline_friend_request sender recipient)
unfolding decline_friend_request
decline_friend_request-IsConsistent sender recipient =
    Keeps-bind _ _
      (Keeps-statement _ (
        delete_friend_request-IsConsistent (ordered sender recipient).0 (ordered sender recipient).1
          sender))
      (answered-Keeps IsConsistent)

-- A cancelled request keeps the tables consistent.
pub cancel_friend_request-IsConsistent :
    (sender recipient : ℕ) → Keeps IsConsistent (cancel_friend_request sender recipient)
unfolding cancel_friend_request
cancel_friend_request-IsConsistent sender recipient =
    Keeps-bind _ _
      (Keeps-statement _ (
        delete_friend_request-IsConsistent (ordered sender recipient).0 (ordered sender recipient).1
          sender))
      (answered-Keeps IsConsistent)

-- The end of a friendship keeps the tables consistent.
pub remove_friendship-IsConsistent : (a b : ℕ) → Keeps IsConsistent (remove_friendship a b)
unfolding remove_friendship
remove_friendship-IsConsistent a b =
    Keeps-statement _
      λ t c. success (delete_friendship-IsConsistent (ordered a b).0 (ordered a b).1 t c)

befriended-Keeps : (P : Tables → Type 0) (r : Result (Unit {0})) → Keeps P (befriended r)
unfolding befriended
befriended-Keeps P (ok _) = Keeps-pure tt
befriended-Keeps P (err e) = Keeps-raise _

-- A statement that keeps `P` from where it starts.
statement-keeps_at :
    {P : Tables → Type 0} {A : Type 0} (f : Tables → Result (A × Tables)) (w : World)
    → P w.tables
    → After P (f w.tables)
    → P (statement f w).1.tables
unfolding statement
statement-keeps_at f w h k = elim (Bool-cases (w.fails w.calls)) [
  | inl failed ↦ rw failed h
  | inr answered ↦ rw answered (Keeps-settle _ (f w.tables) (record w { calls = suc w.calls }) h k)
]

-- The deletion of the pair's only request leaves none.
request_gone :
    (u1 u2 sender : ℕ) (t : Tables)
    → IsConsistent t
    → (count (is_request_of u1 u2 sender) t.friend_requests == 0) ≡ false
    → any (is_request u1 u2) (delete (is_request_of u1 u2 sender) t.friend_requests) ≡ false
request_gone u1 u2 sender t c hit =
    any-delete_of_count (is_request u1 u2) (is_request_of u1 u2 sender) t.friend_requests
      (λ r h. ground arith) (c.one_request u1 u2) (ground arith)

insert_friendship_part :
    (u1 u2 : ℕ) (w : World)
    → IsConsistent w.tables
    → any (is_request u1 u2) w.tables.friend_requests ≡ false
    → IsConsistent (((attempt (statement (insert_friendship u1 u2))) >>= befriended) w).1.tables
insert_friendship_part u1 u2 w c gone =
    (befriended-Keeps IsConsistent (statement (insert_friendship u1 u2) w).0).at
      (statement (insert_friendship u1 u2) w).1
      (statement-keeps_at (insert_friendship u1 u2) w c
        (insert_friendship-IsConsistent u1 u2 w.tables c gone))

accept_body-IsConsistent :
    (u1 u2 sender : ℕ) (w : World)
    → IsConsistent w.tables
    → IsConsistent
        ((do
          affected ← statement (delete_friend_request u1 u2 sender)
          if affected == 0
              then raise record_not_found
              else do inserted ← attempt (statement (insert_friendship u1 u2)); befriended inserted)
          w).1.tables
unfolding statement delete_friend_request
accept_body-IsConsistent u1 u2 sender w c = elim (Bool-cases (w.fails w.calls)) [
  | inl failed ↦ rw failed c
  | inr answered ↦
      rw answered
        (elim (Bool-cases (count (is_request_of u1 u2 sender) w.tables.friend_requests == 0)) [
          | inl none_found ↦ rw none_found (without_request-IsConsistent u1 u2 sender w.tables c)
          | inr found ↦ rw found (
              insert_friendship_part u1 u2
                (record w {
                  tables = record w.tables {
                    friend_requests = delete (is_request_of u1 u2 sender) w.tables.friend_requests;
                  };
                  calls = suc w.calls;
                })
                (without_request-IsConsistent u1 u2 sender w.tables c)
                (request_gone u1 u2 sender w.tables c found))
        ])
]

-- An acceptance keeps the tables consistent: the pair's request is gone before the friendship comes.
pub accept_friend_request-IsConsistent :
    (sender recipient : ℕ) → Keeps IsConsistent (accept_friend_request sender recipient)
unfolding accept_friend_request
accept_friend_request-IsConsistent sender recipient = Keeps-transaction _ (record {
  at = λ w c.
      accept_body-IsConsistent (ordered sender recipient).0 (ordered sender recipient).1 sender w c;
})
