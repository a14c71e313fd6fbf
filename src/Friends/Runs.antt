-- ===== src/Friends/Runs.antt =====
-- internal/infrastructure/persistence/friendship_manager.go: runs of the operations that change the
-- tables of friends, by any users and in any order.
use neo_nect_server.Base.{ℕ, List, [], ◌∷◌}
use neo_nect_server.Db.{World, Db}
use neo_nect_server.Db.Keeps.{Keeps}
use neo_nect_server.Friends.{
  create_friend_request, accept_friend_request, decline_friend_request, cancel_friend_request,
  remove_friendship,
}
use neo_nect_server.Friends.Invariant.{IsConsistent}
use neo_nect_server.Friends.Operations.{
  create_friend_request-IsConsistent, accept_friend_request-IsConsistent,
  decline_friend_request-IsConsistent, cancel_friend_request-IsConsistent,
  remove_friendship-IsConsistent,
}

-- A call of the repository: the first user is the sender, the second the recipient.
pub data Operation : Type 0 where
  create accept decline cancel remove : ℕ → ℕ → Operation

unfoldable pub call : Operation → Db (Unit {0})
call (create a b) = create_friend_request a b
call (accept a b) = accept_friend_request a b
call (decline a b) = decline_friend_request a b
call (cancel a b) = cancel_friend_request a b
call (remove a b) = remove_friendship a b

-- What the calls leave, one after another, whatever each of them answers.
unfoldable pub run_all : List Operation → World → World
unfolding call
run_all [] w = w
run_all (op ∷ ops) w = run_all ops (call op w).1

call-IsConsistent : (op : Operation) → Keeps IsConsistent (call op)
unfolding call
call-IsConsistent (create a b) = create_friend_request-IsConsistent a b
call-IsConsistent (accept a b) = accept_friend_request-IsConsistent a b
call-IsConsistent (decline a b) = decline_friend_request-IsConsistent a b
call-IsConsistent (cancel a b) = cancel_friend_request-IsConsistent a b
call-IsConsistent (remove a b) = remove_friendship-IsConsistent a b

-- Any run of the repository's operations, whichever of its driver calls fail, takes consistent tables
-- to consistent tables: no pair is both befriended and asked for, and no row stands twice.
pub run_all-IsConsistent :
    (ops : List Operation) (w : World) → IsConsistent w.tables → IsConsistent (run_all ops w).tables
unfolding run_all
run_all-IsConsistent [] w c = c
run_all-IsConsistent (op ∷ ops) w c =
    run_all-IsConsistent ops (call op w).1 ((call-IsConsistent op).at w c)
