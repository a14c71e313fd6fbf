-- ===== src/Friends/Tests.antt =====
-- Runs of internal/infrastructure/persistence/friendship_manager.go and internal/service/friend_service.go
-- on two users.
use neo_nect_server.Base.{
  ◌≡◌, refl, true, String, List, [], ◌∷◌, trim_space, arith, ◌==◌, nat_eq, any, find, count,
}
use neo_nect_server.Error.{ok, err, driver_failure}
use neo_nect_server.Db.{Tables, UserRow, FriendRequestRow, World, quiet, statement, transaction}
use neo_nect_server.Friends.{accept_friend_request, has_user}
use neo_nect_server.Friends.Invariant.{IsConsistent}
use neo_nect_server.Friends.Runs.{create, accept, run_all, run_all-IsConsistent}
use neo_nect_server.Friends.Service.{
  add_friend, accept_request, decline_request, cancel_request, remove_friend,
}
use neo_nect_server.Friends.Protocol.{
  IsNamed, status, ask, accept as accepting, decline, part, pending, friends, strangers, status_of,
}
use neo_nect_server.Friends.Protocol.Ask.{add_friend_refines}
use neo_nect_server.Friends.Protocol.Answers.{
  accept_request_refines, decline_request_refines, cancel_request_refines, remove_friend_refines,
}

abbrev alice : UserRow
alice = record { id = 1; username_hash = "alice"; identity_blob = "" }

abbrev bob : UserRow
bob = record { id = 2; username_hash = "bob"; identity_blob = "" }

abbrev with_requests : List FriendRequestRow → Tables
with_requests requests = record {
  users = alice ∷ bob ∷ [];
  user_blocks = [];
  devices = [];
  friendships = [];
  friend_requests = requests;
  delivery_queue = [];
  signed_curve = [];
  one_time_curve = [];
  signed_pq = [];
  one_time_pq = [];
  idempotency = [];
  last_user_id = 2;
  last_queue_id = 0;
}

abbrev strangers_tables : Tables
strangers_tables = with_requests []

-- Alice has asked Bob.
abbrev asked_tables : Tables
asked_tables = with_requests (record { user_id_1 = 1; user_id_2 = 2; sender_id = 1 } ∷ [])

-- the hash of the tests
abbrev same_text : String → String
same_text s = s

strangers_IsConsistent : IsConsistent strangers_tables
unfolding any count
strangers_IsConsistent = record {
  disjoint = λ u1 u2 h. refl;
  one_request = λ u1 u2. omega arith;
  one_friendship = λ u1 u2. omega arith;
  in_order = λ u1 u2 h. cc;
  known = λ u1 u2 h. cc;
}

asked_IsConsistent : IsConsistent asked_tables
unfolding any count
asked_IsConsistent = record {
  disjoint = λ u1 u2 h. cc;
  one_request = λ u1 u2. ground arith;
  one_friendship = λ u1 u2. omega arith;
  in_order = λ u1 u2 h. ground arith;
  known = λ u1 u2 h. ground arith;
}

names_alice : IsNamed same_text " alice " alice asked_tables
unfolding find trim_space
names_alice = record { not_blank = refl; registered = refl }

names_bob : IsNamed same_text "bob" bob asked_tables
unfolding find trim_space
names_bob = record { not_blank = refl; registered = refl }

names_bob_first : IsNamed same_text "bob" bob strangers_tables
unfolding find trim_space
names_bob_first = record { not_blank = refl; registered = refl }

alice_known : has_user 1 strangers_tables ≡ true
unfolding any
alice_known = refl

bob_known : has_user 2 asked_tables ≡ true
unfolding any
bob_known = refl

add_friend_refines_example :
    ((add_friend same_text 1 "bob" (quiet strangers_tables)).0 ≡ ok tt)
    × (status 1 2 (add_friend same_text 1 "bob" (quiet strangers_tables)).1.tables ≡ pending 1)
unfolding ask status_of any find
add_friend_refines_example =
    add_friend_refines same_text 1 "bob" bob strangers_tables strangers_IsConsistent alice_known
      names_bob_first (λ h. omega (arith, h))

accept_request_refines_example :
    ((accept_request same_text 2 " alice " (quiet asked_tables)).0 ≡ ok tt)
    × (status 2 1 (accept_request same_text 2 " alice " (quiet asked_tables)).1.tables ≡ friends)
unfolding accepting status_of any find
accept_request_refines_example =
    accept_request_refines same_text 2 " alice " alice asked_tables asked_IsConsistent bob_known
      names_alice (λ h. omega (arith, h))

decline_request_refines_example :
    ((decline_request same_text 2 " alice " (quiet asked_tables)).0 ≡ ok tt)
    × (status 2 1 (decline_request same_text 2 " alice " (quiet asked_tables)).1.tables ≡ strangers)
unfolding decline status_of any find
decline_request_refines_example =
    decline_request_refines same_text 2 " alice " alice asked_tables asked_IsConsistent names_alice

cancel_request_refines_example :
    ((cancel_request same_text 1 "bob" (quiet asked_tables)).0 ≡ ok tt)
    × (status 1 2 (cancel_request same_text 1 "bob" (quiet asked_tables)).1.tables ≡ strangers)
unfolding decline status_of any find
cancel_request_refines_example =
    cancel_request_refines same_text 1 "bob" bob asked_tables asked_IsConsistent names_bob

remove_friend_refines_example :
    ((remove_friend same_text 1 "bob" (quiet asked_tables)).0 ≡ ok tt)
    × (status 1 2 (remove_friend same_text 1 "bob" (quiet asked_tables)).1.tables ≡ pending 1)
unfolding part status_of any find
remove_friend_refines_example =
    remove_friend_refines same_text 1 "bob" bob asked_tables asked_IsConsistent names_bob

-- a driver whose third call fails: the insertion of the friendship
abbrev third_call_fails : World
third_call_fails = record { tables = asked_tables; calls = 0; fails = λ n. n == 2 }

accept_fails : (accept_friend_request 1 2 third_call_fails).0 ≡ err driver_failure
unfolding accept_friend_request transaction statement count
accept_fails = refl

run_all-IsConsistent_example :
    IsConsistent
      (run_all
        (create 1 2 ∷ create 2 1 ∷ accept 1 2 ∷ create 2 1 ∷ [])
        (quiet strangers_tables)).tables
run_all-IsConsistent_example =
    run_all-IsConsistent (create 1 2 ∷ create 2 1 ∷ accept 1 2 ∷ create 2 1 ∷ [])
      (quiet strangers_tables) strangers_IsConsistent
