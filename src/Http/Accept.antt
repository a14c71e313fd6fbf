-- ===== src/Http/Accept.antt =====
-- internal/api/friend_handlers.go: a request to accept a friend, from the session to the answer.
use mathlib.Core.Path.{subst}
use neo_nect_server.Base.{
  ℕ, ◌≡◌, ◌≢◌, refl, ◌∙◌, ap, inl, inr, true, false, some, String, trim_space, ltb, ◌==◌, string_eq,
  nat_eq, Bool-cases, lookup, if◌then◌else◌,
}
use neo_nect_server.Error.{Result, ok, err, unauthorized_action}
use neo_nect_server.Db.{Tables, Db, UserRow, quiet}
use neo_nect_server.Sessions.{get_user_id_by_session, get_by_hash}
use neo_nect_server.Friends.{has_user}
use neo_nect_server.Friends.Invariant.{IsConsistent}
use neo_nect_server.Friends.Service.{accept_request}
use neo_nect_server.Friends.Protocol.{Status, strangers, friends, pending, status, accept, IsNamed}
use neo_nect_server.Friends.Protocol.Answers.{accept_request_refines}
use neo_nect_server.Http.{
  Env, Request, parsed, Server, failure, plain, generic, error, of_error, Response, value, pure,
  ◌>>◌, ask, written, success, get_token, session_of, get_session_user, parse_json, require_text,
}
use neo_nect_server.Http.Friends.{
  AddFriendRequest, request_error, read_username, handle_accept_request,
}
use neo_nect_server.Http.Guard.{looked_up}
use neo_nect_server.Http.Own.{entered}

-- The token of the request is in the cache, for the user, and has not expired.
pub record IsCached (env : Env) (r : Request) (uid : ℕ) (s : Server) : Type 0 where
  pub token : String
  pub expires_at : ℕ
  pub given : get_token r ≡ some token
  pub entry : lookup (env.hash token) s.cache ≡ some (record { uid = uid; expires_at = expires_at })
  pub live : ltb expires_at r.unix ≡ false

session_cached :
    (env : Env) (r : Request) (uid : ℕ) (s : Server)
    → IsCached env r uid s
    → get_session_user env r s.cache s.world ≡ (ok uid, s.cache, s.world)
unfolding get_session_user session_of get_user_id_by_session get_by_hash
session_cached env r uid s c = rw (c.given, c.entry, c.live) refl

-- The answer that a request of `other` calls for, by the status of the pair.
unfoldable pub reply_for : ℕ → Status → Response
reply_for other strangers = failure 404 "resource not found"
reply_for other friends = failure 404 "resource not found"
reply_for other (pending sender) =
    if sender == other then plain 200 generic else plain 403 (error (of_error unauthorized_action))

ask-written :
    (res : Result (Unit {0})) (m : Db (Unit {0})) (s : Server)
    → (m s.world).0 ≡ res
    → (written ((ask request_error m >> pure (success 200)) s).0
        ≡ (elim res [ ok _ ↦ success 200 | err e ↦ request_error e ]))
      × (((ask request_error m >> pure (success 200)) s).1.world ≡ (m s.world).1)
unfolding written
ask-written (ok _) m s h = rw h (refl, refl)
ask-written (err e) m s h = rw h (refl, refl)

accept-reply_for :
    (other : ℕ) (st : Status)
    → (elim (accept other st).0 [ ok _ ↦ success 200 | err e ↦ request_error e ])
      ≡ reply_for other st
unfolding accept reply_for request_error
accept-reply_for other strangers = refl
accept-reply_for other friends = refl
accept-reply_for other (pending sender) = elim (Bool-cases (sender == other)) [
  | inl asked ↦ rw asked refl
  | inr own ↦ rw own refl
]

name_read :
    (hash : String → String) (q : AddFriendRequest) (u : UserRow) (t : Tables) (s : Server)
    → IsNamed hash (trim_space q.username) u t
    → read_username (parsed q) s ≡ (value (trim_space q.username), s)
unfolding read_username parse_json require_text trim_space
name_read hash q u t s named = elim (Bool-cases (trim_space q.username == "")) [
  | inl blank ↦
      let empty = (string_eq.same_iff (trim_space q.username) "").0 blank in
      let impossible = subst (λ x. (trim_space x == "") ≡ false) empty named.not_blank in absurd cc
  | inr given ↦ rw given refl
]

unchanged :
    (env : Env) (r : Request) (uid : ℕ) (s : Server) → IsCached env r uid s → looked_up env r s ≡ s
unfolding looked_up
unchanged env r uid s c = rw (session_cached env r uid s c) refl

handled :
    (env : Env) (r : Request) (q : AddFriendRequest) (me : ℕ) (u : UserRow) (t : Tables)
    (s : Server)
    → IsCached env r me s
    → IsNamed env.hash (trim_space q.username) u t
    → handle_accept_request env r (parsed q) s
      ≡ (ask request_error (accept_request env.hash me (trim_space q.username))
            >> pure (success 200))
          s
unfolding handle_accept_request
handled env r q me u t s cached named =
    rw
      (
        entered env r s me _ (ap (λ x. x.0) (session_cached env r me s cached)),
        unchanged env r me s cached,
        name_read env.hash q u t s named,
      )
      refl

-- The handler of `AcceptRequest`, on a driver that does not fail and for a session in the cache,
-- carries out the protocol: the pair has the status afterwards that the protocol says, and the answer
-- is 200 to a request of the user named, 404 with the text of the source where there is no request, and
-- 403 with the error where the request is the user's own. The tables are consistent, the user is
-- registered, and the name given, without the space around it, is another user's.
pub handle_accept_request_refines :
    (env : Env) (r : Request) (q : AddFriendRequest) (me : ℕ) (u : UserRow) (t : Tables)
    (s : Server)
    → s.world ≡ quiet t
    → IsCached env r me s
    → IsConsistent t
    → has_user me t ≡ true
    → IsNamed env.hash (trim_space q.username) u t
    → me ≢ u.id
    → (written (handle_accept_request env r (parsed q) s).0 ≡ reply_for u.id (status me u.id t))
      × (status me u.id (handle_accept_request env r (parsed q) s).1.world.tables
          ≡ (accept u.id (status me u.id t)).1)
handle_accept_request_refines env r q me u t s calm cached c here named ne =
    let refines = accept_request_refines env.hash me (trim_space q.username) u t c here named ne in
    let (said, left) =
      ask-written (accept u.id (status me u.id t)).0
        (accept_request env.hash me (trim_space q.username)) s (rw calm refines.0) in
    rw (handled env r q me u t s cached named) (
      said ∙ accept-reply_for u.id (status me u.id t),
      ap (λ w. status me u.id w.tables)
            (left ∙ ap (λ w. (accept_request env.hash me (trim_space q.username) w).1) calm)
          ∙ refines.1,
    )
