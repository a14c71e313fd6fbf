-- ===== src/Http/Logout.antt =====
-- internal/api/auth_handlers.go: `LogoutUser` drops the error of the service.
use mathlib.Core.Path.{subst}
use neo_nect_server.Base.{
  ℕ, ◌+◌, ◌≡◌, refl, sym, ◌∙◌, true, false, none, some, String, ltb, string_eq, beq_self, find,
  lookup, remove, Distinct, lookup-remove,
}
use neo_nect_server.Error.{ok}
use neo_nect_server.Db.{BlockRow, Tables, World, statement}
use neo_nect_server.Sessions.{
  session_duration, is_session, select_session, loaded, get_by_hash, get_user_id_by_session,
  delete_session, delete_session_by_hash,
}
use neo_nect_server.Http.{Env, Request, Server, generic, written, get_token}
use neo_nect_server.Http.Auth.{logged_out, handle_logout_user}

select_session-row :
    (h : String) (b : BlockRow) (t : Tables)
    → find (is_session h) t.user_blocks ≡ some b
    → select_session h t ≡ ok ((b.user_id, b.created_at), t)
unfolding select_session
select_session-row h b t row = rw (row, select_session) refl

-- A token with a row in the table is accepted, while the session lasts, where the cache has no entry.
row_accepted :
    (hash : String → String) (now : ℕ) (token : String) (b : BlockRow) (s : Server) (w : World)
    → lookup (hash token) s.cache ≡ none
    → find (is_session (hash token)) w.tables.user_blocks ≡ some b
    → ltb (b.created_at + session_duration) now ≡ false
    → w.fails w.calls ≡ false
    → (get_user_id_by_session hash now token s.cache w).0 ≡ ok b.user_id
unfolding get_user_id_by_session get_by_hash statement loaded
row_accepted hash now token b s w uncached row live answered =
    rw (uncached, answered, select_session-row (hash token) b w.tables row, live) refl

logout-failed :
    (env : Env) (r : Request) (token : String) (s : Server)
    → get_token r ≡ some token
    → s.world.fails s.world.calls ≡ true
    → ((handle_logout_user env r s).1.world.tables ≡ s.world.tables)
      × ((handle_logout_user env r s).1.cache ≡ remove (env.hash token) s.cache)
      × (written (handle_logout_user env r s).0
          ≡ record { status = 200; body = generic; set_cookie = some "" })
unfolding handle_logout_user logged_out delete_session delete_session_by_hash statement written
logout-failed env r token s given failed = rw (given, failed) (refl, refl, refl)

-- `LogoutUser` answers 200 and clears the cookie even where the driver failed to delete the session,
-- and the token is accepted again by the next lookup on a driver that answers, while the session
-- lasts: no key stands twice in the cache.
pub logout_unnoticed :
    (env : Env) (r : Request) (now : ℕ) (token : String) (b : BlockRow) (s : Server) (w : World)
    → get_token r ≡ some token
    → Distinct s.cache
    → find (is_session (env.hash token)) s.world.tables.user_blocks ≡ some b
    → ltb (b.created_at + session_duration) now ≡ false
    → s.world.fails s.world.calls ≡ true
    → w.tables ≡ (handle_logout_user env r s).1.world.tables
    → w.fails w.calls ≡ false
    → (written (handle_logout_user env r s).0
        ≡ record { status = 200; body = generic; set_cookie = some "" })
      × ((get_user_id_by_session env.hash now token (handle_logout_user env r s).1.cache w).0
          ≡ ok b.user_id)
logout_unnoticed env r now token b s w given distinct row live failed same answered =
    let (kept, uncached, said) = logout-failed env r token s given failed in
    (
      said,
      row_accepted env.hash now token b (handle_logout_user env r s).1 w
          (rw uncached (
            lookup-remove (env.hash token) (env.hash token) s.cache distinct
            ∙ rw (beq_self (env.hash token)) refl))
          (subst (λ t. find (is_session (env.hash token)) t.user_blocks ≡ some b)
            (sym (same ∙ kept)) row)
          live answered,
    )
