-- ===== src/Sessions/Logout.antt =====
-- internal/infrastructure/persistence/session_manager.go: a session that was deleted is not accepted.
use mathlib.Core.Path.{subst}
use neo_nect_server.Base.{
  ℕ, ◌≡◌, ◌≢◌, sym, ◌∙◌, inl, inr, false, none, String, arith, string_eq, beq_self, any, find,
  find-none, any-delete_self, lookup, remove, Distinct, lookup-remove, Bool-cases,
}
use neo_nect_server.Error.{ok, err, no_rows}
use neo_nect_server.Db.{Tables, World, statement}
use neo_nect_server.Sessions.{
  Cache, is_session, select_session, loaded, get_by_hash, get_user_id_by_session, delete_session,
  delete_session_by_hash,
}

select_session-missing :
    (h : String) (t : Tables)
    → find (is_session h) t.user_blocks ≡ none
    → select_session h t ≡ err no_rows
unfolding select_session
select_session-missing h t e = rw (e, select_session)

-- A token that neither the cache nor the table knows is not accepted, whichever driver calls fail.
unknown_refused :
    (hash : String → String) (now : ℕ) (token : String) (cache : Cache) (w : World) (uid : ℕ)
    → lookup (hash token) cache ≡ none
    → find (is_session (hash token)) w.tables.user_blocks ≡ none
    → (get_user_id_by_session hash now token cache w).0 ≢ ok uid
unfolding get_user_id_by_session get_by_hash statement loaded
unknown_refused hash now token cache w uid fresh missing = elim (Bool-cases (w.fails w.calls)) [
  | inl failed ↦ rw (fresh, failed) (λ h. cc)
  | inr answered ↦
      rw (fresh, answered, select_session-missing (hash token) w.tables missing) (λ h. cc)
]

rows_gone :
    (h : String) (cache : Cache) (w : World)
    → (delete_session_by_hash h cache w).0 ≡ ok tt
    → any (is_session h) (delete_session_by_hash h cache w).2.tables.user_blocks ≡ false
unfolding delete_session_by_hash statement
rows_gone h cache w done = elim (Bool-cases (w.fails w.calls)) [
  | inl failed ↦ ground arith
  | inr answered ↦ rw answered (any-delete_self (is_session h) w.tables.user_blocks)
]

-- Once `DeleteSession` has returned without an error, the token is not accepted by the next
-- `GetUserIdBySession`, at any time and whichever driver calls fail, if no key stands twice in the
-- cache.
pub delete_session_effective :
    (hash : String → String) (now : ℕ) (token : String) (cache : Cache) (w w' : World) (uid : ℕ)
    → Distinct cache
    → (delete_session hash token cache w).0 ≡ ok tt
    → w'.tables ≡ (delete_session hash token cache w).2.tables
    → (get_user_id_by_session hash now token (delete_session hash token cache w).1 w').0 ≢ ok uid
unfolding delete_session
delete_session_effective hash now token cache w w' uid distinct done same =
    unknown_refused hash now token (remove (hash token) cache) w' uid
      (lookup-remove (hash token) (hash token) cache distinct ∙ rw (beq_self (hash token)))
      (find-none (is_session (hash token)) w'.tables.user_blocks (
        subst (λ t. any (is_session (hash token)) t.user_blocks ≡ false) (sym same)
          (rows_gone (hash token) cache w done)))
