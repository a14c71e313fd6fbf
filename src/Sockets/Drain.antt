-- ===== src/Sockets/Drain.antt =====
-- internal/service/websocket_manager.go: the handlers give back what they hold.
use mathlib.Core.Path.{subst}
use neo_nect_server.Base.{
  ℕ, ◌≡◌, refl, sym, ap, ◌∙◌, arith, String, false, some, [], ◌∷◌, nat_eq, string_eq, beq_self, inl,
  inr, Option-cases, Assoc, length, lookup, remove,
}
use neo_nect_server.Sockets.{Manager, drop, finish, is_present, is_device_online}
use neo_nect_server.Sockets.Steps.{finished, Reachable, step}
use neo_nect_server.Sockets.Sound.{IsSound}
use neo_nect_server.Sockets.Reached.{Reachable-IsSound}

-- The handlers of the list finish, one after another.
unfoldable pub drain : Assoc ℕ String → Manager → Manager
drain [] m = m
drain ((conn, device_id) ∷ rest) m = drain rest (finish device_id conn m)

head_found :
    (conn : ℕ) (d : String) (rest : Assoc ℕ String) → lookup conn ((conn, d) ∷ rest) ≡ some d
unfolding lookup
head_found conn d rest = rw (beq_self conn) refl

head_removed :
    (conn : ℕ) (d : String) (rest : Assoc ℕ String) → remove conn ((conn, d) ∷ rest) ≡ rest
unfolding remove
head_removed conn d rest = rw (beq_self conn) refl

finish-serving :
    (conn : ℕ) (d : String) (rest : Assoc ℕ String) (m : Manager)
    → m.serving ≡ (conn, d) ∷ rest
    → (finish d conn m).serving ≡ rest
unfolding finish
finish-serving conn d rest m e = rw e (head_removed conn d rest)

finish-upgrading : (conn : ℕ) (d : String) (m : Manager) → (finish d conn m).upgrading ≡ m.upgrading
unfolding finish drop
finish-upgrading conn d m = refl

drain-Reachable :
    (max : ℕ) (serving : Assoc ℕ String) (m : Manager)
    → m.serving ≡ serving
    → Reachable max m
    → Reachable max (drain serving m)
unfolding drain
drain-Reachable max [] m e r = r
drain-Reachable max ((conn, d) ∷ rest) m e r =
    drain-Reachable max rest (finish d conn m) (finish-serving conn d rest m e) (
      step r
        (finished d conn (subst (λ s. lookup conn s ≡ some d) (sym e) (head_found conn d rest))))

drain-serving :
    (serving : Assoc ℕ String) (m : Manager)
    → m.serving ≡ serving
    → ((drain serving m).serving ≡ []) × ((drain serving m).upgrading ≡ m.upgrading)
unfolding drain
drain-serving [] m e = (e, refl)
drain-serving ((conn, d) ∷ rest) m e =
    let (none_left, same) = drain-serving rest (finish d conn m) (finish-serving conn d rest m e) in
    (none_left, same ∙ finish-upgrading conn d m)

no_session :
    (max : ℕ) (d : String) (m : Manager)
    → m.serving ≡ []
    → IsSound max m
    → is_device_online d m ≡ false
unfolding is_device_online is_present lookup
no_session max d m e s = elim (Option-cases (lookup d m.active_sessions)) [
  | inl off ↦ rw off refl
  | inr (conn, on) ↦
      let read = subst (λ xs. lookup conn xs ≡ some d) e (s.served d conn on) in absurd cc
]

-- In every state that the goroutines of the manager reach, once each of the handlers that read a
-- connection has finished, the semaphore counts only the handlers that are still upgrading, and no
-- device is online.
pub drain_all :
    (max : ℕ) (m : Manager)
    → Reachable max m
    → ((drain m.serving m).conn_sem ≡ m.upgrading)
      × ((d : String) → is_device_online d (drain m.serving m) ≡ false)
drain_all max m r =
    let (none_left, same) = drain-serving m.serving m refl in
    let s = Reachable-IsSound max (drain-Reachable max m.serving m refl r) in
    (
      omega (arith, s.held, same, ap length none_left),
      λ d. no_session max d (drain m.serving m) none_left s,
    )
