-- ===== src/Sockets/Sound.antt =====
-- internal/service/websocket_manager.go: no connection outlives its session, and the semaphore counts
-- the handlers.
use mathlib.Core.Path.{subst}
use neo_nect_server.Base.{
  ℕ, suc, ◌+◌, ◌≤◌, ◌<◌, ◌≡◌, ◌≢◌, ◌⊎◌, inl, inr, true, ◌||◌, Option, none, some, String, List,
  arith, ltb, ◌==◌, nat_eq, string_eq, nat_beq_iff, Bool-cases, Option-cases, any, length, Assoc,
  lookup, Distinct, lookup-insert, lookup-remove, insert-Distinct, remove-Distinct,
  length-insert_new, some-injective,
}
use neo_nect_server.Sockets.{
  Manager, is_closed, acquire, upgrade_failed, replaced, install, is_session_of, forget, close,
}

-- The connection is closed, or about to be by `Shutdown`.
abbrev pub IsLeaving : ℕ → Manager → Type 0
IsLeaving conn m = (any (λ c. c == conn) m.closing || is_closed conn m) ≡ true

-- The semaphore counts the handlers, within its capacity; the session of a device has a handler; and
-- a connection that a handler reads is the session of its device, or leaves.
pub record IsSound (max : ℕ) (m : Manager) : Type 0 where
  pub held : m.conn_sem ≡ m.upgrading + length m.serving
  pub bounded : m.conn_sem ≤ max
  pub one_session : Distinct m.active_sessions
  pub one_handler : Distinct m.serving
  pub numbered : (conn : ℕ) (d : String) → lookup conn m.serving ≡ some d → conn < m.next
  pub served :
      (d : String) (conn : ℕ)
      → lookup d m.active_sessions ≡ some conn
      → lookup conn m.serving ≡ some d
  pub leaving :
      (conn : ℕ) (d : String)
      → lookup conn m.serving ≡ some d
      → (lookup d m.active_sessions ≡ some conn) ⊎ IsLeaving conn m

pub close-IsSound : (max conn : ℕ) (m : Manager) → IsSound max m → IsSound max (close conn m)
unfolding close any
close-IsSound max conn m s = record {
  held = s.held;
  bounded = s.bounded;
  one_session = s.one_session;
  one_handler = s.one_handler;
  numbered = s.numbered;
  served = s.served;
  leaving = λ c d h. elim (s.leaving c d h) [ inl live ↦ inl live | inr gone ↦ inr (ground arith) ];
}

pub acquire-IsSound :
    (max : ℕ) (m m' : Manager) → IsSound max m → acquire max m ≡ some m' → IsSound max m'
unfolding acquire
acquire-IsSound max m m' s = elim (Bool-cases (ltb m.conn_sem max)) [
  | inl room ↦ rw room (λ h. subst (IsSound max) (some-injective h) (record {
    held = omega (arith, s.held);
    bounded = ground arith;
    one_session = s.one_session;
    one_handler = s.one_handler;
    numbered = s.numbered;
    served = s.served;
    leaving = s.leaving;
  }))
  | inr full ↦ rw full (λ h. absurd cc)
]

pub upgrade_failed-IsSound :
    (max n : ℕ) (m : Manager) → m.upgrading ≡ suc n → IsSound max m → IsSound max (upgrade_failed m)
unfolding upgrade_failed
upgrade_failed-IsSound max n m u s = record {
  held = omega (arith, s.held, u);
  bounded = omega (arith, s.bounded);
  one_session = s.one_session;
  one_handler = s.one_handler;
  numbered = s.numbered;
  served = s.served;
  leaving = s.leaving;
}

-- What may happen to a session that has to end: its connection leaves.
pub replaced-closed :
    (conn : ℕ) (o : Option ℕ) (closed : List ℕ)
    → o ≡ some conn
    → any (λ c. c == conn) (replaced o closed) ≡ true
unfolding replaced any
replaced-closed conn none closed h = absurd cc
replaced-closed conn (some c) closed h = ground (arith, some-injective h, nat_beq_iff c conn)

replaced-keeps :
    (conn : ℕ) (o : Option ℕ) (closed : List ℕ)
    → any (λ c. c == conn) closed ≡ true
    → any (λ c. c == conn) (replaced o closed) ≡ true
unfolding replaced any
replaced-keeps conn none closed h = h
replaced-keeps conn (some c) closed h = ground arith

pub IsLeaving-replaced :
    (conn : ℕ) (o : Option ℕ) (m : Manager)
    → IsLeaving conn m
    → (any (λ c. c == conn) m.closing || any (λ c. c == conn) (replaced o m.closed)) ≡ true
IsLeaving-replaced conn o m h = ground (arith, replaced-keeps conn o m.closed)

unnumbered : (max : ℕ) (m : Manager) → IsSound max m → lookup m.next m.serving ≡ none
unnumbered max m s = elim (Option-cases (lookup m.next m.serving)) [
  | inl free ↦ free
  | inr (d, taken) ↦ absurd (omega (arith, s.numbered m.next d taken))
]

pub install-IsSound :
    (max n : ℕ) (device_id : String) (m : Manager)
    → m.upgrading ≡ suc n
    → IsSound max m
    → IsSound max (install device_id m)
unfolding install
install-IsSound max n device_id m u s = record {
  held =
      omega (arith, u, s.held, length-insert_new m.next device_id m.serving (unnumbered max m s));
  bounded = s.bounded;
  one_session = insert-Distinct device_id m.next m.active_sessions s.one_session;
  one_handler = insert-Distinct m.next device_id m.serving s.one_handler;
  numbered = λ c d h.
      ground
        (arith, lookup-insert m.next c device_id m.serving, s.numbered c d, nat_beq_iff m.next c);
  served = λ d c h. ground (
    arith,
    lookup-insert device_id d m.next m.active_sessions,
    lookup-insert m.next c device_id m.serving,
    s.served d c,
    s.numbered c d,
    nat_beq_iff m.next c,
    string_eq.same_iff device_id d,
  );
  leaving = λ c d h. ground (
    arith,
    lookup-insert device_id d m.next m.active_sessions,
    lookup-insert m.next c device_id m.serving,
    s.leaving c d,
    nat_beq_iff m.next c,
    string_eq.same_iff device_id d,
    replaced-closed c (lookup device_id m.active_sessions) m.closed,
    IsLeaving-replaced c (lookup device_id m.active_sessions) m,
  );
}

-- What `forget` leaves of the sessions.
pub forget-of :
    (device_id d : String) (conn c : ℕ) (sessions : Assoc String ℕ)
    → Distinct sessions
    → lookup d (forget device_id conn sessions) ≡ some c
    → lookup d sessions ≡ some c
unfolding forget is_session_of
forget-of device_id d conn c sessions one = ground (arith, lookup-remove device_id d sessions one)

pub forget-cases :
    (device_id d : String) (conn c : ℕ) (sessions : Assoc String ℕ)
    → Distinct sessions
    → lookup d sessions ≡ some c
    → (lookup d (forget device_id conn sessions) ≡ some c) ⊎ (c ≡ conn)
unfolding forget is_session_of
forget-cases device_id d conn c sessions one h = ground (
  arith,
  lookup-remove device_id d sessions one,
  string_eq.same_iff device_id d,
  nat_beq_iff c conn,
)

pub forget-gone :
    (device_id : String) (conn : ℕ) (sessions : Assoc String ℕ)
    → Distinct sessions
    → lookup device_id (forget device_id conn sessions) ≢ some conn
unfolding forget is_session_of
forget-gone device_id conn sessions one = ground (
  arith,
  lookup-remove device_id device_id sessions one,
  string_eq.same_iff device_id device_id,
  nat_beq_iff conn conn,
)

pub forget-Distinct :
    (device_id : String) (conn : ℕ) (sessions : Assoc String ℕ)
    → Distinct sessions
    → Distinct (forget device_id conn sessions)
unfolding forget
forget-Distinct device_id conn sessions one =
    elim (Bool-cases (is_session_of conn (lookup device_id sessions))) [
      | inl same ↦ rw same (remove-Distinct device_id sessions one)
      | inr other ↦ rw other one
    ]
