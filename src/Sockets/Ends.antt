-- ===== src/Sockets/Ends.antt =====
-- internal/service/websocket_manager.go: what ends a session keeps the manager sound.
use mathlib.Core.Path.{subst}
use neo_nect_server.Base.{
  ℕ, ◌≡◌, refl, inl, inr, true, ◌||◌, some, String, List, [], ◌∷◌, arith, ◌==◌, nat_eq, string_eq,
  nat_beq_iff, any, map, Assoc, lookup, lookup-remove, remove-Distinct, length-remove, any-append,
}
use neo_nect_server.Sockets.{
  Manager, is_closed, finish, drop, disconnect_device, take_sessions, close_taken, close_next,
  close,
}
use neo_nect_server.Sockets.Sound.{
  IsSound, IsLeaving, forget-of, forget-cases, forget-gone, forget-Distinct, replaced-closed,
  IsLeaving-replaced,
}

IsLeaving-of_eq :
    (c conn : ℕ) (m : Manager)
    → c ≡ conn
    → (any (λ x. x == c) m.closing || any (λ x. x == c) (conn ∷ m.closed)) ≡ true
unfolding any
IsLeaving-of_eq c conn m same = ground (arith, nat_beq_iff conn c, same)

IsLeaving-cons :
    (c conn : ℕ) (m : Manager)
    → IsLeaving c m
    → (any (λ x. x == c) m.closing || any (λ x. x == c) (conn ∷ m.closed)) ≡ true
unfolding any
IsLeaving-cons c conn m h = ground arith

pub drop-IsSound :
    (max : ℕ) (device_id : String) (conn : ℕ) (m : Manager)
    → IsSound max m
    → IsSound max (drop device_id conn m)
unfolding drop
drop-IsSound max device_id conn m s = record {
  held = s.held;
  bounded = s.bounded;
  one_session = forget-Distinct device_id conn m.active_sessions s.one_session;
  one_handler = s.one_handler;
  numbered = s.numbered;
  served = λ d c h. s.served d c (forget-of device_id d conn c m.active_sessions s.one_session h);
  leaving = λ c d h. elim (s.leaving c d h) [
    | inl live ↦ elim (forget-cases device_id d conn c m.active_sessions s.one_session live) [
      | inl still ↦ inl still
      | inr same ↦ inr (IsLeaving-of_eq c conn m same)
    ]
    | inr gone ↦ inr (IsLeaving-cons c conn m gone)
  ];
}

pub finish-IsSound :
    (max : ℕ) (device_id : String) (conn : ℕ) (m : Manager)
    → lookup conn m.serving ≡ some device_id
    → IsSound max m
    → IsSound max (finish device_id conn m)
unfolding finish drop
finish-IsSound max device_id conn m reading s = record {
  held = omega (arith, s.held, length-remove conn device_id m.serving reading);
  bounded = omega (arith, s.bounded);
  one_session = forget-Distinct device_id conn m.active_sessions s.one_session;
  one_handler = remove-Distinct conn m.serving s.one_handler;
  numbered = λ c d h. ground (arith, lookup-remove conn c m.serving s.one_handler, s.numbered c d);
  served = λ d c h. ground (
    arith,
    lookup-remove conn c m.serving s.one_handler,
    s.served d c (forget-of device_id d conn c m.active_sessions s.one_session h),
    forget-gone device_id conn m.active_sessions s.one_session,
    reading,
    nat_beq_iff conn c,
  );
  leaving = λ c d h.
      (drop-IsSound max device_id conn m s).leaving c d
        (ground (arith, lookup-remove conn c m.serving s.one_handler));
}

pub disconnect_device-IsSound :
    (max : ℕ) (device_id : String) (m : Manager)
    → IsSound max m
    → IsSound max (disconnect_device device_id m)
unfolding disconnect_device
disconnect_device-IsSound max device_id m s = record {
  held = s.held;
  bounded = s.bounded;
  one_session = remove-Distinct device_id m.active_sessions s.one_session;
  one_handler = s.one_handler;
  numbered = s.numbered;
  served = λ d c h.
      ground (arith, lookup-remove device_id d m.active_sessions s.one_session, s.served d c);
  leaving = λ c d h. ground (
    arith,
    lookup-remove device_id d m.active_sessions s.one_session,
    s.leaving c d h,
    string_eq.same_iff device_id d,
    replaced-closed c (lookup device_id m.active_sessions) m.closed,
    IsLeaving-replaced c (lookup device_id m.active_sessions) m,
  );
}

-- Every session that `Shutdown` takes is among those that it will close.
taken :
    (d : String) (c : ℕ) (sessions : Assoc String ℕ)
    → lookup d sessions ≡ some c
    → any (λ x. x == c) (map (λ e. e.1) sessions) ≡ true
unfolding lookup any
taken d c [] h = absurd cc
taken d c ((k, v) ∷ sessions) h = ground (arith, taken d c sessions, nat_beq_iff v c)

pub take_sessions-IsSound : (max : ℕ) (m : Manager) → IsSound max m → IsSound max (take_sessions m)
unfolding take_sessions lookup
take_sessions-IsSound max m s = record {
  held = s.held;
  bounded = s.bounded;
  one_session = tt;
  one_handler = s.one_handler;
  numbered = s.numbered;
  served = λ d c h. absurd cc;
  leaving = λ c d h. inr (
      ground (
        arith,
        s.leaving c d h,
        taken d c m.active_sessions,
        any-append (λ x. x == c) (map (λ e. e.1) m.active_sessions) m.closing,
      ));
}

close_taken-IsSound :
    (max : ℕ) (taken : List ℕ) (m : Manager)
    → m.closing ≡ taken
    → IsSound max m
    → IsSound max (close_taken taken m)
unfolding close_taken close any
close_taken-IsSound max [] m e s = s
close_taken-IsSound max (conn ∷ rest) m e s = record {
  held = s.held;
  bounded = s.bounded;
  one_session = s.one_session;
  one_handler = s.one_handler;
  numbered = s.numbered;
  served = s.served;
  leaving = λ c d h. elim (s.leaving c d h) [
    | inl live ↦ inl live
    | inr gone ↦
        let left = subst (λ xs. (any (λ x. x == c) xs || is_closed c m) ≡ true) e gone in
        inr (ground arith)
  ];
}

pub close_next-IsSound : (max : ℕ) (m : Manager) → IsSound max m → IsSound max (close_next m)
unfolding close_next
close_next-IsSound max m s = close_taken-IsSound max m.closing m refl s
