-- ===== src/Http/Passage.antt =====
-- internal/api/handler_utils.go: the guards that a handler passes, or stops at, without a change to the
-- tables or to the connections.
use mathlib.Core.Path.{subst}
use neo_nect_server.Base.{
  ℕ, ◌≤◌, ◌≡◌, sym, inl, inr, Bool, true, false, ◌&&◌, Option, none, some, String, arith, ◌==◌,
  nat_eq, string_eq, any, Bool-cases,
}
use neo_nect_server.Db.{Tables, statement}
use neo_nect_server.Relay.{is_active, is_active_device_owned_by_user}
use neo_nect_server.Devices.Service.{validate_active_device_ownership}
use neo_nect_server.Sockets.{Manager}
use neo_nect_server.Rate.Requests.{allow_message}
use neo_nect_server.Http.{
  Env, Request, Parsed, parsed, too_large, malformed, Server, Response, Reply, answered, value,
  Http, pure, ◌>>=◌, proceed, check_message_limit, parse_json, require_text, require, bad_request,
}
use neo_nect_server.Http.Relay.{RelayMessageRequest, require_own_device, require_version}

-- The tables and the connections are those given.
pub record IsAt (t : Tables) (k : Manager) (s : Server) : Type 0 where
  pub tables : s.world.tables ≡ t
  pub sockets : s.sockets ≡ k

-- An answer of an error that left the tables and the connections alone.
pub data Refusal (t : Tables) (k : Manager) {A : Type 0} : Reply A × Server → Type 0 where
  refusal : {r : Response} {s : Server} → 400 ≤ r.status → IsAt t k s → Refusal t k (answered r, s)

-- A refusal, or a value with the tables and the connections left alone.
pub data Passage (t : Tables) (k : Manager) {A : Type 0} : Reply A × Server → Type 0 where
  refused : {r : Response} {s : Server} → 400 ≤ r.status → IsAt t k s → Passage t k (answered r, s)
  passed : {a : A} {s : Server} → IsAt t k s → Passage t k (value a, s)

module _ (t : Tables) (k : Manager) where
  pub then_stops :
      {A B : Type 0} (f : A → Http B) (x : Reply A × Server)
      → Passage t k x
      → ((a : A) (s : Server) → IsAt t k s → Refusal t k (f a s))
      → Refusal t k (proceed x.0 f x.1)
  then_stops f _ (refused big at) stop = refusal big at
  then_stops f _ (passed {a = a} {s = s} at) stop = stop a s at

  pub then_passes :
      {A B : Type 0} (f : A → Http B) (x : Reply A × Server)
      → Passage t k x
      → ((a : A) (s : Server) → IsAt t k s → Passage t k (f a s))
      → Passage t k (proceed x.0 f x.1)
  then_passes f _ (refused big at) go = refused big at
  then_passes f _ (passed {a = a} {s = s} at) go = go a s at

  pub limit_passes :
      (r : Request) (uid : ℕ) (s : Server) → IsAt t k s → Passage t k (check_message_limit r uid s)
  unfolding check_message_limit
  limit_passes r uid s at = elim (Bool-cases (allow_message s.limiter uid r.nano).0) [
    | inl admitted ↦ rw admitted (passed (record { tables = at.tables; sockets = at.sockets }))
    | inr limited ↦
        rw limited (refused (omega arith) (record { tables = at.tables; sockets = at.sockets }))
  ]

  pub parse_passes :
      {A : Type 0} (body : Parsed A) (s : Server) → IsAt t k s → Passage t k (parse_json body s)
  unfolding parse_json
  parse_passes (parsed a) s at = passed at
  parse_passes too_large s at = refused (omega arith) at
  parse_passes malformed s at = refused (omega arith) at

  pub require_passes :
      (x : Response) (b : Bool) (s : Server)
      → 400 ≤ x.status
      → IsAt t k s
      → Passage t k (require x b s)
  unfolding require
  require_passes x true s big at = passed at
  require_passes x false s big at = refused big at

  pub text_passes : (x : String) (s : Server) → IsAt t k s → Passage t k (require_text x s)
  unfolding require_text
  text_passes x s at = elim (Bool-cases (x == "")) [
    | inl empty ↦ rw empty (refused (omega arith) at)
    | inr given ↦ rw given (passed at)
  ]

  -- The check of the device, where the user has no such active device.
  pub own_stops :
      {B : Type 0} (env : Env) (uid : ℕ) (device_id : String) (f : Unit {0} → Http B) (s : Server)
      → any (λ d. d.device_id == device_id && d.user_id == uid && is_active d) t.devices ≡ false
      → IsAt t k s
      → Refusal t k ((require_own_device env uid device_id >>= f) s)
  unfolding require_own_device validate_active_device_ownership is_active_device_owned_by_user
      statement require
  own_stops env uid device_id f s foreign at = elim (Bool-cases (s.world.fails s.world.calls)) [
    | inl failed ↦
        rw failed (refusal (omega arith) (record { tables = at.tables; sockets = at.sockets }))
    | inr reached ↦
        let none_own =
          subst
            (λ t.
              any (λ d. d.device_id == device_id && d.user_id == uid && is_active d) t.devices
              ≡ false)
            (sym at.tables) foreign in
        rw (reached, none_own)
          (refusal (omega arith) (record { tables = at.tables; sockets = at.sockets }))
  ]

  pub version_passes :
      (q : RelayMessageRequest) (o : Option ℕ) (s : Server)
      → IsAt t k s
      → Passage t k (require_version q o s)
  unfolding require_version
  version_passes q none s at = refused (omega arith) at
  version_passes q (some v) s at = elim (Bool-cases (v == 2)) [
    | inl two ↦ rw two (
        then_passes (λ _. pure v) _ (require_passes bad_request _ s (omega arith) at)
          (λ _ s' at'. passed at'))
    | inr not_two ↦ elim (Bool-cases (v == 1)) [
      | inl one ↦
          rw (not_two, one)
            (then_passes (λ _. pure v) _ (require_passes bad_request _ s (omega arith) at)
              (λ _ s' at'. passed at'))
      | inr neither ↦ rw (not_two, neither) (refused (omega arith) at)
    ]
  ]
