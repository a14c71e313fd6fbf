-- ===== src/ClientIp/Forwarded.antt =====
-- internal/api/handler_utils.go: a client cannot choose the address under which it is counted.
use mathlib.Core.List.{reverse, reverse-append, reverse-cons, append_assoc}
use neo_nect_server.Base.{
  ◌≡◌, refl, ◌∙◌, Bool, true, false, not, Option, some, String, List, [], ◌∷◌, ◌++◌, ◌==◌,
  string_eq, arith, Bool-cases, inl, inr, ◌⊎◌, trim_space, any, any-append, if◌then◌else◌,
}
use neo_nect_server.ClientIp.{
  or_else, is_trusted_proxy, is_skipped, last_client, from_forwarded, client_of, get_client_ip,
  split_commas,
}

module _ {Ip Net : Type 0} (parse_ip : String → Option Ip) (parse_cidr : String → Option Net)
    (contains : Net → Ip → Bool) (trusted : List Net) where
  abbrev skips : String → Bool
  skips part = is_skipped parse_ip parse_cidr contains trusted part

  -- The scan passes over the parts that proxies added and stops at the first other one.
  pub last_client-append :
      (proxies rest : List String) (part : String)
      → any (λ p. not (skips p)) proxies ≡ false
      → skips part ≡ false
      → last_client parse_ip parse_cidr contains trusted (proxies ++ (part ∷ rest))
        ≡ some (trim_space part)
  unfolding last_client any
  last_client-append [] rest part all here = rw here refl
  last_client-append (p ∷ proxies) rest part all here =
      ground (arith, last_client-append proxies rest part)

any-reverse : (p : String → Bool) (xs : List String) → any p (reverse xs) ≡ any p xs
unfolding any
any-reverse p [] = refl
any-reverse p (x ∷ xs) =
    rw (reverse-cons x xs, any-append p (reverse xs) (x ∷ [])) (ground (arith, any-reverse p xs))

reversed :
    (forged proxies : List String) (client : String)
    → reverse (forged ++ (client ∷ proxies)) ≡ reverse proxies ++ (client ∷ reverse forged)
reversed forged proxies client =
    rw (reverse-append forged (client ∷ proxies), reverse-cons client proxies)
      (append_assoc (reverse proxies) (client ∷ []) (reverse forged))

-- Behind trusted proxies the address of a client is the part of X-Forwarded-For before those that the
-- proxies added, whatever the parts before it, which the client may have written: the peer is a
-- trusted proxy, the part is an address and no trusted proxy's, and each part after it is no address
-- or a trusted proxy's. The address of a peer that is no trusted proxy is its own, whatever both
-- headers hold, empty or not.
pub client_ip_unforged :
    {Ip Net : Type 0} (parse_ip : String → Option Ip) (parse_cidr : String → Option Net)
    (contains : Net → Ip → Bool) (split_host_port : String → Option String) (trusted : List Net)
    (remote_addr xff x_real_ip client any_xff any_real_ip : String) (forged proxies : List String)
    → (xff == "") ≡ false
    → split_commas xff ≡ forged ++ (client ∷ proxies)
    → is_skipped parse_ip parse_cidr contains trusted client ≡ false
    → any (λ p. not (is_skipped parse_ip parse_cidr contains trusted p)) proxies ≡ false
    → (get_client_ip parse_ip parse_cidr contains split_host_port trusted remote_addr xff x_real_ip
        ≡ (if is_trusted_proxy parse_ip parse_cidr contains
              (trim_space (or_else (split_host_port remote_addr) remote_addr))
              trusted
            then trim_space client
            else trim_space (or_else (split_host_port remote_addr) remote_addr)))
      × ((is_trusted_proxy parse_ip parse_cidr contains
              (trim_space (or_else (split_host_port remote_addr) remote_addr))
              trusted
            ≡ true)
          ⊎ (get_client_ip parse_ip parse_cidr contains split_host_port trusted remote_addr any_xff
                any_real_ip
              ≡ trim_space (or_else (split_host_port remote_addr) remote_addr)))
unfolding get_client_ip client_of from_forwarded or_else
client_ip_unforged parse_ip parse_cidr contains split_host_port trusted remote_addr xff x_real_ip
      client any_xff any_real_ip forged proxies present parts here skipped =
    let peer = trim_space (or_else (split_host_port remote_addr) remote_addr) in
    elim (Bool-cases (is_trusted_proxy parse_ip parse_cidr contains peer trusted)) [
      | inr direct ↦ rw direct (refl, inr refl)
      | inl proxied ↦
          rw
            (
              proxied,
              present,
              parts,
              reversed forged proxies client,
              last_client-append parse_ip parse_cidr contains trusted (reverse proxies)
                  (reverse forged) client (any-reverse _ proxies ∙ skipped) here,
            )
            (refl, inl refl)
    ]
