-- ===== src/ClientIp/Tests.antt =====
-- Runs of `GetClientIP` of internal/api/handler_utils.go behind two proxies, with texts for addresses.
use neo_nect_server.Base.{
  ◌≡◌, refl, ◌⊎◌, Bool, true, false, not, Option, none, some, String, List, [], ◌∷◌, ◌==◌,
  string_eq, trim_space, any, if◌then◌else◌,
}
use neo_nect_server.ClientIp.{
  is_present, is_trusted_proxy, is_skipped, split_commas, with_mask, get_client_ip, or_else,
}
use neo_nect_server.ClientIp.Forwarded.{client_ip_unforged}

-- the package net of the tests
abbrev parse : String → Option String
parse s = if s == "junk" then none else some s

abbrev holds : String → String → Bool
holds network ip = network == ip

abbrev host : String → Option String
host s = none

abbrev proxies : List String
proxies = "10.0.0.1" ∷ "10.0.0.2" ∷ []

ipv6_masked : with_mask "::1" ≡ "::1/128"
unfolding with_mask
ipv6_masked = refl

header_split : split_commas "1.1.1.1,9.9.9.9, 10.0.0.2" ≡ ("1.1.1.1" ∷ "9.9.9.9" ∷ " 10.0.0.2" ∷ [])
unfolding split_commas
header_split = refl

client_kept : is_skipped parse parse holds proxies "9.9.9.9" ≡ false
unfolding is_trusted_proxy is_present trim_space
client_kept = refl

proxy_skipped : any (λ p. not (is_skipped parse parse holds proxies p)) (" 10.0.0.2" ∷ []) ≡ false
unfolding is_trusted_proxy is_present trim_space any
proxy_skipped = refl

client_ip_unforged_example :
    (get_client_ip parse parse holds host proxies "10.0.0.1" "1.1.1.1,9.9.9.9, 10.0.0.2" ""
      ≡ "9.9.9.9")
    × ((is_trusted_proxy parse parse holds "10.0.0.1" proxies ≡ true)
        ⊎ (get_client_ip parse parse holds host proxies "10.0.0.1" "" "6.6.6.6" ≡ "10.0.0.1"))
unfolding is_trusted_proxy trim_space or_else
client_ip_unforged_example =
    client_ip_unforged parse parse holds host proxies "10.0.0.1" "1.1.1.1,9.9.9.9, 10.0.0.2" ""
      "9.9.9.9" "" "6.6.6.6" ("1.1.1.1" ∷ []) (" 10.0.0.2" ∷ []) refl header_split client_kept
      proxy_skipped
