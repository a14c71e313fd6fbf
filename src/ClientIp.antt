-- ===== src/ClientIp.antt =====
-- internal/api/handler_utils.go: the address of a client behind trusted proxies. `Ip` and `Net` are
-- `net.IP` and `net.IPNet`, `parse_ip`, `parse_cidr`, `contains` and `split_host_port` the functions of
-- Go's package net, with none for an error.
pub mod Forwarded
mod Tests
use Prim.Native.Char.{Char, code}
use Prim.Native.String.{◌++◌ as text_append}
use mathlib.Core.List.{reverse}
use neo_nect_server.Base.{
  ℕ, Bool, true, false, not, ◌||◌, Option, none, some, String, List, [], ◌∷◌, ◌==◌, nat_eq,
  string_eq, if◌then◌else◌, trim_space,
}

-- `strings.Contains` of one character
unfoldable pub has_char : ℕ → String → Bool
has_char c String.[] = false
has_char c (String.◌∷◌ d s) = code d == c || has_char c s

abbrev pub onto : Char → List String → List String
onto c [] = String.◌∷◌ c String.[] ∷ []
onto c (part ∷ parts) = String.◌∷◌ c part ∷ parts

-- `strings.Split(s, ",")`
unfoldable pub split_commas : String → List String
split_commas String.[] = "" ∷ []
split_commas (String.◌∷◌ c s) =
    let rest = split_commas s in if code c == 44 then "" ∷ rest else onto c rest

-- `p + "/128"` for an address of IPv6, `p + "/32"` for one of IPv4
unfoldable pub with_mask : String → String
unfolding has_char
with_mask p =
    if not (has_char 47 p)
    then (if has_char 58 p then text_append p "/128" else text_append p "/32")
    else p

unfoldable pub is_present : {A : Type 0} → Option A → Bool
is_present none = false
is_present (some _) = true

unfoldable pub or_else : {A : Type 0} → Option A → A → A
or_else none a = a
or_else (some b) a = b

module _ {Ip Net : Type 0} (parse_ip : String → Option Ip) (parse_cidr : String → Option Net)
    (contains : Net → Ip → Bool) where
  unfoldable pub parse_trusted_proxies : List String → List Net
  unfolding with_mask
  parse_trusted_proxies [] = []
  parse_trusted_proxies (p ∷ proxies) =
      let rest = parse_trusted_proxies proxies in
      elim (parse_cidr (with_mask p)) [ none ↦ rest | some ip_net ↦ ip_net ∷ rest ]

  unfoldable pub any_contains : List Net → Ip → Bool
  any_contains [] ip = false
  any_contains (network ∷ trusted) ip = contains network ip || any_contains trusted ip

  unfoldable pub is_trusted_proxy : String → List Net → Bool
  unfolding any_contains
  is_trusted_proxy ip trusted = elim (parse_ip ip) [
    | none ↦ false
    | some parsed ↦ any_contains trusted parsed
  ]

  -- a part that the first loop of `GetClientIP` passes over: no address, or that of a trusted proxy
  abbrev pub is_skipped : List Net → String → Bool
  is_skipped trusted part =
      not (is_present (parse_ip (trim_space part))) || is_trusted_proxy (trim_space part) trusted

  -- the loop from the last part to the first, over the parts in that order
  unfoldable pub last_client : List Net → List String → Option String
  unfolding is_trusted_proxy is_present
  last_client trusted [] = none
  last_client trusted (part ∷ parts) =
      if is_skipped trusted part then last_client trusted parts else some (trim_space part)

  -- the loop for the leftmost valid address
  unfoldable pub first_valid : List String → Option String
  unfolding is_present
  first_valid [] = none
  first_valid (part ∷ parts) =
      if is_present (parse_ip (trim_space part)) then some (trim_space part) else first_valid parts

  -- without `X-Forwarded-For`
  unfoldable pub from_real_ip : String → String → String
  unfolding is_present
  from_real_ip ip x_real_ip =
      if x_real_ip == ""
      then ip
      else if is_present (parse_ip (trim_space x_real_ip))
      then trim_space x_real_ip
      else ip

  unfoldable pub from_forwarded : List Net → String → List String → String
  unfolding last_client first_valid or_else
  from_forwarded trusted ip parts =
      or_else (last_client trusted (reverse parts)) (or_else (first_valid parts) ip)

  -- on the address of the peer, without the space around it
  unfoldable pub client_of : List Net → String → String → String → String
  unfolding from_real_ip from_forwarded split_commas
  client_of trusted xff x_real_ip ip =
      if not (is_trusted_proxy ip trusted)
      then ip
      else if xff == ""
      then from_real_ip ip x_real_ip
      else from_forwarded trusted ip (split_commas xff)

  -- An empty list of proxies trusts none.
  unfoldable pub get_client_ip :
      (String → Option String) → List Net → String → String → String → String
  unfolding client_of
  get_client_ip split_host_port trusted remote_addr xff x_real_ip =
      client_of trusted xff x_real_ip
        (trim_space (or_else (split_host_port remote_addr) remote_addr))
