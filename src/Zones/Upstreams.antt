-- ===== src/Zones/Upstreams.antt =====
-- The upstreams of the settings in src/config.rs: `parse_upstream_addr`, over the standard library's
-- parser of socket addresses, and `forward_rules_from_settings`. The scope of an IPv6 socket is read
-- and dropped.
use mini_dns.Prelude.{
  ℕ, ◌^◌, ◌≡◌, refl, Bool, true, false, Option, none, some, List, [], ◌∷◌, ◌++◌, length,
}
use mini_dns.Text.{Text, is_empty, dot, to_lowercase}
use mini_dns.Text.Numbers.{read_number, read_digits, to_digit, leads_zero, value_of}
use mini_dns.Net.{IpAddr, SocketAddr}
use mini_dns.Net.Parse.{colon, read_given_char, read_ipv4, read_ipv6, more_octets, dot_octet}
use mini_dns.Zones.{ForwardRule, ForwardRules, no_rules, new_rules}
use mini_dns.Zones.Load.{◌>>=◌}

-- A number of any count of digits.
abbrev pub read_any : (limit : ℕ) → Text → Option (ℕ × Text)
read_any limit s = read_number 10 (length s) true limit s

-- `read_port`, at the end of the text.
unfoldable pub read_port : IpAddr → Text → Option SocketAddr
read_port ip s = do
  rest ← read_given_char colon s
  port ← read_any (2 ^ 16) rest
  if_whole (is_empty port.1) (record { ip = ip; port = port.0 })
  where
    if_whole : Bool → SocketAddr → Option SocketAddr
    if_whole true addr = some addr
    if_whole false addr = none

-- What stands behind the scope, if there is one.
unfoldable pub skip_scope : Text → Text
skip_scope s = elim (read_given_char b'%' s >>= read_any (2 ^ 32)) [
  | none ↦ s
  | some scope ↦ scope.1
]

unfoldable pub parse_socket_v4 : Text → Option SocketAddr
parse_socket_v4 s = do ip ← read_ipv4 s; read_port (IpAddr.v4 ip.0) ip.1

unfoldable pub parse_socket_v6 : Text → Option SocketAddr
parse_socket_v6 s = do
  inside ← read_given_char b'[' s
  ip ← read_ipv6 inside
  outside ← read_given_char b']' (skip_scope ip.1)
  read_port (IpAddr.v6 ip.0) outside

-- `s.parse::<SocketAddr>()`.
unfoldable pub parse_socket : Text → Option SocketAddr
parse_socket s = elim (parse_socket_v4 s) [ some addr ↦ some addr | none ↦ parse_socket_v6 s ]

-- A text without a port gets port 53.
unfoldable pub parse_upstream_addr : Text → Option SocketAddr
parse_upstream_addr s = elim (parse_socket s) [
  | some addr ↦ some addr
  | none ↦ parse_socket (s ++ (b':' ∷ b'5' ∷ b'3' ∷ []))
]

pub record ForwardRuleSettings : Type 0 where
  pub suffix : Text
  pub upstream : Text

-- `None` for the rules is the empty list.
pub record UpstreamSettings : Type 0 where
  pub default : Option Text
  pub rules : List ForwardRuleSettings

unfoldable pub default_upstream : Option Text → Option (Option SocketAddr)
default_upstream none = some none
default_upstream (some s) = parse_upstream_addr s >>= λ addr. some (some addr)

unfoldable pub forward_rules : List ForwardRuleSettings → Option (List ForwardRule)
forward_rules [] = some []
forward_rules (r ∷ rs) = do
  upstream ← parse_upstream_addr r.upstream
  later ← forward_rules rs
  some (record { suffix = to_lowercase r.suffix; upstream = upstream } ∷ later)

unfoldable pub forward_rules_from_settings : Option UpstreamSettings → Option ForwardRules
forward_rules_from_settings none = some no_rules
forward_rules_from_settings (some up) = do
  default ← default_upstream up.default
  rules ← forward_rules up.rules
  some (new_rules default rules)

-- "1.2.3.4", which gets port 53, and "1.2.3.4:99".
adds_port :
    (parse_upstream_addr (b'1' ∷ dot ∷ b'2' ∷ dot ∷ b'3' ∷ dot ∷ b'4' ∷ [])
      ≡ some (record { ip = IpAddr.v4 (1 ∷ 2 ∷ 3 ∷ 4 ∷ []); port = 53 }))
    × (parse_upstream_addr (b'1' ∷ dot ∷ b'2' ∷ dot ∷ b'3' ∷ dot ∷ b'4' ∷ b':' ∷ b'9' ∷ b'9' ∷ [])
        ≡ some (record { ip = IpAddr.v4 (1 ∷ 2 ∷ 3 ∷ 4 ∷ []); port = 99 }))
unfolding parse_upstream_addr parse_socket parse_socket_v4 parse_socket_v6 read_port skip_scope
    read_given_char read_ipv4 more_octets dot_octet read_number read_digits to_digit leads_zero
    value_of is_empty
adds_port = (refl, refl)
