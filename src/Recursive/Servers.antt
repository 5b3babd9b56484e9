-- ===== src/Recursive/Servers.antt =====
-- Which servers src/recursive.rs asks: the root hints, and the delegations with the NS records and the
-- glue of a reply.
use mini_dns.Prelude.{
  ℕ, Bool, true, false, Option, none, some, List, [], ◌∷◌, leb, if◌then◌else◌, min,
}
use mini_dns.Text.{Text, text_eq, to_lowercase}
use mini_dns.Net.{IpAddr, SocketAddr}
use mini_dns.Dns.Record.{DnsRecord}

abbrev hint : ℕ → ℕ → ℕ → ℕ → SocketAddr
hint a b c d = record { ip = IpAddr.v4 (a ∷ b ∷ c ∷ d ∷ []); port = 53 }

-- The addresses of `ROOT_HINTS`, in order, with the port of DNS.
abbrev pub root_servers : List SocketAddr
root_servers =
    hint 198 41 0 4
    ∷ hint 170 247 170 2
    ∷ hint 192 33 4 12
    ∷ hint 199 7 91 13
    ∷ hint 192 203 230 10
    ∷ hint 192 5 5 241
    ∷ hint 192 112 36 4
    ∷ hint 198 97 190 53
    ∷ hint 192 36 148 17
    ∷ hint 192 58 128 30
    ∷ hint 193 0 14 129
    ∷ hint 199 7 83 42
    ∷ hint 202 12 27 33
    ∷ []

pub record Delegation : Type 0 where
  pub ns_names : List Text
  pub ns_addrs : List SocketAddr
  pub expires_at : ℕ

abbrev pub is_expired : ℕ → Delegation → Bool
is_expired now d = leb d.expires_at now

-- `ns.eq_ignore_ascii_case(domain)` for some of the names.
unfoldable pub names_server : List Text → Text → Bool
names_server [] domain = false
names_server (ns ∷ names) domain =
    let rest = names_server names domain in
    if text_eq (to_lowercase ns) (to_lowercase domain) then true else rest

unfoldable pub ns_names : List DnsRecord → List Text
ns_names [] = []
ns_names (DnsRecord.ns domain nameserver ttl ∷ rs) = nameserver ∷ ns_names rs
ns_names (r ∷ rs) = ns_names rs

-- The least TTL of the NS records, and at most `ns_ttl`.
unfoldable pub ns_ttl : ℕ → List DnsRecord → ℕ
ns_ttl least [] = least
ns_ttl least (DnsRecord.ns domain nameserver ttl ∷ rs) = ns_ttl (min least ttl) rs
ns_ttl least (r ∷ rs) = ns_ttl least rs

-- The socket of an A or AAAA record of one of the names.
unfoldable pub glue_addr : List Text → DnsRecord → Option SocketAddr
glue_addr names (DnsRecord.a domain addr ttl) =
    if names_server names domain then some (record { ip = IpAddr.v4 addr; port = 53 }) else none
glue_addr names (DnsRecord.aaaa domain addr ttl) =
    if names_server names domain then some (record { ip = IpAddr.v6 addr; port = 53 }) else none
glue_addr names r = none

unfoldable pub glue : List Text → List DnsRecord → List SocketAddr
glue names [] = []
glue names (r ∷ rs) =
    let rest = glue names rs in elim (glue_addr names r) [ some addr ↦ addr ∷ rest | none ↦ rest ]
