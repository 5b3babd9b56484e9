-- ===== src/Tests/Access.antt =====
-- Clients before src/acl.rs and src/ratelimit.rs.
use mini_dns.Prelude.{
  ℕ, ◌≡◌, ◌↔◌, inl, refl, min, Bool, true, false, some, List, [], ◌∷◌, arith, suc,
}
use mini_dns.Prelude.{map}
use mini_dns.Text.{Text, is_empty, text_eq, text_eq_iff}
use mini_dns.Text.Lines.{trim}
use mini_dns.Text.Numbers.{
  parse_unsigned, parse_digits, read_number, read_digits, to_digit, leads_zero, value_of,
}
use mini_dns.Net.Parse.{parse_ipv4, whole, read_ipv4, more_octets, dot_octet, read_given_char}
use mini_dns.Net.{IpAddr}
use mini_dns.DashMap.{DashMap}
use mini_dns.DashMap.Assoc.{assoc}
use mini_dns.Acl.{Cidr, Acl, matches, match_at, is_allowed}
use mini_dns.Acl.Prefix.{Decides}
use mini_dns.Acl.Allowed.{InSome}
use mini_dns.RateLimit.{Window, RateLimiter, answers, cleanup}
use mini_dns.RateLimit.Quota.{granted, asked, granted-answers}
use mini_dns.Acl.Parse.{split_once, network, push_entry, parse_entries, parse, parse_cidr}
use mini_dns.Acl.Parse.Networks.{given, parse-Decides}
use mini_dns.RateLimit.Cleanup.{answers-cleanup}

abbrev home : List ℕ
home = 10 ∷ 0 ∷ 0 ∷ 1 ∷ []

abbrev net : List ℕ
net = 10 ∷ 0 ∷ 0 ∷ 0 ∷ []

allows : matches net 8 home ≡ some true
unfolding matches match_at text_eq
allows = refl

abbrev acl : Acl
acl = record { entries = Cidr.v4 net 9 ∷ [] }

-- "10.0.0.0/9" and a blank entry.
abbrev specs : List Text
specs =
    (b'1' ∷ b'0' ∷ b'.' ∷ b'0' ∷ b'.' ∷ b'0' ∷ b'.' ∷ b'0' ∷ b'/' ∷ b'9' ∷ []) ∷ (b' ' ∷ []) ∷ []

specs_parsed : parse specs ≡ some acl
unfolding parse parse_entries push_entry parse_cidr split_once network parse_unsigned parse_digits
    parse_ipv4 whole read_ipv4 more_octets dot_octet read_given_char read_number read_digits
    to_digit leads_zero value_of trim is_empty
specs_parsed = refl

parse-Decides_example :
    (map some acl.entries ≡ map parse_cidr (given specs))
    × Decides (is_allowed acl (IpAddr.v4 home)) (InSome (IpAddr.v4 home) acl.entries)
parse-Decides_example =
    parse-Decides specs acl (IpAddr.v4 home) specs_parsed
      (refl, (omega arith, (omega arith, (omega arith, (omega arith, tt)))))

unfoldable pub same_ip : IpAddr → IpAddr → Bool
same_ip (IpAddr.v4 a) (IpAddr.v4 b) = text_eq a b
same_ip (IpAddr.v6 a) (IpAddr.v6 b) = text_eq a b
same_ip (IpAddr.v4 a) (IpAddr.v6 b) = false
same_ip (IpAddr.v6 a) (IpAddr.v4 b) = false

pub same_ip_iff : (j k : IpAddr) → (same_ip j k ≡ true) ↔ (j ≡ k)
unfolding same_ip
same_ip_iff (IpAddr.v4 a) (IpAddr.v4 b) = ground (arith, text_eq_iff a b)
same_ip_iff (IpAddr.v6 a) (IpAddr.v6 b) = ground (arith, text_eq_iff a b)
same_ip_iff (IpAddr.v4 a) (IpAddr.v6 b) = ground arith
same_ip_iff (IpAddr.v6 a) (IpAddr.v4 b) = ground arith

abbrev pub clients : DashMap IpAddr Window
clients = assoc same_ip same_ip_iff

abbrev client : IpAddr
client = IpAddr.v4 home

abbrev guest : IpAddr
guest = IpAddr.v4 net

-- Two queries in a window of a hundred.
abbrev limiter : RateLimiter (List (IpAddr × Window))
limiter = record { max_per_window = 2; window = 100; clients = [] }

abbrev later_queries : List (IpAddr × ℕ)
later_queries = (client, 10) ∷ (guest, 11) ∷ (client, 12) ∷ (client, 13) ∷ []

granted-answers_example :
    granted (answers clients client ((client, 5) ∷ later_queries) limiter)
    ≡ min (suc (asked clients client later_queries)) 2
unfolding same_ip text_eq
granted-answers_example =
    granted-answers clients client limiter 5 later_queries (omega arith) (inl refl)
      (
        (λ _. (omega arith, omega arith)),
        (
          (λ _. (omega arith, omega arith)),
          ((λ _. (omega arith, omega arith)), ((λ _. (omega arith, omega arith)), tt)),
        ),
      )
      (omega arith)

abbrev tracked : RateLimiter (List (IpAddr × Window))
tracked = record limiter { clients = (client, record { started_at = 1; count = 2 }) ∷ [] }

answers-cleanup_example :
    answers clients client ((client, 210) ∷ []) (cleanup clients tracked 200)
    ≡ answers clients client ((client, 210) ∷ []) tracked
answers-cleanup_example =
    answers-cleanup clients tracked client 200 ((client, 210) ∷ []) (omega arith) (omega arith, tt)
