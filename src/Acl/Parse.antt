-- ===== src/Acl/Parse.antt =====
-- `Acl::parse` and `parse_cidr` of src/acl.rs. An error is `none`: the server does not start with it.
pub mod Networks
use mini_dns.Prelude.{ℕ, Option, none, some, List, [], ◌∷◌, ltb, ◌==◌, if◌then◌else◌}
use mini_dns.Text.{Text, is_empty}
use mini_dns.Text.Lines.{trim}
use mini_dns.Text.Numbers.{parse_unsigned}
use mini_dns.Net.Parse.{parse_ipv4, parse_ipv6}
use mini_dns.Acl.{Cidr, Acl}

-- `split_once`: what stands in front of the first such character, and behind it.
unfoldable pub split_once : ℕ → Text → Option (Text × Text)
split_once c [] = none
split_once c (d ∷ s) =
    let later = split_once c s in
    if d == c
    then some ([], s)
    else elim later [ none ↦ none | some parts ↦ some (d ∷ parts.0, parts.1) ]

-- The entry of an address with its prefix length.
unfoldable pub network : Text → ℕ → Option Cidr
network addr_part prefix = elim (parse_ipv4 addr_part) [
  | some octets ↦ if ltb 32 prefix then none else some (Cidr.v4 octets prefix)
  | none ↦ elim (parse_ipv6 addr_part) [
    | some octets ↦ if ltb 128 prefix then none else some (Cidr.v6 octets prefix)
    | none ↦ none
  ]
]

-- A single host.
unfoldable pub host : Text → Option Cidr
host s = elim (parse_ipv4 s) [
  | some octets ↦ some (Cidr.v4 octets 32)
  | none ↦ elim (parse_ipv6 s) [ some octets ↦ some (Cidr.v6 octets 128) | none ↦ none ]
]

unfoldable pub parse_cidr : Text → Option Cidr
parse_cidr s = elim (split_once b'/' s) [
  | none ↦ host s
  | some parts ↦ elim (parse_unsigned 256 parts.1) [
    | none ↦ none
    | some prefix ↦ network parts.0 prefix
  ]
]

-- An entry in front of the later ones, unless one of them is an error.
unfoldable pub push_entry : Option Cidr → Option (List Cidr) → Option (List Cidr)
push_entry (some c) (some cs) = some (c ∷ cs)
push_entry (some c) none = none
push_entry none _ = none

-- The loop of `parse`; a blank entry is skipped.
unfoldable pub parse_entries : List Text → Option (List Cidr)
parse_entries [] = some []
parse_entries (s ∷ specs) =
    let later = parse_entries specs in
    if is_empty (trim s) then later else push_entry (parse_cidr (trim s)) later

unfoldable pub parse : List Text → Option Acl
parse specs = elim (parse_entries specs) [
  | none ↦ none
  | some entries ↦ some (record { entries = entries })
]
