-- ===== src/Acl/Parse/Networks.antt =====
-- What the access list parser of src/acl.rs gives is what `is_allowed` needs.
use mini_dns.Prelude.{
  ℕ, ◌≡◌, refl, ap, true, false, Option, none, some, List, [], ◌∷◌, map, arith, ltb, if◌then◌else◌,
  inl, inr, Bool-cases,
}
use mathlib.Core.Path.{subst}
use mini_dns.Text.{Text, is_empty}
use mini_dns.Text.Lines.{trim}
use mini_dns.Text.Numbers.{parse_unsigned}
use mini_dns.Net.{IpAddr}
use mini_dns.Net.Parse.{parse_ipv4, parse_ipv6}
use mini_dns.Net.Parse.Octets.{parse_ipv4-octets}
use mini_dns.Net.Parse.Ipv6.{parse_ipv6-octets}
use mini_dns.Acl.{Cidr, Acl, is_allowed}
use mini_dns.Acl.Prefix.{Decides}
use mini_dns.Acl.Allowed.{IsCidr, IsAddr, AreCidrs, InSome, is_allowed-Decides}
use mini_dns.Acl.Parse.{split_once, network, host, parse_cidr, push_entry, parse_entries, parse}

-- The entries that are not blank, trimmed.
abbrev pub given : List Text → List Text
given [] = []
given (s ∷ specs) = let later = given specs in if is_empty (trim s) then later else trim s ∷ later

abbrev Parsed : Option Cidr → Type 0
Parsed none = Unit
Parsed (some c) = IsCidr c

network-IsCidr : (addr_part : Text) (prefix : ℕ) → Parsed (network addr_part prefix)
unfolding network
network-IsCidr addr_part prefix =
    four (parse_ipv4 addr_part) (parse_ipv4-octets addr_part)
      (six (parse_ipv6 addr_part) (parse_ipv6-octets addr_part))
  where
    six :
        (o : Option (List ℕ))
        → ((octets : List ℕ) → o ≡ some octets → IsAddr (IpAddr.v6 octets))
        → Parsed (elim o as (λ _. Option Cidr) [
          | some octets ↦ if ltb 128 prefix then none else some (Cidr.v6 octets prefix)
          | none ↦ none
        ])
    six none h = tt
    six (some octets) h = elim (Bool-cases (ltb 128 prefix)) [
      | inl large ↦ rw large tt
      | inr small ↦ rw small ((h octets refl).0, ground arith, (h octets refl).1)
    ]

    four :
        (o : Option (List ℕ))
        → ((octets : List ℕ) → o ≡ some octets → IsAddr (IpAddr.v4 octets))
        → Parsed (elim (parse_ipv6 addr_part) as (λ _. Option Cidr) [
          | some octets ↦ if ltb 128 prefix then none else some (Cidr.v6 octets prefix)
          | none ↦ none
        ])
        → Parsed (elim o as (λ _. Option Cidr) [
          | some octets ↦ if ltb 32 prefix then none else some (Cidr.v4 octets prefix)
          | none ↦ elim (parse_ipv6 addr_part) as (λ _. Option Cidr) [
            | some octets ↦ if ltb 128 prefix then none else some (Cidr.v6 octets prefix)
            | none ↦ none
          ]
        ])
    four none h k = k
    four (some octets) h k = elim (Bool-cases (ltb 32 prefix)) [
      | inl large ↦ rw large tt
      | inr small ↦ rw small ((h octets refl).0, ground arith, (h octets refl).1)
    ]

host-IsCidr : (s : Text) → Parsed (host s)
unfolding host
host-IsCidr s = four (parse_ipv4 s) (parse_ipv4-octets s) (six (parse_ipv6 s) (parse_ipv6-octets s))
  where
    six :
        (o : Option (List ℕ))
        → ((octets : List ℕ) → o ≡ some octets → IsAddr (IpAddr.v6 octets))
        → Parsed
            (elim o as (λ _. Option Cidr) [ some octets ↦ some (Cidr.v6 octets 128) | none ↦ none ])
    six none h = tt
    six (some octets) h = ((h octets refl).0, omega arith, (h octets refl).1)

    four :
        (o : Option (List ℕ))
        → ((octets : List ℕ) → o ≡ some octets → IsAddr (IpAddr.v4 octets))
        → Parsed (elim (parse_ipv6 s) as (λ _. Option Cidr) [
          | some octets ↦ some (Cidr.v6 octets 128)
          | none ↦ none
        ])
        → Parsed (elim o as (λ _. Option Cidr) [
          | some octets ↦ some (Cidr.v4 octets 32)
          | none ↦ elim (parse_ipv6 s) as (λ _. Option Cidr) [
            | some octets ↦ some (Cidr.v6 octets 128)
            | none ↦ none
          ]
        ])
    four none h k = k
    four (some octets) h k = ((h octets refl).0, omega arith, (h octets refl).1)

parse_cidr-IsCidr : (s : Text) → Parsed (parse_cidr s)
unfolding parse_cidr
parse_cidr-IsCidr s = parts (split_once b'/' s)
  where
    prefix :
        (addr_part : Text) (o : Option ℕ)
        → Parsed
            (elim o as (λ _. Option Cidr) [ none ↦ none | some prefix ↦ network addr_part prefix ])
    prefix addr_part none = tt
    prefix addr_part (some n) = network-IsCidr addr_part n

    parts :
        (o : Option (Text × Text))
        → Parsed (elim o as (λ _. Option Cidr) [
          | none ↦ host s
          | some parts ↦ elim (parse_unsigned 256 parts.1) as (λ _. Option Cidr) [
            | none ↦ none
            | some prefix ↦ network parts.0 prefix
          ]
        ])
    parts none = host-IsCidr s
    parts (some p) = prefix p.0 (parse_unsigned 256 p.1)

-- The entries, if there is no error: one for each that is given, in order, and each a network.
abbrev Entries : List Text → Option (List Cidr) → Type 0
Entries specs none = Unit
Entries specs (some cs) = (map some cs ≡ map parse_cidr (given specs)) × AreCidrs cs

push_entry-Entries :
    (s : Text) (specs : List Text) (o : Option Cidr) (later : Option (List Cidr))
    → is_empty (trim s) ≡ false
    → parse_cidr (trim s) ≡ o
    → Parsed o
    → Entries specs later
    → Entries (s ∷ specs) (push_entry o later)
unfolding push_entry
push_entry-Entries s specs none later solid e h k = tt
push_entry-Entries s specs (some c) none solid e h k = tt
push_entry-Entries s specs (some c) (some cs) solid e h k =
    rw (solid, e) (ap (◌∷◌ (some c)) k.0, (h, k.1))

parse_entries-Entries : (specs : List Text) → Entries specs (parse_entries specs)
unfolding parse_entries
parse_entries-Entries [] = (refl, tt)
parse_entries-Entries (s ∷ specs) =
    let later = parse_entries-Entries specs in
    elim (Bool-cases (is_empty (trim s))) [
      | inl blank ↦ rw blank (skip (parse_entries specs) blank later)
      | inr solid ↦ rw solid (
          push_entry-Entries s specs (parse_cidr (trim s)) (parse_entries specs) solid refl
            (parse_cidr-IsCidr (trim s)) later)
    ]
  where
    skip :
        (o : Option (List Cidr))
        → is_empty (trim s) ≡ true
        → Entries specs o
        → Entries (s ∷ specs) o
    skip none blank h = tt
    skip (some cs) blank h = rw blank h

-- An access list that parses has an entry for each that is given and not blank, in order, and it
-- answers for every client without a panic, by whether the address lies in one of these networks.
pub parse-Decides :
    (specs : List Text) (acl : Acl) (ip : IpAddr)
    → parse specs ≡ some acl
    → IsAddr ip
    → (map some acl.entries ≡ map parse_cidr (given specs))
      × Decides (is_allowed acl ip) (InSome ip acl.entries)
unfolding parse
parse-Decides specs acl ip e at = decide (parse_entries specs) (parse_entries-Entries specs) e
  where
    decide :
        (o : Option (List Cidr))
        → Entries specs o
        → (elim o as (λ _. Option Acl) [
          | none ↦ none
          | some entries ↦ some (record { entries = entries })
        ])
          ≡ some acl
        → (map some acl.entries ≡ map parse_cidr (given specs))
          × Decides (is_allowed acl ip) (InSome ip acl.entries)
    decide none h e' = absurd (ground arith)
    decide (some cs) h e' =
        let same : record { entries = cs } ≡ acl = ground arith in
        subst
          (λ a.
            (map some a.entries ≡ map parse_cidr (given specs))
            × Decides (is_allowed a ip) (InSome ip a.entries))
          same (h.0, is_allowed-Decides (record { entries = cs }) ip h.1 at)
