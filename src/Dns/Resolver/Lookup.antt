-- ===== src/Dns/Resolver/Lookup.antt =====
-- `lookup` of src/dns/resolver.rs: the record set of a name, by wildcards where it has none.
use mini_dns.Prelude.{◌≡◌, ◌⊎◌, inl, inr, none, some, List, Option-cases, arith}
use mini_dns.Text.{Text}
use mini_dns.Text.Parents.{IsNearest, find_parent-IsNearest}
use mini_dns.Zones.{Zone, zone_get}
use mini_dns.Dns.Record.{DnsRecord}
use mini_dns.Dns.Resolver.{lookup, wildcard}

-- An exact entry wins; without one, the result is that of `*.` and the longest parent of the name
-- that has such an entry, and there is none only if no parent has one.
pub lookup-IsNearest :
    (records : Zone) (name : Text)
    → ((found : List DnsRecord) × (zone_get records name ≡ some found)
        × (lookup records name ≡ some found))
      ⊎ ((zone_get records name ≡ none) × IsNearest (wildcard records) name (lookup records name))
unfolding lookup
lookup-IsNearest records name = elim (Option-cases (zone_get records name)) [
  | inl e ↦ inr (e, rw (e, lookup) (find_parent-IsNearest (wildcard records) name))
  | inr (found, e) ↦ inl (found, e, ground arith)
]
