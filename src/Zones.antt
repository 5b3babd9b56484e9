-- ===== src/Zones.antt =====
-- The zone set and the forwarding rules of src/config.rs. A `HashMap` of the standard library is
-- an association list in the order of its iteration.
pub mod Find
pub mod Load
pub mod Upstreams
use mini_dns.Prelude.{
  ℕ, ◌+◌, Bool, true, false, ◌||◌, not, Option, none, some, List, [], ◌∷◌, ◌++◌, if◌then◌else◌,
  length,
}
use mini_dns.Text.{Text, dot, text_eq, is_empty, ends_with}
use mini_dns.Net.{SocketAddr}
use mini_dns.LongestFirst.{find_first, sort}
use mini_dns.Dns.Record.{DnsRecord}

-- Records by owner name.
abbrev pub Zone : Type 0
Zone = List (Text × List DnsRecord)

unfoldable pub zone_get : Zone → Text → Option (List DnsRecord)
zone_get [] name = none
zone_get ((owner, records) ∷ zone) name =
    let rest = zone_get zone name in if text_eq owner name then some records else rest

-- `zone.entry(domain).or_default().push(record)`.
unfoldable pub zone_push : Text → DnsRecord → Zone → Zone
zone_push name r [] = (name, r ∷ []) ∷ []
zone_push name r ((owner, records) ∷ zone) =
    let rest = zone_push name r zone in
    if text_eq owner name then (owner, records ++ (r ∷ [])) ∷ zone else (owner, records) ∷ rest

-- `values().flatten()`.
unfoldable pub zone_values : Zone → List DnsRecord
zone_values [] = []
zone_values ((owner, records) ∷ zone) = records ++ zone_values zone

pub record AuthZone : Type 0 where
  pub origin : Text
  pub records : Zone

abbrev pub origin_length : AuthZone → ℕ
origin_length z = length z.origin

pub record ZoneSet : Type 0 where
  pub zones : List AuthZone

unfoldable pub new_zones : List AuthZone → ZoneSet
new_zones zones = record { zones = sort origin_length zones }

unfoldable pub from_single : Text → Zone → ZoneSet
unfolding new_zones
from_single origin records = new_zones (record { origin = origin; records = records } ∷ [])

-- The owner of the first SOA record.
unfoldable pub soa_domain : List DnsRecord → Option Text
soa_domain [] = none
soa_domain (DnsRecord.soa domain _ _ _ _ _ _ _ _ ∷ rs) = some domain
soa_domain (r ∷ rs) = soa_domain rs

-- The origin inferred from the records, empty where there is no SOA.
unfoldable pub inferred_origin : Zone → Text
unfolding soa_domain zone_values
inferred_origin records = elim (soa_domain (zone_values records)) [ some d ↦ d | none ↦ [] ]

unfoldable pub from_records : Zone → ZoneSet
unfolding inferred_origin from_single
from_records records = from_single (inferred_origin records) records

-- `name == suffix || name.ends_with(&format!(".{suffix}"))`.
unfoldable pub under : Text → Text → Bool
under name suffix = text_eq name suffix || ends_with name (dot ∷ suffix)

unfoldable pub zone_covers : Text → AuthZone → Bool
unfolding under
zone_covers name z = is_empty z.origin || under name z.origin

unfoldable pub find : ZoneSet → Text → Option AuthZone
find set name = find_first (zone_covers name) set.zones

unfoldable pub zone_record_count : Zone → ℕ
zone_record_count [] = 0
zone_record_count ((owner, records) ∷ zone) = length records + zone_record_count zone

unfoldable pub count_all : List AuthZone → ℕ
count_all [] = 0
count_all (z ∷ zs) = zone_record_count z.records + count_all zs

unfoldable pub record_count : ZoneSet → ℕ
record_count set = count_all set.zones

pub record ForwardRule : Type 0 where
  pub suffix : Text
  pub upstream : SocketAddr

abbrev pub suffix_length : ForwardRule → ℕ
suffix_length r = length r.suffix

pub record ForwardRules : Type 0 where
  pub rules : List ForwardRule
  pub default : Option SocketAddr

unfoldable pub new_rules : Option SocketAddr → List ForwardRule → ForwardRules
new_rules default rules = record { rules = sort suffix_length rules; default = default }

abbrev pub no_rules : ForwardRules
no_rules = record { rules = []; default = none }

unfoldable pub with_default : ForwardRules → SocketAddr → ForwardRules
unfolding new_rules
with_default r default = new_rules (some default) r.rules

unfoldable pub rule_covers : Text → ForwardRule → Bool
unfolding under
rule_covers name rule = under name rule.suffix

unfoldable pub match_name : ForwardRules → Text → Option SocketAddr
match_name r name = elim (find_first (rule_covers name) r.rules) [
  | some rule ↦ some rule.upstream
  | none ↦ r.default
]

unfoldable pub is_some {ℓ} : {A : Type ℓ} → Option A → Bool
is_some none = false
is_some (some x) = true

unfoldable pub is_enabled : ForwardRules → Bool
is_enabled r = is_some r.default || not (is_empty r.rules)
