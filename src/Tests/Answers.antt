-- ===== src/Tests/Answers.antt =====
-- Zones, rules and queries for src/config.rs, src/dns/resolver.rs and src/blocklist.rs.
use mini_dns.Prelude.{
  ℕ, ◌+◌, ◌≡◌, ◌≢◌, ◌⊎◌, inr, ◌↔◌, refl, true, Option, none, some, false, List, [], ◌∷◌,
  if◌then◌else◌,
}
use mini_dns.Text.{Text, to_lowercase, contains, is_empty, text_eq, ends_with}
use mini_dns.Net.{IpAddr}
use mini_dns.Text.Lines.{lines, trim}
use mini_dns.Text.Parents.{find_parent}
use mini_dns.LongestFirst.{All, In, find_first}
use mini_dns.Zones.{
  Zone, AuthZone, ZoneSet, ForwardRule, zone_get, zone_covers, new_zones, new_rules, find,
  match_name, is_some,
}
use mini_dns.Zones.Find.{IsBestZone, find-IsBestZone, IsBestRule, match_name-IsBestRule}
use mini_dns.Dns.Record.{DnsRecord, record_type}
use mini_dns.Dns.Packet.{DnsQuestion, DnsPacket}
use mini_dns.Dns.Resolver.{of_type, lookup, build_response, option_list, max_cname_chain}
use mini_dns.Dns.Resolver.Chain.{RecordsFor, IsChain, build_response-IsChain}
use mini_dns.Dns.Resolver.Turns.{IsUnknown}
use mini_dns.Dns.Resolver.Negative.{rd_bit, soa_of, build_response-known, build_response-unknown}
use mini_dns.State.Dns64.{has_type, apply_dns64, IsSynthesized, apply_dns64-IsSynthesized}
use mini_dns.Blocklist.{Blocklist, is_blocked, from_file}
use mini_dns.Blocklist.Blocked.{HasWildcard, is_blocked_iff}
use mini_dns.Blocklist.Load.{IsListed, IsEntry, from_file-blocks}

abbrev dk : Text
dk = b'd' ∷ b'k' ∷ []

abbrev w_dk : Text
w_dk = b'w' ∷ b'.' ∷ dk

abbrev x_dk : Text
x_dk = b'x' ∷ b'.' ∷ dk

abbrev addr : List ℕ
addr = 192 ∷ 0 ∷ 2 ∷ 1 ∷ []

abbrev dk_soa : DnsRecord
dk_soa = DnsRecord.soa dk dk dk 1 2 3 4 5 60

-- The name `w.dk` is an alias of `dk`.
abbrev records : Zone
records = (dk, dk_soa ∷ DnsRecord.a dk addr 60 ∷ []) ∷ (w_dk, DnsRecord.cname w_dk dk 30 ∷ []) ∷ []

abbrev dk_zone : AuthZone
dk_zone = record { origin = dk; records = records }

abbrev zones : ZoneSet
zones = record { zones = dk_zone ∷ [] }

abbrev question : Text → DnsQuestion
question name = record { qname = name; qtype = 1; qclass = 1 }

abbrev query : Text → DnsPacket
query name = record {
  header = record {
    id = 7;
    flags = 0x0100;
    questions = 1;
    answers = 0;
    authorities = 0;
    additionals = 0;
  };
  questions = question name ∷ [];
  answers = [];
  authorities = [];
  additionals = [];
}

find-IsBestZone_example : IsBestZone w_dk (dk_zone ∷ []) (find (new_zones (dk_zone ∷ [])) w_dk)
find-IsBestZone_example = find-IsBestZone (dk_zone ∷ []) w_dk

abbrev rules : List ForwardRule
rules = record { suffix = dk; upstream = record { ip = IpAddr.v4 addr; port = 53 } } ∷ []

match_name-IsBestRule_example : IsBestRule w_dk rules none (match_name (new_rules none rules) w_dk)
match_name-IsBestRule_example = match_name-IsBestRule none rules w_dk

build_response-IsChain_example :
    IsChain zones 1 [] max_cname_chain
      (to_lowercase w_dk)
      (build_response (query w_dk) zones).answers
build_response-IsChain_example = build_response-IsChain (query w_dk) zones (question w_dk) [] refl

w_dk_held : RecordsFor zones (to_lowercase w_dk) (DnsRecord.cname w_dk dk 30 ∷ [])
unfolding find find_first zone_covers is_empty text_eq to_lowercase ends_with lookup zone_get
w_dk_held = (dk_zone, refl, refl)

build_response-known_example :
    (build_response (query w_dk) zones).header.flags ≡ 0x8400 + rd_bit 0x0100
build_response-known_example =
    build_response-known (query w_dk) zones (question w_dk) [] (DnsRecord.cname w_dk dk 30 ∷ [])
      refl w_dk_held

x_dk-IsUnknown : IsUnknown zones (to_lowercase x_dk)
unfolding find find_first zone_covers is_empty text_eq to_lowercase ends_with lookup zone_get
    find_parent
x_dk-IsUnknown = inr (dk_zone, refl, refl)

build_response-unknown_example :
    ((build_response (query x_dk) zones).answers ≡ [])
    × ((build_response (query x_dk) zones).authorities
        ≡ option_list (soa_of (find zones (to_lowercase x_dk))))
    × ((build_response (query x_dk) zones).header.flags
        ≡ 0x8003
          + rd_bit 0x0100
          + (if is_some (soa_of (find zones (to_lowercase x_dk))) then 0x400 else 0))
build_response-unknown_example =
    build_response-unknown (query x_dk) zones (question x_dk) [] refl x_dk-IsUnknown

abbrev list : Blocklist
list = record { entries = (b'*' ∷ b'.' ∷ dk) ∷ []; path = none }

is_blocked_iff_example : (is_blocked list w_dk ≡ true) ↔ (
    (contains list.entries (to_lowercase w_dk) ≡ true)
    ⊎ HasWildcard list.entries (to_lowercase w_dk))
is_blocked_iff_example = is_blocked_iff list w_dk

-- A file of two lines, whatever its path.
abbrev content : Text
content = 35 ∷ 10 ∷ w_dk

abbrev read : Text → Option Text
read path = some content

from_file-blocks_example :
    (loaded : Blocklist) × (from_file read dk ≡ some loaded)
    × All (IsListed content) loaded.entries
    × ((line : Text)
        → In line (lines content)
        → IsEntry (trim line)
        → is_blocked loaded (trim line) ≡ true)
from_file-blocks_example = from_file-blocks read dk content refl

abbrev nat64 : List ℕ
nat64 = 0 ∷ 100 ∷ 255 ∷ 155 ∷ 0 ∷ 0 ∷ 0 ∷ 0 ∷ 0 ∷ 0 ∷ 0 ∷ 0 ∷ 0 ∷ 0 ∷ 0 ∷ 0 ∷ []

dk_zone_found : find zones (to_lowercase dk) ≡ some dk_zone
unfolding find find_first zone_covers is_empty text_eq to_lowercase ends_with
dk_zone_found = refl

dk_records_found :
    zone_get dk_zone.records (to_lowercase dk) ≡ some (dk_soa ∷ DnsRecord.a dk addr 60 ∷ [])
unfolding zone_get text_eq to_lowercase
dk_records_found = refl

dk_has_a : of_type 1 (dk_soa ∷ DnsRecord.a dk addr 60 ∷ []) ≢ []
unfolding of_type record_type
dk_has_a e = cc

no_aaaa : has_type 28 (query dk).answers ≡ false
unfolding has_type
no_aaaa = refl

apply_dns64-IsSynthesized_example :
    IsSynthesized nat64
      (to_lowercase dk)
      (dk_soa ∷ DnsRecord.a dk addr 60 ∷ [])
      (apply_dns64 (query dk) zones dk nat64)
apply_dns64-IsSynthesized_example =
    apply_dns64-IsSynthesized (query dk) zones dk nat64 dk_zone
      (dk_soa ∷ DnsRecord.a dk addr 60 ∷ []) no_aaaa dk_zone_found dk_records_found dk_has_a
