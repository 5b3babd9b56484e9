-- ===== src/Dns/Resolver.antt =====
-- src/dns/resolver.rs: the answer to a query from the zones.
pub mod Lookup
pub mod Selects
pub mod Chain
pub mod Turns
pub mod Negative
use mini_dns.Prelude.{
  ℕ, zero, suc, ◌%◌, ◌^◌, Bool, true, false, not, Option, none, some, List, [], ◌∷◌, ◌++◌, map,
  ◌==◌, if◌then◌else◌, length, bit_and, bit_or,
}
use mini_dns.Text.{Text, dot, is_empty, to_lowercase, contains}
use mini_dns.Text.Parents.{find_parent}
use mini_dns.Zones.{Zone, zone_get, zone_values, AuthZone, ZoneSet, find, is_some}
use mini_dns.Dns.Record.{DnsRecord, record_type, with_domain, type_cname}
use mini_dns.Dns.Packet.{DnsHeader, DnsQuestion, DnsPacket, edns_udp_size, clamp_udp}

abbrev pub max_cname_chain : ℕ
max_cname_chain = 16

-- `records.get(&format!("*.{remainder}"))`.
abbrev pub wildcard : Zone → Text → Option (List DnsRecord)
wildcard records remainder = zone_get records (b'*' ∷ dot ∷ remainder)

unfoldable pub lookup : Zone → Text → Option (List DnsRecord)
lookup records name = elim (zone_get records name) [
  | some found ↦ some found
  | none ↦ find_parent (wildcard records) name
]

unfoldable pub first_soa : List DnsRecord → Option DnsRecord
first_soa [] = none
first_soa (DnsRecord.soa d m n s r y e i t ∷ rs) = some (DnsRecord.soa d m n s r y e i t)
first_soa (r ∷ rs) = first_soa rs

unfoldable pub zone_soa : Zone → Option DnsRecord
unfolding first_soa
zone_soa records = first_soa (zone_values records)

-- `records.iter().filter(|r| r.record_type() == qtype)`.
unfoldable pub of_type : ℕ → List DnsRecord → List DnsRecord
of_type qtype [] = []
of_type qtype (r ∷ rs) =
    let rest = of_type qtype rs in if record_type r == qtype then r ∷ rest else rest

unfoldable pub first_cname : List DnsRecord → Option DnsRecord
first_cname [] = none
first_cname (r ∷ rs) =
    let rest = first_cname rs in if record_type r == type_cname then some r else rest

-- `if let DnsRecord::CNAME { alias, .. } = cname`.
unfoldable pub alias_of : DnsRecord → Option Text
alias_of (DnsRecord.cname _ alias _) = some alias
alias_of r = none

-- The variables of the loop.
pub record Chase : Type 0 where
  pub answers : List DnsRecord
  pub authoritative : Bool
  pub rcode : ℕ
  pub name : Text
  pub matching_zone : Option AuthZone
  pub seen : List Text

-- `break` or `continue`.
pub data Next : Type 0 where
  stop : Chase → Next
  follow : Chase → Next

-- The name is unknown: NXDOMAIN, unless an alias led to it.
unfoldable pub unknown_name : Chase → Chase
unknown_name s = if is_empty s.answers then record s { rcode = 3 } else s

-- `if matching_zone.is_none() { matching_zone = Some(zone) }`.
unfoldable pub or_zone : Option AuthZone → AuthZone → Option AuthZone
or_zone none zone = some zone
or_zone (some z) zone = some z

unfoldable pub push_cname : Chase → DnsRecord → Next
push_cname s found =
    let answers = s.answers ++ (with_domain s.name found ∷ []) in
    elim (alias_of found) [
      | some alias ↦ follow (record s { answers = answers; name = to_lowercase alias })
      | none ↦ stop (record s { answers = answers })
    ]

unfoldable pub answer_from : ℕ → Chase → List DnsRecord → Next
answer_from qtype s records =
    let direct = of_type qtype records in
    if not (is_empty direct)
    then stop (record s { answers = s.answers ++ map (with_domain s.name) direct })
    else elim (first_cname records) [ some found ↦ push_cname s found | none ↦ stop s ]

unfoldable pub answer_in : ℕ → Chase → AuthZone → Next
answer_in qtype s zone =
    let s' = record s { matching_zone = or_zone s.matching_zone zone } in
    elim (lookup zone.records s.name) [
      | none ↦ stop (unknown_name s')
      | some records ↦ answer_from qtype (record s' { authoritative = true }) records
    ]

unfoldable pub chase_turn : ℕ → ZoneSet → Chase → Next
chase_turn qtype zones s =
    let s' = record s { seen = s.name ∷ s.seen } in
    if contains s.seen s.name then stop s else elim (find zones s.name) [
      | none ↦ stop (unknown_name s')
      | some zone ↦ answer_in qtype s' zone
    ]

unfoldable pub chase : ℕ → ℕ → ZoneSet → Chase → Chase
chase zero qtype zones s = s
chase (suc rounds) qtype zones s = elim (chase_turn qtype zones s) [
  | stop s' ↦ s'
  | follow s' ↦ chase rounds qtype zones s'
]

unfoldable pub start_chase : ZoneSet → Text → Chase
start_chase zones name = record {
  answers = [];
  authoritative = false;
  rcode = 0;
  name = name;
  matching_zone = find zones name;
  seen = [];
}

abbrev pub no_question : Chase
no_question = record {
  answers = [];
  authoritative = false;
  rcode = 0;
  name = [];
  matching_zone = none;
  seen = [];
}

unfoldable pub chase_question : List DnsQuestion → ZoneSet → Chase
chase_question [] zones = no_question
chase_question (q ∷ qs) zones =
    chase max_cname_chain q.qtype zones (start_chase zones (to_lowercase q.qname))

-- The SOA of a negative answer.
unfoldable pub negative_soa : Chase → Option DnsRecord
negative_soa s =
    if is_empty s.answers
    then (elim s.matching_zone [ none ↦ none | some zone ↦ zone_soa zone.records ])
    else none

unfoldable pub option_list {ℓ} : {A : Type ℓ} → Option A → List A
option_list none = []
option_list (some x) = x ∷ []

abbrev pub u16 : ℕ → ℕ
u16 n = n % 2 ^ 16

abbrev pub flag_qr : ℕ
flag_qr = 0x8000

abbrev pub flag_aa : ℕ
flag_aa = 0x0400

abbrev pub flag_rd : ℕ
flag_rd = 0x0100

unfoldable pub response_flags : ℕ → ℕ → Bool → ℕ
response_flags request_flags rcode authoritative =
    let flags = bit_or (bit_or flag_qr (bit_and request_flags flag_rd)) rcode in
    if authoritative then bit_or flags flag_aa else flags

-- An OPT record with the negotiated size, where the client sent one.
unfoldable pub echo_opt : Option ℕ → List DnsRecord
echo_opt none = []
echo_opt (some client_size) = DnsRecord.opt (clamp_udp client_size) ∷ []

unfoldable pub build_response : DnsPacket → ZoneSet → DnsPacket
build_response request zones =
    let s = chase_question request.questions zones in
    let soa = negative_soa s in
    let additionals = echo_opt (edns_udp_size request) in
    let header = request.header in
    record {
      header = record {
        id = header.id;
        flags = response_flags header.flags s.rcode (if is_some soa then true else s.authoritative);
        questions = u16 (length request.questions);
        answers = u16 (length s.answers);
        authorities = u16 (length (option_list soa));
        additionals = u16 (length additionals);
      };
      questions = request.questions;
      answers = s.answers;
      authorities = option_list soa;
      additionals = additionals;
    }
