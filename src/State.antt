-- ===== src/State.antt =====
-- src/state.rs: how a stored or forwarded reply is framed for the client at hand, and how long it
-- may be kept.
pub mod Replay
pub mod Ttl
pub mod Dns64
pub mod Signing
pub mod Local
pub mod Owners
pub mod Axfr
pub mod Flight
pub mod Upstream
pub mod Service
use mini_dns.Prelude.{
  ℕ, ◌≡◌, ◌%◌, ◌^◌, min, Bool, true, false, ◌||◌, Option, none, some, List, [], ◌∷◌, ◌++◌, ◌==◌,
  if◌then◌else◌, length, bit_and, bit_or,
}
use mini_dns.Text.{is_empty}
use mini_dns.Dns.Error.{Result, ok, err, panic, stuck}
use mini_dns.Dns.Record.{DnsRecord, ttl}
use mini_dns.Dns.Packet.{DnsHeader, DnsPacket, edns_udp_size, clamp_udp}
use mini_dns.Dns.Parse.Packet.{from_bytes}
use mini_dns.Dns.Encoder.{u16_bytes, to_bytes, to_udp_bytes}

pub data Transport : Type 0 where
  udp tcp : Transport

abbrev pub rcode_nxdomain : ℕ
rcode_nxdomain = 3

abbrev pub flag_rd : ℕ
flag_rd = 0x0100

abbrev pub flag_ra : ℕ
flag_ra = 0x0080

-- A response of this server's own, with the request's RD bit.
unfoldable pub synth_response : DnsPacket → List DnsRecord → ℕ → DnsPacket
synth_response request answers rcode = record {
  header = record {
    id = request.header.id;
    flags = bit_or (bit_or (bit_or 0x8000 (bit_and request.header.flags flag_rd)) flag_ra) rcode;
    questions = length request.questions % 2 ^ 16;
    answers = length answers % 2 ^ 16;
    authorities = 0;
    additionals = 0;
  };
  questions = request.questions;
  answers = answers;
  authorities = [];
  additionals = [];
}

unfoldable pub encode : DnsPacket → Transport → List ℕ
encode packet udp = to_udp_bytes packet
encode packet tcp = to_bytes packet

-- `bytes[0..2].copy_from_slice(&id.to_be_bytes())`, where there are two bytes.
unfoldable pub patch_transaction_id : List ℕ → ℕ → List ℕ
patch_transaction_id [] id = []
patch_transaction_id (b ∷ []) id = b ∷ []
patch_transaction_id (b ∷ c ∷ rest) id = u16_bytes id ++ rest

-- The first OPT record, replaced; `none` where there is none.
unfoldable pub replace_opt : ℕ → List DnsRecord → Option (List DnsRecord)
replace_opt size [] = none
replace_opt size (DnsRecord.opt old ∷ rs) = some (DnsRecord.opt size ∷ rs)
replace_opt size (r ∷ rs) = elim (replace_opt size rs) [ none ↦ none | some rs' ↦ some (r ∷ rs') ]

-- `retain(|r| !matches!(r, DnsRecord::OPT { .. }))`.
unfoldable pub without_opt : List DnsRecord → List DnsRecord
without_opt [] = []
without_opt (DnsRecord.opt size ∷ rs) = without_opt rs
without_opt (r ∷ rs) = r ∷ without_opt rs

unfoldable pub put_opt : ℕ → List DnsRecord → List DnsRecord
put_opt size rs = elim (replace_opt size rs) [
  | none ↦ rs ++ (DnsRecord.opt size ∷ [])
  | some rs' ↦ rs'
]

unfoldable pub align_edns : DnsPacket → DnsPacket → DnsPacket
align_edns packet request = elim (edns_udp_size request) [
  | some client_size ↦ record packet {
    additionals = put_opt (clamp_udp client_size) packet.additionals;
  }
  | none ↦ record packet { additionals = without_opt packet.additionals }
]

abbrev pub with_id : DnsPacket → ℕ → DnsPacket
with_id packet id = record packet { header = record packet.header { id = id } }

-- A panic of the parser is one of the call.
unfoldable pub replay : List ℕ → DnsPacket → Transport → Result (List ℕ)
replay raw request tcp = ok (patch_transaction_id raw request.header.id)
replay raw request udp = elim (from_bytes raw) [
  | ok packet ↦ ok (to_udp_bytes (align_edns (with_id packet request.header.id) request))
  | err e ↦ ok (patch_transaction_id raw request.header.id)
  | panic ↦ panic
  | stuck ↦ stuck
]

abbrev pub neg_ttl_default : ℕ
neg_ttl_default = 30

abbrev pub neg_ttl_max : ℕ
neg_ttl_max = 3600

-- `iter().map(|r| r.ttl()).min().unwrap_or(0)`.
unfoldable pub min_ttl : List DnsRecord → ℕ
min_ttl [] = 0
min_ttl (r ∷ []) = ttl r
min_ttl (r ∷ s ∷ rs) = min (ttl r) (min_ttl (s ∷ rs))

-- The minimum of the first SOA record.
unfoldable pub soa_minimum : List DnsRecord → Option ℕ
soa_minimum [] = none
soa_minimum (DnsRecord.soa domain mname rname serial refresh retry expire minimum t ∷ rs) =
    some minimum
soa_minimum (r ∷ rs) = soa_minimum rs

unfoldable pub negative_ttl : List DnsRecord → ℕ
negative_ttl authorities = elim (soa_minimum authorities) [
  | some m ↦ min m neg_ttl_max
  | none ↦ neg_ttl_default
]

unfoldable pub cache_ttl : DnsPacket → Option ℕ
cache_ttl packet =
    let rcode = bit_and packet.header.flags 0x000F in
    if is_empty packet.answers
    then (if (rcode == rcode_nxdomain) || (rcode == 0)
        then some (negative_ttl packet.authorities)
        else none)
    else some (min_ttl packet.answers)
