-- ===== src/State/Axfr.antt =====
-- `try_axfr` of src/state.rs: the transfer of a whole zone, for the clients of the access list.
pub mod Transfers
use mathlib.Core.List.{Perm}
use mini_dns.Prelude.{
  ℕ, ◌%◌, ◌^◌, ◌≡◌, ◌≢◌, refl, sym, ap, ◌⊎◌, inl, inr, Bool, true, false, Option, none, some, List,
  [], ◌∷◌, ◌++◌, arith, ◌==◌, if◌then◌else◌, length, bit_and, bit_or, ==_iff, Bool-cases,
  Option-cases,
}
use mini_dns.Text.{Text, to_lowercase}
use mini_dns.Net.{IpAddr}
use mini_dns.DashMap.{DashMap}
use mini_dns.Acl.{is_allowed}
use mini_dns.Cache.{Key, Entry}
use mini_dns.RateLimit.{Window}
use mini_dns.Zones.{Zone, AuthZone, zone_values, find}
use mini_dns.Metrics.{Counter}
use mini_dns.Dnssec.{Ed25519}
use mini_dns.Dns.Error.{Result, ok, err, panic, stuck}
use mini_dns.Dns.Record.{DnsRecord, type_axfr}
use mini_dns.Dns.Packet.{DnsHeader, DnsQuestion, DnsPacket}
use mini_dns.Dns.Parse.Packet.{from_bytes}
use mini_dns.Dns.Encoder.{to_bytes}
use mini_dns.Dns.Resolver.{zone_soa, option_list}
use mini_dns.State.{synth_response, flag_rd}
use mini_dns.State.Owners.{sort_owners, other_records, not_soa, sort_owners-perm}
use mini_dns.State.Local.{Call, ServerState, inc}

-- No AXFR query, a reply, or a panic.
pub data Transfer : Type 0 where
  not_axfr : Transfer
  reply : List ℕ → Transfer
  panicked : Transfer

-- The first SOA record, the records of other types by owner, and that SOA record again.
unfoldable pub transfer_records : Zone → List DnsRecord
transfer_records zone =
    option_list (zone_soa zone) ++ (other_records (sort_owners zone) ++ option_list (zone_soa zone))

unfoldable pub transfer_packet : DnsPacket → Zone → DnsPacket
transfer_packet request zone =
    let records = transfer_records zone in
    record {
      header = record {
        id = request.header.id;
        flags = bit_or (bit_or 0x8000 (bit_and request.header.flags flag_rd)) 0x0400;
        questions = 1;
        answers = length records % 2 ^ 16;
        authorities = 0;
        additionals = 0;
      };
      questions = request.questions;
      answers = records;
      authorities = [];
      additionals = [];
    }

abbrev pub rcode_refused : ℕ
rcode_refused = 5

abbrev pub rcode_name_error : ℕ
rcode_name_error = 3

module _ (CM : DashMap Key Entry) (LM : DashMap IpAddr Window) (crypto : Ed25519) where
  abbrev pub State : Type 0
  State = ServerState CM LM crypto

  unfoldable pub transfer_zone : State → Call → DnsPacket → Option AuthZone → Transfer × State
  transfer_zone s c request none =
      (reply (to_bytes (synth_response request [] rcode_name_error)), s)
  transfer_zone s c request (some zone) = (
    reply (to_bytes (transfer_packet request zone.records)),
    inc CM LM crypto Counter.authoritative c s,
  )

  -- After the access check.
  unfoldable pub authorized : State → Call → DnsPacket → Text → Option Bool → Transfer × State
  authorized s c request qname none = (panicked, s)
  authorized s c request qname (some false) = (
    reply (to_bytes (synth_response request [] rcode_refused)),
    inc CM LM crypto Counter.errors c s,
  )
  authorized s c request qname (some true) =
      transfer_zone s c request (find s.zones (to_lowercase qname))

  unfoldable pub transfer_question : State → Call → DnsPacket → List DnsQuestion → Transfer × State
  transfer_question s c request [] = (not_axfr, s)
  transfer_question s c request (q ∷ qs) =
      let s' = inc CM LM crypto Counter.total c s in
      if q.qtype == type_axfr
      then authorized s' c request q.qname (is_allowed s.axfr_acl c.client)
      else (not_axfr, s)

  unfoldable pub transfer_parsed : State → Call → Result DnsPacket → Transfer × State
  transfer_parsed s c (ok request) = transfer_question s c request request.questions
  transfer_parsed s c (err e) = (not_axfr, s)
  transfer_parsed s c panic = (panicked, s)
  transfer_parsed s c stuck = (panicked, s)

  unfoldable pub try_axfr : State → Call → List ℕ → Transfer × State
  try_axfr s c req = transfer_parsed s c (from_bytes req)
