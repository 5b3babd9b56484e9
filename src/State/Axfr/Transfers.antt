-- ===== src/State/Axfr/Transfers.antt =====
-- Who gets what from `try_axfr` of src/state.rs.
use mathlib.Core.List.{Perm}
use mini_dns.Prelude.{ℕ, ◌≡◌, ◌⊎◌, true, false, none, some, List, [], ◌∷◌, ◌++◌}
use mini_dns.Text.{Text, to_lowercase}
use mini_dns.Net.{IpAddr}
use mini_dns.DashMap.{DashMap}
use mini_dns.Acl.{is_allowed}
use mini_dns.Cache.{Key, Entry}
use mini_dns.RateLimit.{Window}
use mini_dns.Zones.{Zone, AuthZone, zone_values, find}
use mini_dns.Dnssec.{Ed25519}
use mini_dns.Dns.Error.{ok, panic}
use mini_dns.Dns.Record.{DnsRecord, type_axfr}
use mini_dns.Dns.Packet.{DnsQuestion, DnsPacket}
use mini_dns.Dns.Parse.Packet.{from_bytes}
use mini_dns.Dns.Encoder.{to_bytes}
use mini_dns.Dns.Resolver.{zone_soa, option_list}
use mini_dns.State.{synth_response}
use mini_dns.State.Owners.{not_soa}
use mini_dns.State.Local.{Call}
use mini_dns.State.Axfr.{
  Transfer, not_axfr, reply, panicked, rcode_refused, rcode_name_error, State,
}

module _ (CM : DashMap Key Entry) (LM : DashMap IpAddr Window) (crypto : Ed25519) where
  -- A whole zone: framed by its SOA record, with every other record between, as often as the zone has
  -- it.
  abbrev pub IsWhole : Zone → List DnsRecord → Type 0
  IsWhole zone answers =
      (middle : List DnsRecord) × (answers
        ≡ option_list (zone_soa zone) ++ (middle ++ option_list (zone_soa zone)))
      × Perm middle (not_soa (zone_values zone))

  -- What the client may get, in the order of the checks.
  abbrev pub Sends : State CM LM crypto → Call → DnsPacket → DnsQuestion → DnsPacket → Type 0
  Sends s c request q p =
      (is_allowed s.axfr_acl c.client ≡ some false) × (p ≡ synth_response request [] rcode_refused)
      ⊎ (is_allowed s.axfr_acl c.client ≡ some true)
        × ((find s.zones (to_lowercase q.qname) ≡ none)
              × (p ≡ synth_response request [] rcode_name_error)
            ⊎ (zone : AuthZone) × (find s.zones (to_lowercase q.qname) ≡ some zone)
              × IsWhole zone.records p.answers)

  -- A query for a transfer is its first question alone.
  abbrev pub IsAxfr : DnsPacket → DnsQuestion → Type 0
  IsAxfr request q =
      (rest : List DnsQuestion) × (request.questions ≡ q ∷ rest) × (q.qtype ≡ type_axfr)

  abbrev pub Transfers : State CM LM crypto → Call → List ℕ → Transfer → Type 0
  Transfers s c req (reply bytes) =
      (request : DnsPacket) × (q : DnsQuestion) × (p : DnsPacket) × (from_bytes req ≡ ok request)
      × IsAxfr request q
      × (bytes ≡ to_bytes p)
      × Sends s c request q p
  Transfers s c req not_axfr =
      (request : DnsPacket) (q : DnsQuestion) → from_bytes req ≡ ok request → IsAxfr request q → ⊥
  Transfers s c req panicked =
      (from_bytes req ≡ panic)
      ⊎ ((request : DnsPacket) × (q : DnsQuestion) × (from_bytes req ≡ ok request)
          × IsAxfr request q
          × (is_allowed s.axfr_acl c.client ≡ none))
