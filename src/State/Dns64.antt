-- ===== src/State/Dns64.antt =====
-- `apply_dns64` and `synthesize_aaaa` of src/state.rs: AAAA answers made of the A records of a name.
use mini_dns.Prelude.{
  ℕ, ◌/◌, ◌%◌, ◌^◌, ◌≡◌, ◌≢◌, refl, inl, inr, Bool, true, false, none, some, List, [], ◌∷◌, ◌++◌,
  arith, ◌==◌, if◌then◌else◌, length, take, bit_and, bit_or, Bool-cases,
}
use mini_dns.Prelude.Flags.{double_mask}
use mini_dns.Prelude.Pointer.{bit_or-halves}
use mini_dns.Text.{Text, to_lowercase, is_empty, is_empty_iff}
use mini_dns.Zones.{AuthZone, ZoneSet, find, zone_get}
use mini_dns.Dns.Record.{DnsRecord, record_type, type_a, type_aaaa}
use mini_dns.Dns.Packet.{DnsPacket}
use mini_dns.Dns.Resolver.{of_type}

-- `any(|r| r.record_type() == rtype)`.
unfoldable pub has_type : ℕ → List DnsRecord → Bool
has_type rtype [] = false
has_type rtype (r ∷ rs) =
    let rest = has_type rtype rs in if record_type r == rtype then true else rest

-- The address in the last 32 bits of the prefix.
unfoldable pub synthesize_aaaa : List ℕ → List ℕ → ℕ → Text → DnsRecord
synthesize_aaaa prefix ipv4 ttl owner = DnsRecord.aaaa owner (take 12 prefix ++ ipv4) ttl

-- The loop over the A records.
unfoldable pub synthesize_all : List ℕ → Text → List DnsRecord → List DnsRecord
synthesize_all prefix name [] = []
synthesize_all prefix name (DnsRecord.a domain addr ttl ∷ rs) =
    synthesize_aaaa prefix addr ttl name ∷ synthesize_all prefix name rs
synthesize_all prefix name (r ∷ rs) = synthesize_all prefix name rs

unfoldable pub with_synthesized : DnsPacket → List DnsRecord → DnsPacket
with_synthesized response synthesized = record {
  header = record response.header {
    flags = bit_or (bit_and response.header.flags 0xFFF0) 0x0400;
    answers = length synthesized % 2 ^ 16;
    authorities = 0;
  };
  questions = response.questions;
  answers = synthesized;
  authorities = [];
  additionals = response.additionals;
}

-- What the A records of the name make of the response.
unfoldable pub dns64_from : DnsPacket → List ℕ → Text → List DnsRecord → DnsPacket
dns64_from response prefix name records =
    let a_records = of_type type_a records in
    if is_empty a_records
    then response
    else with_synthesized response (synthesize_all prefix name a_records)

unfoldable pub apply_dns64 : DnsPacket → ZoneSet → Text → List ℕ → DnsPacket
apply_dns64 response zones qname prefix =
    let name = to_lowercase qname in
    if has_type type_aaaa response.answers then response else elim (find zones name) [
      | none ↦ response
      | some zone ↦ elim (zone_get zone.records name) [
        | none ↦ response
        | some records ↦ dns64_from response prefix name records
      ]
    ]

-- The answers to the records of a name, in order: one for each A record, with its address behind the
-- first twelve bytes of the prefix and its TTL, and none for any other record.
pub data Synthesized (prefix : List ℕ) (name : Text)
    : List DnsRecord → List DnsRecord → Type 0 where
  no_records : Synthesized prefix name [] []
  address :
      {domain : Text} {addr : List ℕ} {ttl : ℕ} {rs answers : List DnsRecord}
      → Synthesized prefix name rs answers
      → Synthesized prefix name
          (DnsRecord.a domain addr ttl ∷ rs)
          (DnsRecord.aaaa name (take 12 prefix ++ addr) ttl ∷ answers)
  skipped :
      {r : DnsRecord} {rs answers : List DnsRecord}
      → record_type r ≢ 1
      → Synthesized prefix name rs answers
      → Synthesized prefix name (r ∷ rs) answers

synthesize_all-Synthesized :
    (prefix : List ℕ) (name : Text) (records : List DnsRecord)
    → Synthesized prefix name records (synthesize_all prefix name (of_type type_a records))
unfolding synthesize_all of_type record_type synthesize_aaaa
synthesize_all-Synthesized prefix name [] = no_records
synthesize_all-Synthesized prefix name (DnsRecord.a d addr t ∷ rs) =
    address (synthesize_all-Synthesized prefix name rs)
synthesize_all-Synthesized prefix name (r ∷ rs) =
    skipped (λ e. ground arith) (synthesize_all-Synthesized prefix name rs)

no_rcode : (flags : ℕ) → bit_or (bit_and flags 0xFFF0) 0x0400 % 16 ≡ 0
no_rcode flags = omega (
  arith,
  double_mask flags 0x7FF8,
  double_mask (flags / 2) 0x3FFC,
  double_mask (flags / 2 / 2) 0x1FFE,
  double_mask (flags / 2 / 2 / 2) 0xFFF,
  bit_or-halves (bit_and flags 0xFFF0) 0x0400,
  bit_or-halves (bit_and flags 0xFFF0 / 2) 0x0200,
  bit_or-halves (bit_and flags 0xFFF0 / 2 / 2) 0x0100,
  bit_or-halves (bit_and flags 0xFFF0 / 2 / 2 / 2) 0x0080,
)

-- What a response should be once its AAAA answers are synthesized from the records of its name.
abbrev pub IsSynthesized : List ℕ → Text → List DnsRecord → DnsPacket → Type 0
IsSynthesized prefix name records response =
    Synthesized prefix name records response.answers
    × (response.authorities ≡ [])
    × (response.header.flags % 16 ≡ 0)

-- A response without AAAA answers for a name that has A records in its zone gets exactly one AAAA
-- answer for each of them, in their order, with the address behind the first twelve bytes of the
-- prefix and the same TTL, and no other answer. It loses its authority records, and its rcode becomes
-- 0.
pub apply_dns64-IsSynthesized :
    (response : DnsPacket) (zones : ZoneSet) (qname : Text) (prefix : List ℕ) (zone : AuthZone)
    (records : List DnsRecord)
    → has_type type_aaaa response.answers ≡ false
    → find zones (to_lowercase qname) ≡ some zone
    → zone_get zone.records (to_lowercase qname) ≡ some records
    → of_type type_a records ≢ []
    → IsSynthesized prefix (to_lowercase qname) records (apply_dns64 response zones qname prefix)
unfolding apply_dns64 dns64_from with_synthesized
apply_dns64-IsSynthesized response zones qname prefix zone records none_yet e held some_a =
    let name = to_lowercase qname in
    elim (Bool-cases (is_empty (of_type type_a records))) [
      | inl no_a ↦ absurd (some_a ((is_empty_iff (of_type type_a records)).0 no_a))
      | inr yes_a ↦
          rw (none_yet, apply_dns64, e, held, dns64_from, yes_a)
            (synthesize_all-Synthesized prefix name records, refl, no_rcode response.header.flags)
    ]
