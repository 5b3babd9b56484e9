-- ===== src/Dns/Resolver/Negative.antt =====
-- The rcode, the AA bit and the SOA of `build_response` in src/dns/resolver.rs.
use mini_dns.Prelude.{
  ℕ, ◌+◌, ◌*◌, ◌/◌, ◌%◌, ◌≡◌, refl, ap, ◌∙◌, ◌⊎◌, inl, inr, Bool, true, false, Option, none, some,
  List, [], ◌∷◌, arith, if◌then◌else◌, Option-cases, bit_or,
}
use native.Mathlib.Decide.{ℕ_discrete}
use mini_dns.Prelude.Flags.{bit_and-flag_rd}
use mini_dns.Text.{to_lowercase, is_empty}
use mini_dns.Zones.{AuthZone, ZoneSet, find, is_some}
use mini_dns.Dns.Record.{DnsRecord}
use mini_dns.Dns.Packet.{DnsQuestion, DnsPacket}
use mini_dns.Dns.Resolver.{
  Chase, chase_question, build_response, zone_soa, negative_soa, option_list, response_flags,
  flag_qr, flag_aa,
}
use mini_dns.Dns.Resolver.Chain.{RecordsFor}
use mini_dns.Dns.Resolver.Turns.{IsUnknown, IsFound, IsNotFound, chase-known, chase-unknown}

-- The SOA of the zone found.
unfoldable pub soa_of : Option AuthZone → Option DnsRecord
soa_of none = none
soa_of (some zone) = zone_soa zone.records

-- Whether the client asked for recursion, as the bit's value in the flags.
abbrev pub rd_bit : ℕ → ℕ
rd_bit flags = flags / 256 % 2 * 256

rd_bit-cases : (flags : ℕ) → (rd_bit flags ≡ 0) ⊎ (rd_bit flags ≡ 256)
rd_bit-cases flags = elim (ℕ_discrete (flags / 256 % 2) 0) [
  | yes e ↦ inl (omega arith)
  | no ne ↦ inr (omega arith)
]

flags_value :
    (flags rcode : ℕ) (authoritative : Bool)
    → (rcode ≡ 0) ⊎ (rcode ≡ 3)
    → response_flags flags rcode authoritative
      ≡ 0x8000 + rd_bit flags + (if authoritative then 0x400 else 0) + rcode
unfolding response_flags
flags_value flags rcode authoritative h =
    rw (bit_and-flag_rd flags) (value (rd_bit flags) rcode authoritative (rd_bit-cases flags) h)
  where
    value :
        (rd rcode : ℕ) (authoritative : Bool)
        → (rd ≡ 0) ⊎ (rd ≡ 256)
        → (rcode ≡ 0) ⊎ (rcode ≡ 3)
        → (if authoritative
            then bit_or (bit_or (bit_or flag_qr rd) rcode) flag_aa
            else bit_or (bit_or flag_qr rd) rcode)
          ≡ 0x8000 + rd + (if authoritative then 0x400 else 0) + rcode
    value rd rcode true (inl e) (inl e') = rw (e, e') refl
    value rd rcode true (inl e) (inr e') = rw (e, e') refl
    value rd rcode true (inr e) (inl e') = rw (e, e') refl
    value rd rcode true (inr e) (inr e') = rw (e, e') refl
    value rd rcode false (inl e) (inl e') = rw (e, e') refl
    value rd rcode false (inl e) (inr e') = rw (e, e') refl
    value rd rcode false (inr e) (inl e') = rw (e, e') refl
    value rd rcode false (inr e) (inr e') = rw (e, e') refl

negative_soa-none : (s : Chase) → s.answers ≡ [] → negative_soa s ≡ soa_of s.matching_zone
unfolding negative_soa is_empty soa_of
negative_soa-none s e = elim (Option-cases s.matching_zone) [
  | inl e' ↦ rw (e, negative_soa, e') refl
  | inr (zone, e') ↦ rw (e, negative_soa, e') refl
]

-- Where the zones hold records for the name of the first question, the response has rcode 0 and
-- AA, the request's RD bit and no other flag but QR.
pub build_response-known :
    (request : DnsPacket) (zones : ZoneSet) (q : DnsQuestion) (qs : List DnsQuestion)
    (records : List DnsRecord)
    → request.questions ≡ q ∷ qs
    → RecordsFor zones (to_lowercase q.qname) records
    → (build_response request zones).header.flags ≡ 0x8400 + rd_bit request.header.flags
unfolding build_response chase_question
build_response-known request zones q qs records e held =
    let s = chase_question request.questions zones in
    let (rcode, authoritative) : IsFound s =
      rw (e, chase_question) (chase-known 15 q.qtype zones (to_lowercase q.qname) records held) in
    flags_value request.header.flags s.rcode
      (if is_some (negative_soa s) then true else s.authoritative) (inl rcode)
    ∙ ground (arith, rcode, authoritative)

-- Where they do not, the response is NXDOMAIN without answers. It carries the SOA record of the
-- zone that is responsible for the name, if there is one, and AA just with that record.
pub build_response-unknown :
    (request : DnsPacket) (zones : ZoneSet) (q : DnsQuestion) (qs : List DnsQuestion)
    → request.questions ≡ q ∷ qs
    → IsUnknown zones (to_lowercase q.qname)
    → ((build_response request zones).answers ≡ [])
      × ((build_response request zones).authorities
          ≡ option_list (soa_of (find zones (to_lowercase q.qname))))
      × ((build_response request zones).header.flags
          ≡ 0x8003
            + rd_bit request.header.flags
            + (if is_some (soa_of (find zones (to_lowercase q.qname))) then 0x400 else 0))
unfolding build_response chase_question
build_response-unknown request zones q qs e unknown =
    let s = chase_question request.questions zones in
    let name = to_lowercase q.qname in
    let (rcode, answers, authoritative, zone) : IsNotFound zones name s =
      rw (e, chase_question) (chase-unknown 15 q.qtype zones name unknown) in
    let soa = negative_soa-none s answers ∙ ap soa_of zone in
    (
      answers,
      ap option_list soa,
      flags_value request.header.flags s.rcode
            (if is_some (negative_soa s) then true else s.authoritative) (inr rcode)
          ∙ rw (rcode, authoritative, soa) (sum (is_some (soa_of (find zones name)))),
    )
  where
    sum :
        (b : Bool)
        → 0x8000
            + rd_bit request.header.flags
            + (if (if b then true else false) then 0x400 else 0)
            + 3
          ≡ 0x8003 + rd_bit request.header.flags + (if b then 0x400 else 0)
    sum true = omega arith
    sum false = omega arith
