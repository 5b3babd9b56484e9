-- ===== src/State/Signing.antt =====
-- `apply_dnssec` of src/state.rs: DNSKEY answers at a zone apex, and signatures over the answers. The
-- hash map that groups the answers is a list in the order of its iteration, here that of the first
-- record of each group. A call reads the clock once.
use mini_dns.Prelude.{
  ℕ, ◌+◌, ◌%◌, ◌^◌, ◌≡◌, refl, sym, inl, inr, Bool, false, ◌&&◌, none, some, List, [], ◌∷◌, ◌++◌,
  ◌==◌, if◌then◌else◌, length, bit_and, bit_or, Bool-cases,
}
use mathlib.Core.List.{append-nil}
use mini_dns.Text.{Text, text_eq, is_empty, to_lowercase}
use mini_dns.Zones.{ZoneSet, find}
use mini_dns.Dns.Record.{DnsRecord, record_type, domain, type_dnskey}
use mini_dns.Dns.Packet.{DnsPacket}
use mini_dns.Dns.Resolver.{option_list}
use mini_dns.Dnssec.{DnssecKeys, Ed25519, dnskey_records, sign_rrset}
use mini_dns.State.{min_ttl}

-- An owner and a type, with the first answer that has them and the later ones.
pub record RrSet : Type 0 where
  pub owner : Text
  pub rtype : ℕ
  pub first : DnsRecord
  pub others : List DnsRecord

-- `rrsets.entry(key).or_default().push(r)`.
unfoldable pub push_record : DnsRecord → List RrSet → List RrSet
push_record r [] = record { owner = domain r; rtype = record_type r; first = r; others = [] } ∷ []
push_record r (s ∷ sets) =
    let rest = push_record r sets in
    if text_eq s.owner (domain r) && s.rtype == record_type r
    then record s { others = s.others ++ (r ∷ []) } ∷ sets
    else s ∷ rest

unfoldable pub group : List RrSet → List DnsRecord → List RrSet
group sets [] = sets
group sets (r ∷ rs) = group (push_record r sets) rs

-- Thirty days, in seconds.
abbrev pub validity : ℕ
validity = 2_592_000

-- The owner of an RRSIG is that of its set.
unfoldable pub fix_owner : Text → DnsRecord → DnsRecord
fix_owner owner (DnsRecord.rrsig d c g l o e i k n s t) = DnsRecord.rrsig owner c g l o e i k n s t
fix_owner owner r = r

module _ (crypto : Ed25519) (keys : DnssecKeys) where
  unfoldable pub sign_sets : Text → (now : ℕ) → List RrSet → List DnsRecord
  sign_sets signer_name now [] = []
  sign_sets signer_name now (s ∷ sets) =
      let rest = sign_sets signer_name now sets in
      let ttl = min_ttl (s.first ∷ s.others) in
      elim (sign_rrset crypto keys s.first s.others signer_name ttl now
        ((now + validity) % 2 ^ 32)) [ none ↦ rest | some signed ↦ fix_owner s.owner signed ∷ rest ]

  -- The DNSKEY answer, with the signature over it.
  unfoldable pub dnskey_answer :
      DnsPacket → Text → (now : ℕ) → DnsRecord → List DnsRecord → DnsPacket
  dnskey_answer response name now first others =
      let signed =
        option_list
          (sign_rrset crypto keys first others name 3600 now ((now + validity) % 2 ^ 32)) in
      let answers = (first ∷ others) ++ signed in
      record {
        header = record response.header {
          flags = bit_and (bit_or response.header.flags 0x0400) 0xFFF0;
          answers = length answers % 2 ^ 16;
          authorities = 0;
        };
        questions = response.questions;
        answers = answers;
        authorities = [];
        additionals = response.additionals;
      }

  unfoldable pub with_signatures : DnsPacket → List DnsRecord → DnsPacket
  with_signatures response [] = response
  with_signatures response (r ∷ rs) =
      let answers = response.answers ++ (r ∷ rs) in
      record response {
        header = record response.header { answers = length answers % 2 ^ 16 };
        answers = answers;
      }

  -- The origin of the zone of the name, empty where there is none.
  unfoldable pub signer : ZoneSet → Text → Text
  signer zones name = elim (find zones name) [ none ↦ [] | some zone ↦ zone.origin ]

  unfoldable pub sign_answers : DnsPacket → ZoneSet → Text → (now : ℕ) → DnsPacket
  sign_answers response zones name now =
      let signer_name = signer zones name in
      if is_empty response.answers
      then response
      else if is_empty signer_name
      then response
      else with_signatures response (sign_sets signer_name now (group [] response.answers))

  -- At an apex with keys the DNSKEY answer, and otherwise the signatures.
  unfoldable pub at_apex : DnsPacket → ZoneSet → Text → (now : ℕ) → List DnsRecord → DnsPacket
  at_apex response zones name now [] = sign_answers response zones name now
  at_apex response zones name now (first ∷ others) = dnskey_answer response name now first others

  -- `zones.find(&name)` with `zone.origin == name`.
  unfoldable pub is_apex : ZoneSet → Text → Bool
  is_apex zones name = elim (find zones name) [
    | none ↦ false
    | some zone ↦ text_eq zone.origin name
  ]

  unfoldable pub apply_dnssec : DnsPacket → ZoneSet → Text → ℕ → (now : ℕ) → DnsPacket
  apply_dnssec response zones qname qtype now =
      let name = to_lowercase qname in
      if qtype == type_dnskey && is_apex zones name
      then at_apex response zones name now (dnskey_records keys 3600)
      else sign_answers response zones name now

  -- What signing leaves of a response: all but signatures behind the answers, and their count.
  abbrev pub IsSigned : DnsPacket → DnsPacket → Type 0
  IsSigned p q =
      (sigs : List DnsRecord) × (q.answers ≡ p.answers ++ sigs)
      × (q.questions ≡ p.questions)
      × (q.authorities ≡ p.authorities)
      × (q.additionals ≡ p.additionals)
      × (q.header.id ≡ p.header.id)
      × (q.header.flags ≡ p.header.flags)

  unsigned : (p : DnsPacket) → IsSigned p p
  unsigned p = ([], sym (append-nil p.answers), refl, refl, refl, refl, refl)

  with_signatures-IsSigned :
      (p : DnsPacket) (sigs : List DnsRecord) → IsSigned p (with_signatures p sigs)
  unfolding with_signatures
  with_signatures-IsSigned p [] = unsigned p
  with_signatures-IsSigned p (r ∷ rs) = (r ∷ rs, refl, refl, refl, refl, refl, refl)

  sign_answers-IsSigned :
      (p : DnsPacket) (zones : ZoneSet) (name : Text) (now : ℕ)
      → IsSigned p (sign_answers p zones name now)
  unfolding sign_answers
  sign_answers-IsSigned p zones name now = elim (Bool-cases (is_empty p.answers)) [
    | inl empty ↦ rw empty (unsigned p)
    | inr full ↦ elim (Bool-cases (is_empty (signer zones name))) [
      | inl nobody ↦ rw (full, nobody) (unsigned p)
      | inr some_zone ↦ rw (full, some_zone) (with_signatures-IsSigned p _)
    ]
  ]

  -- A query for another type than DNSKEY is answered as without signing, with signatures behind the
  -- answers at most.
  pub apply_dnssec-IsSigned :
      (p : DnsPacket) (zones : ZoneSet) (qname : Text) (qtype now : ℕ)
      → (qtype == type_dnskey) ≡ false
      → IsSigned p (apply_dnssec p zones qname qtype now)
  unfolding apply_dnssec
  apply_dnssec-IsSigned p zones qname qtype now other =
      rw other (sign_answers-IsSigned p zones (to_lowercase qname) now)
