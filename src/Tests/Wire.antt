-- ===== src/Tests/Wire.antt =====
-- Messages as the parser of src/dns/packet.rs reads them.
use mini_dns.Prelude.{ℕ, ◌≤◌, ◌<◌, ◌≡◌, ◌↔◌, refl, List, [], ◌∷◌, arith, length, some}
use mini_dns.Dns.Error.{ok, err, panic, pointer_loop, Ensures}
use mini_dns.Dns.Record.{DnsRecord, type_a}
use mini_dns.Dns.Buffer.{read_u16, read_u32, byte_at}
use mini_dns.Dns.Parse.Name.{parse_qname, parse_qname-bounds}
use mini_dns.Dns.Parse.Rdata.{parse_rdata, parse_a, parse_nsec, parse_rrsig}
use mini_dns.Dns.Parse.Rdata.Overrun.{NameOverruns, parse_nsec-panic_iff, parse_rrsig-panic_iff}
use mini_dns.Dns.Parse.Packet.{
  from_bytes, parse_header, parse_questions, parse_section, parse_record,
}
use mini_dns.Dns.Parse.Packet.Total.{Outcome, from_bytes-Outcome}

abbrev name_buf : List ℕ
name_buf = 3 ∷ b'w' ∷ b'w' ∷ b'w' ∷ 2 ∷ b'd' ∷ b'k' ∷ 0 ∷ 1 ∷ b'm' ∷ 0xC0 ∷ 4 ∷ []

reads_name : parse_qname name_buf 0 ≡ ok (b'w' ∷ b'w' ∷ b'w' ∷ b'.' ∷ b'd' ∷ b'k' ∷ [], 8)
unfolding parse_qname
reads_name = refl

follows_pointer : parse_qname name_buf 8 ≡ ok (b'm' ∷ b'.' ∷ b'd' ∷ b'k' ∷ [], 12)
unfolding parse_qname
follows_pointer = refl

loops : parse_qname (0xC0 ∷ 0 ∷ []) 0 ≡ err pointer_loop
unfolding parse_qname
loops = refl

parse_qname-bounds_example :
    Ensures (λ p. (8 < p.1) × (p.1 ≤ length name_buf)) (parse_qname name_buf 8)
parse_qname-bounds_example = parse_qname-bounds name_buf 8

-- A message with one answer, an NSEC record whose two bytes of data hold a name of four bytes.
abbrev evil : List ℕ
evil =
    0 ∷ 1 ∷ 0x80 ∷ 0 ∷ 0 ∷ 0 ∷ 0 ∷ 1 ∷ 0 ∷ 0 ∷ 0 ∷ 0 ∷ 0 ∷ 0 ∷ 47 ∷ 0 ∷ 1 ∷ 0 ∷ 0 ∷ 0 ∷ 0 ∷ 0 ∷ 2
    ∷ 2 ∷ b'd' ∷ b'k' ∷ 0 ∷ []

panics : from_bytes evil ≡ panic
unfolding from_bytes parse_header read_u16 byte_at parse_questions parse_section parse_record
    parse_qname read_u32 parse_rdata parse_nsec
panics = refl

from_bytes-Outcome_example : Outcome evil (λ p. 12 ≤ length evil) (from_bytes evil)
from_bytes-Outcome_example = from_bytes-Outcome evil

parse_nsec-panic_iff_example : (parse_nsec evil [] 0 23 2 ≡ panic) ↔ NameOverruns evil 23 25
parse_nsec-panic_iff_example = parse_nsec-panic_iff evil [] 0 23 2 (omega arith)

-- Eighteen fixed bytes, and a signer's name of four bytes in a record of twenty.
abbrev signed : List ℕ
signed =
    0 ∷ 1 ∷ 8 ∷ 2 ∷ 0 ∷ 0 ∷ 0 ∷ 9 ∷ 0 ∷ 0 ∷ 0 ∷ 9 ∷ 0 ∷ 0 ∷ 0 ∷ 5 ∷ 0 ∷ 7 ∷ 2 ∷ b'd' ∷ b'k' ∷ 0 ∷ []

parse_rrsig-panic_iff_example : (parse_rrsig signed [] 0 0 20 ≡ panic) ↔ NameOverruns signed 18 20
parse_rrsig-panic_iff_example = parse_rrsig-panic_iff signed [] 0 0 20 (omega arith) (omega arith)

abbrev octets : List ℕ
octets = 192 ∷ 0 ∷ 2 ∷ 1 ∷ []

reads_address : parse_rdata octets [] 60 0 4 type_a 1 ≡ ok (some (DnsRecord.a [] octets 60))
unfolding parse_rdata parse_a byte_at
reads_address = refl
