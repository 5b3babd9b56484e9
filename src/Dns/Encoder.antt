-- ===== src/Dns/Encoder.antt =====
-- src/dns/encoder.rs: a packet as the bytes of its message, with name compression. The map of the
-- suffixes written is an association list, the latest entry first; a byte that a cast to `u8`,
-- `u16` or `u32` leaves is written out with `%`.
pub mod Appends
pub mod Data
pub mod Layout
pub mod Strings
pub mod Names
pub mod Udp
pub mod Spelled
pub mod Remembered
pub mod Compressed
pub mod Header
use mini_dns.Prelude.{
  ℕ, zero, suc, ◌+◌, ◌-◌, ◌*◌, ◌/◌, ◌%◌, ◌^◌, ◌≤◌, ◌<◌, min, Bool, true, false, Option, none, some,
  List, [], ◌∷◌, ◌++◌, leb, if◌then◌else◌, length, take, drop, bit_or,
}
use mini_dns.Text.{Text, dot, text_eq, is_empty, split_dot, join_dot}
use mini_dns.Dns.Record.{
  DnsRecord, record_type, domain, ttl, type_a, type_ns, type_cname, type_soa, type_mx, type_txt,
  type_aaaa, type_ptr, type_srv, type_opt, type_ds, type_rrsig, type_nsec, type_dnskey, type_caa,
}
use mini_dns.Dns.Packet.{DnsHeader, DnsQuestion, DnsPacket, edns_udp_size, clamp_udp, max_udp_size}

pub record DnsPacketEncoder : Type 0 where
  pub buf : List ℕ
  pub name_offsets : List (Text × ℕ)

-- `to_be_bytes` of a `u16`.
abbrev pub u16_bytes : ℕ → List ℕ
u16_bytes n = n / 256 % 256 ∷ n % 256 ∷ []

-- `to_be_bytes` of a `u32`.
abbrev pub u32_bytes : ℕ → List ℕ
u32_bytes n = n / 16777216 % 256 ∷ n / 65536 % 256 ∷ n / 256 % 256 ∷ n % 256 ∷ []

-- `buf.extend_from_slice(bytes)`.
unfoldable pub extend : List ℕ → DnsPacketEncoder → DnsPacketEncoder
extend bytes enc = record enc { buf = enc.buf ++ bytes }

unfoldable pub get : List (Text × ℕ) → Text → Option ℕ
get [] suffix = none
get ((name, offset) ∷ rest) suffix =
    let older = get rest suffix in if text_eq name suffix then some offset else older

-- A label, cut at 63 bytes, behind its length.
unfoldable pub label_bytes : Text → List ℕ
label_bytes label = min (length label) 63 ∷ take 63 label

-- `if self.buf.len() <= 0x3FFF { self.name_offsets.insert(…) }`.
unfoldable pub remember : Text → DnsPacketEncoder → DnsPacketEncoder
remember suffix enc =
    if leb (length enc.buf) 0x3FFF
    then record enc { name_offsets = (suffix, length enc.buf) ∷ enc.name_offsets }
    else enc

-- `0xC000 | offset`.
abbrev pub pointer : ℕ → ℕ
pointer offset = bit_or 0xC000 offset

-- The loop over the labels that are left.
unfoldable pub write_labels : List Text → DnsPacketEncoder → DnsPacketEncoder
write_labels [] enc = extend (0 ∷ []) enc
write_labels (label ∷ labels) enc =
    let suffix = join_dot (label ∷ labels) in
    let rest = write_labels labels (extend (label_bytes label) (remember suffix enc)) in
    elim (get enc.name_offsets suffix) [
      | some offset ↦ extend (u16_bytes (pointer offset)) enc
      | none ↦ rest
    ]

unfoldable pub encode_qname : Text → DnsPacketEncoder → DnsPacketEncoder
encode_qname qname enc =
    if is_empty qname then extend (0 ∷ []) enc else write_labels (split_dot qname) enc

unfoldable pub all_label_bytes : List Text → List ℕ
all_label_bytes [] = 0 ∷ []
all_label_bytes (label ∷ labels) = label_bytes label ++ all_label_bytes labels

unfoldable pub uncompressed : Text → List ℕ
uncompressed name = if is_empty name then 0 ∷ [] else all_label_bytes (split_dot name)

unfoldable pub encode_name_uncompressed : Text → DnsPacketEncoder → DnsPacketEncoder
encode_name_uncompressed name = extend (uncompressed name)

-- `bytes.chunks(255)`, each behind its length. The first argument bounds the number of chunks.
unfoldable pub chunk_bytes : ℕ → List ℕ → List ℕ
chunk_bytes zero bytes = []
chunk_bytes (suc fuel) [] = []
chunk_bytes (suc fuel) (b ∷ bytes) =
    min (length (b ∷ bytes)) 255 ∷ take 255 (b ∷ bytes) ++ chunk_bytes fuel (drop 255 (b ∷ bytes))

unfoldable pub character_strings : Text → List ℕ
character_strings text = if is_empty text then 0 ∷ [] else chunk_bytes (length text) text

unfoldable pub encode_character_strings : Text → DnsPacketEncoder → DnsPacketEncoder
encode_character_strings text = extend (character_strings text)

unfoldable pub encode_record_header : Text → ℕ → ℕ → DnsPacketEncoder → DnsPacketEncoder
encode_record_header domain rtype ttl enc =
    extend (u32_bytes ttl)
      (extend (u16_bytes 1) (extend (u16_bytes rtype) (encode_qname domain enc)))

-- `buf[pos..pos + bytes.len()].copy_from_slice(bytes)`.
unfoldable pub copy_at : ℕ → List ℕ → List ℕ → List ℕ
copy_at pos bytes buf = take pos buf ++ bytes ++ drop (pos + length bytes) buf

unfoldable pub encode_rdata :
    (DnsPacketEncoder → DnsPacketEncoder) → DnsPacketEncoder → DnsPacketEncoder
encode_rdata write_body enc =
    let len_pos = length enc.buf in
    let start = extend (u16_bytes 0) enc in
    let done = write_body start in
    let rdlength = (length done.buf - length start.buf) % 2 ^ 16 in
    record done { buf = copy_at len_pos (u16_bytes rdlength) done.buf }

-- What `encode_record` gives to `encode_rdata`, for the types that use it.
unfoldable pub write_body : DnsRecord → DnsPacketEncoder → DnsPacketEncoder
write_body (DnsRecord.a domain addr ttl) enc = extend addr enc
write_body (DnsRecord.aaaa domain addr ttl) enc = extend addr enc
write_body (DnsRecord.cname domain alias ttl) enc = encode_qname alias enc
write_body (DnsRecord.mx domain preference exchange ttl) enc =
    encode_qname exchange (extend (u16_bytes preference) enc)
write_body (DnsRecord.txt domain text ttl) enc = encode_character_strings text enc
write_body (DnsRecord.ns domain nameserver ttl) enc = encode_qname nameserver enc
write_body (DnsRecord.soa domain mname rname serial refresh retry expire minimum ttl) enc =
    extend
      (u32_bytes serial
        ++ u32_bytes refresh
        ++ u32_bytes retry
        ++ u32_bytes expire
        ++ u32_bytes minimum)
      (encode_qname rname (encode_qname mname enc))
write_body (DnsRecord.srv domain priority weight port target ttl) enc =
    encode_name_uncompressed target
      (extend (u16_bytes priority ++ u16_bytes weight ++ u16_bytes port) enc)
write_body (DnsRecord.ptr domain ptrdname ttl) enc = encode_qname ptrdname enc
write_body (DnsRecord.caa domain flags tag value ttl) enc =
    extend (flags ∷ min (length tag) 255 ∷ take 255 tag ++ value) enc
write_body (DnsRecord.opt udp_size) enc = enc
write_body (DnsRecord.dnskey domain flags protocol algorithm public_key ttl) enc =
    extend (u16_bytes flags ++ (protocol ∷ algorithm ∷ public_key)) enc
write_body
      (DnsRecord.rrsig domain type_covered algorithm labels original_ttl expiration inception
        key_tag signer_name signature ttl)
      enc =
    extend signature (
      encode_name_uncompressed signer_name (
        extend
          (u16_bytes type_covered
            ++ (algorithm ∷ labels ∷ [])
            ++ u32_bytes original_ttl
            ++ u32_bytes expiration
            ++ u32_bytes inception
            ++ u16_bytes key_tag)
          enc))
write_body (DnsRecord.ds domain key_tag algorithm digest_type digest ttl) enc =
    extend (u16_bytes key_tag ++ (algorithm ∷ digest_type ∷ digest)) enc
write_body (DnsRecord.nsec domain next_name type_bitmap ttl) enc =
    extend type_bitmap (encode_name_uncompressed next_name enc)

unfoldable pub encode_record : DnsRecord → DnsPacketEncoder → DnsPacketEncoder
encode_record (DnsRecord.opt udp_size) enc =
    extend (0 ∷ u16_bytes type_opt ++ u16_bytes udp_size ++ u32_bytes 0 ++ u16_bytes 0) enc
encode_record (DnsRecord.a domain addr ttl) enc =
    extend (u16_bytes 4 ++ addr) (encode_record_header domain type_a ttl enc)
encode_record (DnsRecord.aaaa domain addr ttl) enc =
    extend (u16_bytes 16 ++ addr) (encode_record_header domain type_aaaa ttl enc)
encode_record r enc =
    encode_rdata (write_body r) (encode_record_header (domain r) (record_type r) (ttl r) enc)

unfoldable pub encode_records : List DnsRecord → DnsPacketEncoder → DnsPacketEncoder
encode_records [] enc = enc
encode_records (r ∷ rs) enc = encode_records rs (encode_record r enc)

unfoldable pub encode_question : DnsQuestion → DnsPacketEncoder → DnsPacketEncoder
encode_question question enc =
    extend (u16_bytes question.qclass)
      (extend (u16_bytes question.qtype) (encode_qname question.qname enc))

unfoldable pub encode_questions : List DnsQuestion → DnsPacketEncoder → DnsPacketEncoder
encode_questions [] enc = enc
encode_questions (q ∷ qs) enc = encode_questions qs (encode_question q enc)

-- The counts are those of the sections, whatever the header says.
unfoldable pub header_bytes : DnsPacket → List ℕ
header_bytes packet =
    u16_bytes packet.header.id
    ++ u16_bytes packet.header.flags
    ++ u16_bytes (length packet.questions)
    ++ u16_bytes (length packet.answers)
    ++ u16_bytes (length packet.authorities)
    ++ u16_bytes (length packet.additionals)

unfoldable pub encode : DnsPacket → DnsPacketEncoder → DnsPacketEncoder
encode packet enc = encode_records packet.additionals (
    encode_records packet.authorities (
      encode_records packet.answers
        (encode_questions packet.questions (extend (header_bytes packet) enc))))

unfoldable pub to_bytes : DnsPacket → List ℕ
to_bytes packet = (encode packet (record { buf = []; name_offsets = [] })).buf

-- `DnsPacket::udp_limit` of packet.rs.
unfoldable pub udp_limit : DnsPacket → ℕ
udp_limit packet = elim (edns_udp_size packet) [ some size ↦ clamp_udp size | none ↦ max_udp_size ]

-- The message without its answers, with the TC bit set.
unfoldable pub truncate : DnsPacket → DnsPacket
truncate packet = record {
  header = record packet.header {
    flags = bit_or packet.header.flags 0x0200;
    answers = 0;
    authorities = 0;
    additionals = length packet.additionals % 2 ^ 16;
  };
  questions = packet.questions;
  answers = [];
  authorities = [];
  additionals = packet.additionals;
}

unfoldable pub to_udp_bytes : DnsPacket → List ℕ
to_udp_bytes packet =
    if leb (length (to_bytes packet)) (udp_limit packet)
    then to_bytes packet
    else to_bytes (truncate packet)
