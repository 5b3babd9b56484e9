-- ===== src/Dns/Encoder/Header.antt =====
-- How a message of src/dns/encoder.rs begins, and what the parser of src/dns/packet.rs makes of it.
use mini_dns.Prelude.{
  ℕ, ◌+◌, ◌*◌, ◌/◌, ◌%◌, ◌^◌, ◌≡◌, refl, ap, ◌∙◌, List, [], ◌∷◌, ◌++◌, arith, length, ltb, false,
}
use mini_dns.Text.{Text}
use mini_dns.Dns.Error.{ok}
use mini_dns.Dns.Record.{DnsRecord, record_type, domain, ttl, type_a, type_aaaa}
use mini_dns.Dns.Packet.{DnsHeader, DnsQuestion, DnsPacket}
use mini_dns.Dns.Buffer.{byte_at, read_u16}
use mini_dns.Dns.Parse.Packet.{parse_header}
use mini_dns.Dns.Encoder.{
  DnsPacketEncoder, u16_bytes, extend, encode_qname, encode_record_header, encode_rdata, write_body,
  encode_record, encode_records, encode_question, encode_questions, header_bytes, encode, to_bytes,
}
use mini_dns.Dns.Encoder.Appends.{
  Appends, Appends-trans, extend-Appends, extend_after, encode_qname-Appends,
}
use mini_dns.Dns.Encoder.Data.{write_body-AppendsData}
use mini_dns.Dns.Encoder.Layout.{encode_rdata-layout}

encode_record_header-Appends :
    (name : Text) (rtype t : ℕ) (enc : DnsPacketEncoder)
    → Appends enc (encode_record_header name rtype t enc)
unfolding encode_record_header
encode_record_header-Appends name rtype t enc =
    extend_after _ enc _
      (extend_after _ enc _ (extend_after _ enc _ (encode_qname-Appends name enc)))

rdata-Appends :
    (r : DnsRecord) (enc : DnsPacketEncoder)
    → Appends enc
        (encode_rdata (write_body r) (encode_record_header (domain r) (record_type r) (ttl r) enc))
rdata-Appends r enc =
    let mid = encode_record_header (domain r) (record_type r) (ttl r) enc in
    let (rdata, written, is_data) = write_body-AppendsData r (extend (u16_bytes 0) mid) in
    Appends-trans enc mid (encode_rdata (write_body r) mid)
      (encode_record_header-Appends (domain r) (record_type r) (ttl r) enc)
      (
        u16_bytes (length rdata % 2 ^ 16) ++ rdata,
        encode_rdata-layout (write_body r) mid rdata written,
      )

encode_record-Appends : (r : DnsRecord) (enc : DnsPacketEncoder) → Appends enc (encode_record r enc)
unfolding encode_record
encode_record-Appends (DnsRecord.opt size) enc = extend-Appends _ enc
encode_record-Appends (DnsRecord.a d addr t) enc =
    extend_after _ enc _ (encode_record_header-Appends d type_a t enc)
encode_record-Appends (DnsRecord.aaaa d addr t) enc =
    extend_after _ enc _ (encode_record_header-Appends d type_aaaa t enc)
encode_record-Appends r enc = rdata-Appends r enc

records_after :
    (rs : List DnsRecord) (enc mid : DnsPacketEncoder)
    → Appends enc mid
    → Appends enc (encode_records rs mid)
unfolding encode_records
records_after [] enc mid h = h
records_after (r ∷ rs) enc mid h =
    records_after rs enc (encode_record r mid)
      (Appends-trans enc mid (encode_record r mid) h (encode_record-Appends r mid))

questions_after :
    (qs : List DnsQuestion) (enc mid : DnsPacketEncoder)
    → Appends enc mid
    → Appends enc (encode_questions qs mid)
unfolding encode_questions encode_question
questions_after [] enc mid h = h
questions_after (q ∷ qs) enc mid h = questions_after qs enc (encode_question q mid) (
    extend_after _ enc _ (
      extend_after _ enc _
        (Appends-trans enc mid (encode_qname q.qname mid) h (encode_qname-Appends q.qname mid))))

pub to_bytes-header_bytes :
    (packet : DnsPacket) → (rest : List ℕ) × (to_bytes packet ≡ header_bytes packet ++ rest)
unfolding to_bytes encode extend header_bytes
to_bytes-header_bytes packet =
    let head : DnsPacketEncoder = record { buf = header_bytes packet; name_offsets = [] } in
    records_after packet.additionals head _ (
      records_after packet.authorities head _ (
        records_after packet.answers head _
          (questions_after packet.questions head head (extend-Appends [] head))))

-- What the parser should read at the front of a message.
abbrev pub header_of : DnsPacket → DnsHeader
header_of packet = record {
  id = packet.header.id % 2 ^ 16;
  flags = packet.header.flags % 2 ^ 16;
  questions = length packet.questions % 2 ^ 16;
  answers = length packet.answers % 2 ^ 16;
  authorities = length packet.authorities % 2 ^ 16;
  additionals = length packet.additionals % 2 ^ 16;
}

u16-joined : (n : ℕ) → n / 256 % 256 * 256 + n % 256 ≡ n % 2 ^ 16
u16-joined n = omega arith

parse_header-bytes :
    (a b c d e f g h i j k l : ℕ) (rest : List ℕ)
    → parse_header (a ∷ b ∷ c ∷ d ∷ e ∷ f ∷ g ∷ h ∷ i ∷ j ∷ k ∷ l ∷ rest)
      ≡ ok (record {
        id = a * 256 + b;
        flags = c * 256 + d;
        questions = e * 256 + f;
        answers = g * 256 + h;
        authorities = i * 256 + j;
        additionals = k * 256 + l;
      })
unfolding parse_header read_u16 byte_at
parse_header-bytes a b c d e f g h i j k l rest =
    let long : ltb (length (a ∷ b ∷ c ∷ d ∷ e ∷ f ∷ g ∷ h ∷ i ∷ j ∷ k ∷ l ∷ rest)) 12 ≡ false =
      ground arith in
    rw (long, parse_header) refl

-- The parser reads from an encoded message the id and the flags of the packet, and as counts the
-- lengths of its sections modulo 2^16, whatever counts its header claimed.
pub parse_header-to_bytes :
    (packet : DnsPacket) → parse_header (to_bytes packet) ≡ ok (header_of packet)
unfolding header_bytes
parse_header-to_bytes packet =
    let (rest, e) = to_bytes-header_bytes packet in
    ap parse_header e
    ∙ parse_header-bytes _ _ _ _ _ _ _ _ _ _ _ _ rest
    ∙ rw
        (
          u16-joined packet.header.id,
          u16-joined packet.header.flags,
          u16-joined (length packet.questions),
          u16-joined (length packet.answers),
          u16-joined (length packet.authorities),
          u16-joined (length packet.additionals),
        )
        refl
