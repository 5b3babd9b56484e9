-- ===== src/Dns/Encoder/Layout.antt =====
-- What src/dns/encoder.rs writes: a record's data stands behind its length.
use mini_dns.Prelude.{
  take-length_append, ℕ, suc, ◌<◌, ◌+◌, ◌-◌, ◌%◌, ◌^◌, ◌≡◌, refl, ap, ◌∙◌, List, [], ◌∷◌, ◌++◌,
  arith, length, drop, length-append,
}
use mathlib.Core.List.{append_assoc}
use mini_dns.Text.{Text}
use mini_dns.Dns.Record.{DnsRecord, record_type, domain, ttl, type_a, type_aaaa}
use mini_dns.Dns.Encoder.Appends.{encode_qname-Appends}
use mini_dns.Dns.Encoder.Data.{IsAppended, IsData, write_body-AppendsData}
use mini_dns.Dns.Encoder.{
  DnsPacketEncoder, u16_bytes, u32_bytes, extend, encode_qname, encode_record_header, copy_at,
  encode_rdata, write_body, encode_record,
}

drop-length_append :
    (xs : List ℕ) (a b : ℕ) (ys : List ℕ) → drop (length xs + 2) (xs ++ (a ∷ b ∷ ys)) ≡ ys
drop-length_append [] a b ys = refl
drop-length_append (x ∷ xs) a b ys =
    let shift : length (x ∷ xs) + 2 ≡ suc (length xs + 2) = omega arith in
    rw shift (drop-length_append xs a b ys)

backfill :
    (buf part : List ℕ) (n : ℕ)
    → copy_at (length buf) (u16_bytes n) ((buf ++ u16_bytes 0) ++ part)
      ≡ buf ++ (u16_bytes n ++ part)
unfolding copy_at
backfill buf part n =
    rw
      (
        append_assoc buf (u16_bytes 0) part,
        take-length_append buf (0 ∷ 0 ∷ part),
        drop-length_append buf 0 0 part,
      )
      (append_assoc buf (u16_bytes n) part)

-- Whatever a body appends, `encode_rdata` puts its length before it: the value that is patched in
-- afterwards stands where the placeholder was, and counts just those bytes (modulo 2^16).
pub encode_rdata-layout :
    (body : DnsPacketEncoder → DnsPacketEncoder) (enc : DnsPacketEncoder) (rdata : List ℕ)
    → (body (extend (u16_bytes 0) enc)).buf ≡ (extend (u16_bytes 0) enc).buf ++ rdata
    → (encode_rdata body enc).buf ≡ enc.buf ++ (u16_bytes (length rdata % 2 ^ 16) ++ rdata)
unfolding encode_rdata extend
encode_rdata-layout body enc rdata e =
    let start = extend (u16_bytes 0) enc in
    let count : length (body start).buf - length start.buf ≡ length rdata =
      omega (arith, ap length e, length-append start.buf rdata) in
    rw (count, e) (backfill enc.buf rdata (length rdata % 2 ^ 16))

-- The bytes of a record other than OPT: an owner name, its type, the class IN, its TTL, the length
-- of its data, the data.
abbrev pub record_bytes : List ℕ → DnsRecord → List ℕ → List ℕ
record_bytes owner r rdata =
    owner
    ++ (u16_bytes (record_type r)
        ++ (u16_bytes 1 ++ (u32_bytes (ttl r) ++ (u16_bytes (length rdata % 2 ^ 16) ++ rdata))))

-- The state in which the data of a record is written, the place of its length left free.
abbrev pub data_start : DnsRecord → DnsPacketEncoder → DnsPacketEncoder
data_start r enc =
    extend (u16_bytes 0) (encode_record_header (domain r) (record_type r) (ttl r) enc)

abbrev pub IsFramed : DnsRecord → DnsPacketEncoder → DnsPacketEncoder → Type 0
IsFramed r enc done =
    (owner : List ℕ) × (rdata : List ℕ) × IsAppended enc (domain r) owner
    × IsData r (data_start r enc) rdata
    × (done.buf ≡ enc.buf ++ record_bytes owner r rdata)

assoc_five :
    (a b c d e f : List ℕ) → ((((a ++ b) ++ c) ++ d) ++ e) ++ f ≡ a ++ (b ++ (c ++ (d ++ (e ++ f))))
assoc_five a b c d e f =
    append_assoc (((a ++ b) ++ c) ++ d) e f
    ∙ append_assoc ((a ++ b) ++ c) d (e ++ f)
    ∙ append_assoc (a ++ b) c (d ++ (e ++ f))
    ∙ append_assoc a b (c ++ (d ++ (e ++ f)))

-- What the record header appends.
header_layout :
    (name : Text) (rtype t : ℕ) (enc : DnsPacketEncoder)
    → (owner : List ℕ) × ((encode_qname name enc).buf ≡ enc.buf ++ owner)
      × ((tail : List ℕ)
          → (encode_record_header name rtype t enc).buf ++ tail
            ≡ enc.buf ++ (owner ++ (u16_bytes rtype ++ (u16_bytes 1 ++ (u32_bytes t ++ tail)))))
unfolding encode_record_header extend
header_layout name rtype t enc =
    let (owner, e) = encode_qname-Appends name enc in
    (
      owner,
      e,
      λ tail.
          rw (e, encode_record_header)
            (assoc_five enc.buf owner (u16_bytes rtype) (u16_bytes 1) (u32_bytes t) tail),
    )

-- A record that `encode_rdata` writes.
variable-IsFramed :
    (r : DnsRecord) (enc : DnsPacketEncoder)
    → IsFramed r enc
        (encode_rdata (write_body r) (encode_record_header (domain r) (record_type r) (ttl r) enc))
variable-IsFramed r enc =
    let mid = encode_record_header (domain r) (record_type r) (ttl r) enc in
    let (owner, e, header) = header_layout (domain r) (record_type r) (ttl r) enc in
    let (rdata, written, is_data) = write_body-AppendsData r (extend (u16_bytes 0) mid) in
    let e' = encode_rdata-layout (write_body r) mid rdata written in
    (owner, rdata, e, is_data, e' ∙ header (u16_bytes (length rdata % 2 ^ 16) ++ rdata))

-- An address record, whose length is a constant.
fixed-IsFramed :
    (name : Text) (rtype t n : ℕ) (addr : List ℕ) (enc : DnsPacketEncoder)
    → length addr ≡ n
    → n < 2 ^ 16
    → (owner : List ℕ) × ((encode_qname name enc).buf ≡ enc.buf ++ owner)
      × ((extend (u16_bytes n ++ addr) (encode_record_header name rtype t enc)).buf
          ≡ enc.buf
            ++ (owner
                ++ (u16_bytes rtype
                    ++ (u16_bytes 1
                        ++ (u32_bytes t ++ (u16_bytes (length addr % 2 ^ 16) ++ addr))))))
unfolding extend
fixed-IsFramed name rtype t n addr enc h small =
    let (owner, e, header) = header_layout name rtype t enc in
    let same : length addr % 2 ^ 16 ≡ n = omega arith in
    (owner, e, rw same (header (u16_bytes n ++ addr)))

-- Address records hold as many octets as their type has.
abbrev pub IsRecord : DnsRecord → Type 0
IsRecord (DnsRecord.a d addr t) = length addr ≡ 4
IsRecord (DnsRecord.aaaa d addr t) = length addr ≡ 16
IsRecord (DnsRecord.opt size) = ⊥
IsRecord r = Unit

-- Every record but OPT (an address of its 4 or 16 octets) is written behind what is there, as its owner
-- name, type, class, TTL and data, with the length of the data (modulo 2^16) before it. The data is
-- that of the record: its fields in their order, its names as the encoder writes them there, the text
-- of a TXT record in strings of at most 255 bytes.
pub encode_record-IsFramed :
    (r : DnsRecord) (enc : DnsPacketEncoder) → IsRecord r → IsFramed r enc (encode_record r enc)
unfolding encode_record domain record_type ttl
encode_record-IsFramed (DnsRecord.a d addr t) enc h =
    let (owner, e, e') = fixed-IsFramed d type_a t 4 addr enc h (omega arith) in
    (owner, addr, e, refl, e')
encode_record-IsFramed (DnsRecord.aaaa d addr t) enc h =
    let (owner, e, e') = fixed-IsFramed d type_aaaa t 16 addr enc h (omega arith) in
    (owner, addr, e, refl, e')
encode_record-IsFramed (DnsRecord.opt size) enc h = absurd h
encode_record-IsFramed r enc h = variable-IsFramed r enc
