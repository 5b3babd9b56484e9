-- ===== src/Dns/Encoder/Data.antt =====
-- The data of each type of record that `encode_record` of src/dns/encoder.rs gives to `encode_rdata`.
use mini_dns.Prelude.{
  ℕ, suc, ◌≡◌, refl, sym, ap, ◌∙◌, List, [], ◌∷◌, ◌++◌, arith, length, take, drop, length-take,
  length-drop, take-append-drop, ◌≢◌, ◌≤◌, zero, min,
}
use mathlib.Core.List.{append-nil, append_assoc}
use mini_dns.Text.{Text, is_empty}
use mini_dns.Dns.Record.{DnsRecord}
use mini_dns.Dns.Encoder.Strings.{chunk}
use mini_dns.Dns.Encoder.Appends.{encode_qname-Appends}
use mathlib.Core.Path.{subst}
use mini_dns.Dns.Encoder.{
  chunk_bytes, DnsPacketEncoder, u16_bytes, u32_bytes, extend, encode_qname,
  encode_name_uncompressed, uncompressed, encode_character_strings, character_strings, write_body,
}

-- The text as strings of at most 255 bytes, each behind its length, all but the last one full.
pub data Chunked : Text → List ℕ → Type 0 where
  nothing : Chunked [] []
  string :
      {part rest bytes : List ℕ}
      → part ≢ []
      → length part ≤ 255
      → (rest ≢ [] → length part ≡ 255)
      → Chunked rest bytes
      → Chunked (part ++ rest) (length part ∷ (part ++ bytes))

-- An empty text is one empty string.
abbrev pub IsStrings : Text → List ℕ → Type 0
IsStrings [] bytes = bytes ≡ 0 ∷ []
IsStrings (c ∷ cs) bytes = Chunked (c ∷ cs) bytes

-- What the encoder in the state `e` appends for the name.
abbrev pub IsAppended : DnsPacketEncoder → Text → List ℕ → Type 0
IsAppended e name bytes = (encode_qname name e).buf ≡ e.buf ++ bytes

-- The data of the record, field by field, from the state `e` on: the names in CNAME, MX, NS, SOA and
-- PTR records may be compressed, those in SRV, RRSIG and NSEC records are not.
abbrev pub IsData : DnsRecord → DnsPacketEncoder → List ℕ → Type 0
IsData (DnsRecord.a d addr t) e rdata = rdata ≡ addr
IsData (DnsRecord.aaaa d addr t) e rdata = rdata ≡ addr
IsData (DnsRecord.cname d alias t) e rdata = IsAppended e alias rdata
IsData (DnsRecord.mx d preference exchange t) e rdata =
    (name : List ℕ) × IsAppended (extend (u16_bytes preference) e) exchange name
    × (rdata ≡ u16_bytes preference ++ name)
IsData (DnsRecord.txt d text t) e rdata = IsStrings text rdata
IsData (DnsRecord.ns d nameserver t) e rdata = IsAppended e nameserver rdata
IsData (DnsRecord.soa d mname rname serial refresh retry expire minimum t) e rdata =
    (primary : List ℕ) × (mailbox : List ℕ) × IsAppended e mname primary
    × IsAppended (encode_qname mname e) rname mailbox
    × (rdata
        ≡ primary
          ++ (mailbox
              ++ (u32_bytes serial
                  ++ u32_bytes refresh
                  ++ u32_bytes retry
                  ++ u32_bytes expire
                  ++ u32_bytes minimum)))
IsData (DnsRecord.srv d priority weight port target t) e rdata =
    rdata ≡ (u16_bytes priority ++ u16_bytes weight ++ u16_bytes port) ++ uncompressed target
IsData (DnsRecord.ptr d name t) e rdata = IsAppended e name rdata
IsData (DnsRecord.caa d flags tag value t) e rdata =
    rdata ≡ flags ∷ length (take 255 tag) ∷ take 255 tag ++ value
IsData (DnsRecord.opt size) e rdata = rdata ≡ []
IsData (DnsRecord.dnskey d flags protocol algorithm public_key t) e rdata =
    rdata ≡ u16_bytes flags ++ (protocol ∷ algorithm ∷ public_key)
IsData
      (DnsRecord.rrsig d type_covered algorithm labels original_ttl expiration inception key_tag
        signer signature t)
      e rdata =
    rdata
    ≡ (u16_bytes type_covered
        ++ (algorithm ∷ labels ∷ [])
        ++ u32_bytes original_ttl
        ++ u32_bytes expiration
        ++ u32_bytes inception
        ++ u16_bytes key_tag)
      ++ (uncompressed signer ++ signature)
IsData (DnsRecord.ds d key_tag algorithm digest_type digest t) e rdata =
    rdata ≡ u16_bytes key_tag ++ (algorithm ∷ digest_type ∷ digest)
IsData (DnsRecord.nsec d name bitmap t) e rdata = rdata ≡ uncompressed name ++ bitmap

full_part : (n : ℕ) (xs : List ℕ) → drop n xs ≢ [] → length (take n xs) ≡ n
full_part zero xs more = refl
full_part (suc n) [] more = elim (more refl) [ ]
full_part (suc n) (x ∷ xs) more = ap suc (full_part n xs more)

chunk_bytes-Chunked : (n : ℕ) (text : List ℕ) → length text ≤ n → Chunked text (chunk_bytes n text)
chunk_bytes-Chunked zero [] h = unfold chunk_bytes in nothing
chunk_bytes-Chunked zero (b ∷ bs) h = absurd (omega arith)
chunk_bytes-Chunked (suc n) [] h = unfold chunk_bytes in nothing
chunk_bytes-Chunked (suc n) (b ∷ bs) h =
    let part = take 255 (b ∷ bs) in
    let more = drop 255 (b ∷ bs) in
    let some_byte : part ≢ [] = λ e. absurd (ground arith) in
    let size : length part ≡ min 255 (length (b ∷ bs)) = length-take 255 (b ∷ bs) in
    let rest = chunk_bytes-Chunked n more (omega (arith, length-drop 255 (b ∷ bs))) in
    let split : part ++ more ≡ b ∷ bs = take-append-drop 255 (b ∷ bs) in
    let all : Chunked (part ++ more) (length part ∷ (part ++ chunk_bytes n more)) =
      string {part = part} some_byte (omega (arith, size)) (full_part 255 (b ∷ bs)) rest in
    rw (chunk n b bs)
      (subst (λ text. Chunked text (length part ∷ (part ++ chunk_bytes n more))) split all)

character_strings-IsStrings : (text : Text) → IsStrings text (character_strings text)
unfolding character_strings is_empty
character_strings-IsStrings [] = refl
character_strings-IsStrings (c ∷ cs) = chunk_bytes-Chunked (length (c ∷ cs)) (c ∷ cs) (omega arith)

-- The buffer holds, behind what was there, the bytes that are the record's data.
abbrev pub AppendsData : DnsRecord → DnsPacketEncoder → DnsPacketEncoder → Type 0
AppendsData r e done = (rdata : List ℕ) × (done.buf ≡ e.buf ++ rdata) × IsData r e rdata

pub write_body-AppendsData :
    (r : DnsRecord) (e : DnsPacketEncoder) → AppendsData r e (write_body r e)
unfolding write_body encode_name_uncompressed encode_character_strings extend
write_body-AppendsData (DnsRecord.a d addr t) e = (addr, refl, refl)
write_body-AppendsData (DnsRecord.aaaa d addr t) e = (addr, refl, refl)
write_body-AppendsData (DnsRecord.cname d alias t) e =
    let (bytes, h) = encode_qname-Appends alias e in (bytes, h, h)
write_body-AppendsData (DnsRecord.mx d preference exchange t) e =
    let (name, h) = encode_qname-Appends exchange (extend (u16_bytes preference) e) in
    (
      u16_bytes preference ++ name,
      h ∙ append_assoc e.buf (u16_bytes preference) name,
      (name, h, refl),
    )
write_body-AppendsData (DnsRecord.txt d text t) e =
    (character_strings text, refl, character_strings-IsStrings text)
write_body-AppendsData (DnsRecord.ns d nameserver t) e =
    let (bytes, h) = encode_qname-Appends nameserver e in (bytes, h, h)
write_body-AppendsData (DnsRecord.soa d mname rname serial refresh retry expire minimum t) e =
    let (primary, h) = encode_qname-Appends mname e in
    let (mailbox, h') = encode_qname-Appends rname (encode_qname mname e) in
    let numbers =
      u32_bytes serial
      ++ u32_bytes refresh
      ++ u32_bytes retry
      ++ u32_bytes expire
      ++ u32_bytes minimum in
    (
      primary ++ (mailbox ++ numbers),
      ap (λ b. b ++ numbers) (h' ∙ ap (λ b. b ++ mailbox) h)
          ∙ append_assoc (e.buf ++ primary) mailbox numbers
          ∙ append_assoc e.buf primary (mailbox ++ numbers),
      (primary, mailbox, h, h', refl),
    )
write_body-AppendsData (DnsRecord.srv d p w o target t) e = (
  (u16_bytes p ++ u16_bytes w ++ u16_bytes o) ++ uncompressed target,
  append_assoc e.buf (u16_bytes p ++ u16_bytes w ++ u16_bytes o) (uncompressed target),
  refl,
)
write_body-AppendsData (DnsRecord.ptr d name t) e =
    let (bytes, h) = encode_qname-Appends name e in (bytes, h, h)
write_body-AppendsData (DnsRecord.caa d flags tag value t) e =
    let count : min (length tag) 255 ≡ length (take 255 tag) = omega (arith, length-take 255 tag) in
    (_, refl, ap (λ n. flags ∷ n ∷ take 255 tag ++ value) count)
write_body-AppendsData (DnsRecord.opt size) e = ([], sym (append-nil e.buf), refl)
write_body-AppendsData (DnsRecord.dnskey d f p g k t) e = (_, refl, refl)
write_body-AppendsData (DnsRecord.rrsig d c g l o x i k signer signature t) e =
    let fields =
      u16_bytes c ++ (g ∷ l ∷ []) ++ u32_bytes o ++ u32_bytes x ++ u32_bytes i ++ u16_bytes k in
    (
      fields ++ (uncompressed signer ++ signature),
      append_assoc (e.buf ++ fields) (uncompressed signer) signature
          ∙ append_assoc e.buf fields (uncompressed signer ++ signature),
      refl,
    )
write_body-AppendsData (DnsRecord.ds d k g y digest t) e = (_, refl, refl)
write_body-AppendsData (DnsRecord.nsec d name bitmap t) e =
    (uncompressed name ++ bitmap, append_assoc e.buf (uncompressed name) bitmap, refl)
