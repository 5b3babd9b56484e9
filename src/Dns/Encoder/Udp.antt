-- ===== src/Dns/Encoder/Udp.antt =====
-- The size of the messages that `to_udp_bytes` of src/dns/packet.rs makes.
use mini_dns.Prelude.{
  ℕ, ◌+◌, ◌≤◌, ◌≡◌, refl, sym, ap, ◌∙◌, inl, inr, List, [], ◌∷◌, ◌++◌, arith, leb, length,
  length-append, length-take, Bool-cases, Option-cases, leb→le,
}
use mini_dns.Text.{Text, dot, is_empty, split_dot, join_dot, split_dot-cons, join_dot-split_dot}
use mini_dns.Dns.Record.{DnsRecord, type_opt}
use mini_dns.Dns.Packet.{DnsQuestion, DnsPacket, edns_udp_size, clamp_udp}
use mini_dns.Dns.Encoder.{
  DnsPacketEncoder, extend, get, label_bytes, remember, pointer, u16_bytes, write_labels,
  all_label_bytes, encode_qname, encode_question, encode_questions, encode_record, encode_records,
  header_bytes, encode, to_bytes, udp_limit, truncate, to_udp_bytes,
}

size : DnsPacketEncoder → ℕ
size enc = length enc.buf

size-extend :
    (bytes : List ℕ) (enc : DnsPacketEncoder) → size (extend bytes enc) ≡ size enc + length bytes
unfolding size extend
size-extend bytes enc = length-append enc.buf bytes

size-remember : (suffix : Text) (enc : DnsPacketEncoder) → size (remember suffix enc) ≡ size enc
unfolding size remember
size-remember suffix enc = ground arith

-- With compression a name takes no more bytes than without.
write_labels-shorter :
    (labels : List Text) (enc : DnsPacketEncoder)
    → size (write_labels labels enc) ≤ size enc + length (all_label_bytes labels)
unfolding write_labels all_label_bytes
write_labels-shorter [] enc = omega (arith, size-extend (0 ∷ []) enc)
write_labels-shorter (label ∷ labels) enc =
    let suffix = join_dot (label ∷ labels) in
    let sum = length-append (label_bytes label) (all_label_bytes labels) in
    elim (Option-cases (get enc.name_offsets suffix)) [
      | inr (offset, met) ↦
          rw (met, write_labels)
            (omega
              (arith, size-extend (u16_bytes (pointer offset)) enc, sum, two_bytes label labels))
      | inl new ↦
          let mid = extend (label_bytes label) (remember suffix enc) in
          rw (new, write_labels)
            (omega (
              arith,
              write_labels-shorter labels mid,
              sum,
              size-extend (label_bytes label) (remember suffix enc),
              size-remember suffix enc,
            ))
    ]
  where
    some_byte : (ls : List Text) → 1 ≤ length (all_label_bytes ls)
    some_byte [] = omega arith
    some_byte (l ∷ ls) =
        omega (arith, length-append (label_bytes l) (all_label_bytes ls), some_byte ls)

    two_bytes :
        (l : Text) (ls : List Text) → 2 ≤ length (label_bytes l) + length (all_label_bytes ls)
    two_bytes l ls = unfold label_bytes in omega (arith, some_byte ls)

all_label_bytes-le :
    (label : Text) (labels : List Text)
    → length (all_label_bytes (label ∷ labels)) ≤ length (join_dot (label ∷ labels)) + 2
unfolding all_label_bytes join_dot label_bytes
all_label_bytes-le label [] =
    omega (arith, length-append (label_bytes label) (0 ∷ []), length-take 63 label)
all_label_bytes-le label (l ∷ ls) = omega (
  arith,
  length-append (label_bytes label) (all_label_bytes (l ∷ ls)),
  length-take 63 label,
  length-append label (dot ∷ join_dot (l ∷ ls)),
  all_label_bytes-le l ls,
)

encode_qname-le :
    (name : Text) (enc : DnsPacketEncoder)
    → size (encode_qname name enc) ≤ size enc + length name + 2
unfolding encode_qname
encode_qname-le name enc = elim (Bool-cases (is_empty name)) [
  | inl root ↦ rw (root, encode_qname) (omega (arith, size-extend (0 ∷ []) enc))
  | inr text ↦
      let (label, labels, e) = split_dot-cons name in
      let bytes : length (all_label_bytes (split_dot name)) ≤ length name + 2 = rw e (
        omega (
          arith,
          all_label_bytes-le label labels,
          ap length (sym (ap join_dot e) ∙ join_dot-split_dot name),
        )) in
      rw (text, encode_qname) (omega (arith, write_labels-shorter (split_dot name) enc))
]

encode_question-le :
    (q : DnsQuestion) (enc : DnsPacketEncoder)
    → size (encode_question q enc) ≤ size enc + length q.qname + 6
unfolding encode_question
encode_question-le q enc = omega (
  arith,
  encode_qname-le q.qname enc,
  size-extend (u16_bytes q.qtype) (encode_qname q.qname enc),
  size-extend (u16_bytes q.qclass) (extend (u16_bytes q.qtype) (encode_qname q.qname enc)),
)

-- What a server puts into the additional section of its answers: at most an OPT record.
abbrev pub IsOptOnly : List DnsRecord → Type 0
IsOptOnly [] = Unit
IsOptOnly (DnsRecord.opt udp_size ∷ []) = Unit
IsOptOnly rs = ⊥

encode_records-opt :
    (rs : List DnsRecord) (enc : DnsPacketEncoder)
    → IsOptOnly rs
    → size (encode_records rs enc) ≤ size enc + 11
unfolding encode_records encode_record
encode_records-opt [] enc h = omega arith
encode_records-opt (DnsRecord.opt n ∷ []) enc h =
    omega (
      arith,
      size-extend (0 ∷ u16_bytes type_opt ++ u16_bytes n ++ (0 ∷ 0 ∷ 0 ∷ 0 ∷ 0 ∷ 0 ∷ [])) enc,
    )
encode_records-opt rs enc h = absurd h

start : DnsPacketEncoder
start = record { buf = []; name_offsets = [] }

one_question :
    (qs : List DnsQuestion) (q : DnsQuestion) (enc : DnsPacketEncoder)
    → qs ≡ q ∷ []
    → size (encode_questions qs enc) ≤ size enc + length q.qname + 6
unfolding encode_questions
one_question qs q enc e = rw (e, encode_questions) (encode_question-le q enc)

truncate-le :
    (packet : DnsPacket) (q : DnsQuestion)
    → packet.questions ≡ q ∷ []
    → IsOptOnly packet.additionals
    → length (to_bytes (truncate packet)) ≤ length q.qname + 29
unfolding to_bytes encode encode_records encode_questions truncate size start
truncate-le packet q e opt =
    let head = extend (header_bytes (truncate packet)) start in
    let mid = encode_questions packet.questions head in
    let asked : size mid ≤ size head + length q.qname + 6 =
      one_question packet.questions q head e in
    let head_size : size head ≡ 12 = unfold extend header_bytes in refl in
    omega (arith, encode_records-opt packet.additionals mid opt)

udp_limit-ge : (packet : DnsPacket) → 512 ≤ udp_limit packet
unfolding udp_limit clamp_udp
udp_limit-ge packet = elim (Option-cases (edns_udp_size packet)) [
  | inl none_sent ↦ rw (none_sent, udp_limit) (omega arith)
  | inr (n, sent) ↦ rw (sent, udp_limit) (omega arith)
]

-- A response to one question, whose name has at most 255 bytes, and with at most an OPT record in
-- its additional section, is sent over UDP in a message within the limit: 512 bytes, or the size
-- of the OPT record kept between 512 and 1232.
pub to_udp_bytes-fits :
    (packet : DnsPacket) (q : DnsQuestion)
    → packet.questions ≡ q ∷ []
    → length q.qname ≤ 255
    → IsOptOnly packet.additionals
    → length (to_udp_bytes packet) ≤ udp_limit packet
unfolding to_udp_bytes
to_udp_bytes-fits packet q e h opt =
    elim (Bool-cases (leb (length (to_bytes packet)) (udp_limit packet))) [
      | inl fits ↦ rw (fits, to_udp_bytes) (leb→le _ _ fits)
      | inr over ↦
          rw (over, to_udp_bytes) (omega (arith, truncate-le packet q e opt, udp_limit-ge packet))
    ]
