-- ===== src/Tests/Encoding.antt =====
-- Messages as src/dns/encoder.rs writes them, and as src/state.rs passes them on.
use mini_dns.Prelude.{ℕ, ◌+◌, ◌≤◌, ◌≡◌, ◌≢◌, refl, List, [], ◌∷◌, ◌++◌, arith, length, none}
use mini_dns.Text.{Text, is_empty, split_dot, join_dot, text_eq}
use mini_dns.Dns.Buffer.{read_u16, byte_at}
use mini_dns.Dns.Error.{ok, panic}
use mini_dns.Dns.Record.{DnsRecord}
use mini_dns.Dns.Packet.{DnsPacket, edns_udp_size}
use mini_dns.Dns.Parse.Name.{parse_qname}
use mini_dns.Dns.Parse.Packet.{from_bytes, parse_header, parse_questions, parse_section}
use mini_dns.Dns.Encoder.{
  DnsPacketEncoder, encode_record, extend, u16_bytes, uncompressed, encode_qname, to_bytes,
  to_udp_bytes, udp_limit, write_labels, get, label_bytes, remember,
}
use mini_dns.Dns.Encoder.Layout.{IsFramed, encode_record-IsFramed}
use mini_dns.Dns.Encoder.Names.{parse_qname-uncompressed}
use mini_dns.Dns.Encoder.Remembered.{IsEncoder}
use mini_dns.Dns.Encoder.Compressed.{parse_qname-encode_qname}
use mini_dns.Dns.Encoder.Header.{header_of, parse_header-to_bytes}
use mini_dns.Dns.Encoder.Udp.{to_udp_bytes-fits}
use mini_dns.State.{udp, align_edns, replay}
use mini_dns.State.Replay.{align_edns-udp_limit, replay-id}

abbrev dk : Text
dk = b'd' ∷ b'k' ∷ []

abbrev www : Text
www = b'w' ∷ b'.' ∷ b'd' ∷ b'k' ∷ []

abbrev fresh : DnsPacketEncoder
fresh = record { buf = []; name_offsets = [] }

-- The second name ends in a pointer to the first.
compresses :
    (encode_qname www (encode_qname dk fresh)).buf ≡ 2 ∷ b'd' ∷ b'k' ∷ 0 ∷ 1 ∷ b'w' ∷ 0xC0 ∷ 0 ∷ []
unfolding encode_qname is_empty split_dot write_labels get extend label_bytes remember join_dot
    text_eq
compresses = refl

fresh-IsEncoder : IsEncoder 0 fresh
unfolding get
fresh-IsEncoder name offset met = absurd (ground arith)

-- The encoder that has written a name already.
dk_written : IsEncoder 1 (encode_qname dk fresh)
unfolding split_dot
dk_written =
    (parse_qname-encode_qname 0 fresh dk [] fresh-IsEncoder (omega arith)
      ((omega arith, omega arith, (omega arith, (omega arith, tt))), tt)).1

parse_qname-encode_qname_example :
    (parse_qname
        ((encode_qname www (encode_qname dk fresh)).buf ++ (7 ∷ []))
        (length (encode_qname dk fresh).buf)
      ≡ ok (www, length (encode_qname www (encode_qname dk fresh)).buf))
    × IsEncoder 2 (encode_qname www (encode_qname dk fresh))
unfolding split_dot
parse_qname-encode_qname_example =
    parse_qname-encode_qname 1 (encode_qname dk fresh) www (7 ∷ []) dk_written (omega arith) (
      (omega arith, omega arith, (omega arith, tt)),
      ((omega arith, omega arith, (omega arith, (omega arith, tt))), tt),
    )

encode_record-IsFramed_example :
    IsFramed (DnsRecord.txt dk www 60) fresh (encode_record (DnsRecord.txt dk www 60) fresh)
encode_record-IsFramed_example = encode_record-IsFramed (DnsRecord.txt dk www 60) fresh tt

parse_qname-uncompressed_example :
    parse_qname ((9 ∷ []) ++ (uncompressed dk ++ (7 ∷ []))) 1
    ≡ ok (dk, 1 + length (uncompressed dk))
unfolding split_dot
parse_qname-uncompressed_example =
    parse_qname-uncompressed dk (9 ∷ []) (7 ∷ [])
      ((omega arith, omega arith, (omega arith, (omega arith, tt))), tt)

abbrev query : DnsPacket
query = record {
  header = record {
    id = 7;
    flags = 0x0100;
    questions = 1;
    answers = 0;
    authorities = 0;
    additionals = 1;
  };
  questions = record { qname = www; qtype = 1; qclass = 1 } ∷ [];
  answers = [];
  authorities = [];
  additionals = DnsRecord.opt 4096 ∷ [];
}

abbrev reply : DnsPacket
reply = record {
  header = record {
    id = 9;
    flags = 0x8180;
    questions = 1;
    answers = 9;
    authorities = 0;
    additionals = 0;
  };
  questions = record { qname = www; qtype = 1; qclass = 1 } ∷ [];
  answers = DnsRecord.a www (1 ∷ 2 ∷ 3 ∷ 4 ∷ []) 60 ∷ DnsRecord.a www (1 ∷ 2 ∷ 3 ∷ 5 ∷ []) 30 ∷ [];
  authorities = [];
  additionals = [];
}

parse_header-to_bytes_example : parse_header (to_bytes reply) ≡ ok (header_of reply)
parse_header-to_bytes_example = parse_header-to_bytes reply

to_udp_bytes-fits_example : length (to_udp_bytes reply) ≤ udp_limit reply
to_udp_bytes-fits_example =
    to_udp_bytes-fits reply (record { qname = www; qtype = 1; qclass = 1 }) refl (omega arith) tt

align_edns-udp_limit_example :
    (udp_limit (align_edns reply query) ≡ udp_limit query)
    × ((edns_udp_size (align_edns reply query) ≡ none → edns_udp_size query ≡ none)
        × (edns_udp_size query ≡ none → edns_udp_size (align_edns reply query) ≡ none))
align_edns-udp_limit_example = align_edns-udp_limit reply query

-- Twelve bytes of a header without any records.
abbrev raw_reply : List ℕ
raw_reply = 0 ∷ 9 ∷ 0x81 ∷ 0x80 ∷ 0 ∷ 0 ∷ 0 ∷ 0 ∷ 0 ∷ 0 ∷ 0 ∷ 0 ∷ []

parses : from_bytes raw_reply ≢ panic
unfolding from_bytes parse_header read_u16 byte_at parse_questions parse_section
parses e = cc

replay-id_example : (rest : List ℕ) × (replay raw_reply query udp ≡ ok (u16_bytes 7 ++ rest))
replay-id_example = replay-id raw_reply query udp (omega arith) parses
