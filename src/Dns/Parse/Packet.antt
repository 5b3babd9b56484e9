-- ===== src/Dns/Parse/Packet.antt =====
-- `DnsPacket::parse_record` and `DnsPacket::from_bytes` of src/dns/packet.rs.
pub mod Total
use mini_dns.Prelude.{ℕ, zero, suc, ◌+◌, Option, none, some, List, [], ◌∷◌, ltb, length}
use mini_dns.Dns.Error.{Result, ok, ◌>>=◌, ◌>>◌, truncated, Field, fail_if}
use mini_dns.Dns.Record.{DnsRecord}
use mini_dns.Dns.Packet.{DnsHeader, DnsQuestion, DnsPacket}
use mini_dns.Dns.Buffer.{read_u16, read_u32}
use mini_dns.Dns.Parse.Name.{parse_qname}
use mini_dns.Dns.Parse.Rdata.{parse_rdata}

unfoldable pub parse_record : List ℕ → ℕ → Result (Option DnsRecord × ℕ)
parse_record buf offset = do
  (domain, at) ← parse_qname buf offset
  fail_if (ltb (length buf) (at + 10)) (truncated Field.record_header)
  record_type ← read_u16 buf at
  class ← read_u16 buf (at + 2)
  ttl ← read_u32 buf (at + 4)
  data_len ← read_u16 buf (at + 8)
  fail_if (ltb (length buf) (at + 10 + data_len)) (truncated Field.record_data)
  parsed ← parse_rdata buf domain ttl (at + 10) data_len record_type class
  ok (parsed, at + 10 + data_len)

-- `if let Some(record) = record { out.push(record) }`, in front of the records that follow.
unfoldable pub push_some : Option DnsRecord → List DnsRecord → List DnsRecord
push_some none out = out
push_some (some r) out = r ∷ out

-- The closure `parse_section`: the records, and the offset behind them.
unfoldable pub parse_section : ℕ → List ℕ → ℕ → Result (List DnsRecord × ℕ)
parse_section zero buf offset = ok ([], offset)
parse_section (suc count) buf offset = do
  (parsed, next) ← parse_record buf offset
  (out, end) ← parse_section count buf next
  ok (push_some parsed out, end)

unfoldable pub parse_question : List ℕ → ℕ → Result (DnsQuestion × ℕ)
parse_question buf offset = do
  (qname, at) ← parse_qname buf offset
  fail_if (ltb (length buf) (at + 4)) (truncated Field.question)
  qtype ← read_u16 buf at
  qclass ← read_u16 buf (at + 2)
  ok (record { qname = qname; qtype = qtype; qclass = qclass }, at + 4)

unfoldable pub parse_questions : ℕ → List ℕ → ℕ → Result (List DnsQuestion × ℕ)
parse_questions zero buf offset = ok ([], offset)
parse_questions (suc count) buf offset = do
  (question, next) ← parse_question buf offset
  (questions, end) ← parse_questions count buf next
  ok (question ∷ questions, end)

unfoldable pub parse_header : List ℕ → Result DnsHeader
parse_header buf = do
  fail_if (ltb (length buf) 12) (truncated Field.header)
  id ← read_u16 buf 0
  flags ← read_u16 buf 2
  questions ← read_u16 buf 4
  answers ← read_u16 buf 6
  authorities ← read_u16 buf 8
  additionals ← read_u16 buf 10
  ok (record {
    id = id;
    flags = flags;
    questions = questions;
    answers = answers;
    authorities = authorities;
    additionals = additionals;
  })

unfoldable pub from_bytes : List ℕ → Result DnsPacket
from_bytes buf = do
  header ← parse_header buf
  (questions, after_questions) ← parse_questions header.questions buf 12
  (answers, after_answers) ← parse_section header.answers buf after_questions
  (authorities, after_authorities) ← parse_section header.authorities buf after_answers
  (additionals, _) ← parse_section header.additionals buf after_authorities
  ok (record {
    header = header;
    questions = questions;
    answers = answers;
    authorities = authorities;
    additionals = additionals;
  })
