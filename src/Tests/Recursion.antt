-- ===== src/Tests/Recursion.antt =====
-- The iterative resolver of src/recursive.rs against a network of one server, which every address
-- reaches, and which refers for the zone dk and answers for a name below it.
use mini_dns.Prelude.{
  ℕ, ◌+◌, ◌*◌, ◌≡◌, refl, Option, none, some, List, [], ◌∷◌, arith, length, if◌then◌else◌,
}
use mini_dns.Text.{
  trim_end_dots, Text, dot, text_eq, text_eq_iff, to_lowercase, is_empty, split_dot,
}
use mini_dns.Net.{IpAddr, SocketAddr}
use mini_dns.DashMap.{DashMap}
use mini_dns.DashMap.Assoc.{assoc}
use mini_dns.Dns.Error.{ok, err, panic, stuck}
use mini_dns.Dns.Record.{DnsRecord}
use mini_dns.Dns.Packet.{DnsQuestion, DnsPacket}
use mini_dns.Dns.Parse.Packet.{from_bytes}
use mini_dns.Dns.Encoder.{to_bytes}
use mini_dns.Recursive.Names.{labels, minimized_qname, nonempty}
use mini_dns.Recursive.Depth.{NoAnswer, resolve-NoAnswer}
use mini_dns.Recursive.Replies.{IsReply, resolve-IsReply}
use mini_dns.Recursive.Progress.{query_servers_first, resolve-two_labels}
use mini_dns.Recursive.Referral.{IsOutcome, extract_delegation-IsReferral}
use mini_dns.Recursive.Messages.{answered, relay, query_packet, accept, is_truncated}
use mini_dns.Recursive.Servers.{
  Delegation, root_servers, ns_names, ns_ttl, glue, glue_addr, names_server,
}
use mini_dns.Recursive.{
  Network, Run, query_one, query_servers, descend_to, resolve, extract_delegation, delegation_addrs,
  receive,
}

abbrev dk : Text
dk = b'd' ∷ b'k' ∷ []

abbrev a_dk : Text
a_dk = b'a' ∷ dot ∷ dk

abbrev w_a_dk : Text
w_a_dk = b'w' ∷ dot ∷ a_dk

abbrev server_n : Text
server_n = b'n' ∷ []

abbrev addr : List ℕ
addr = 9 ∷ 9 ∷ 9 ∷ 9 ∷ []

abbrev reply : ℕ → List DnsQuestion → List DnsRecord → List DnsRecord → List DnsRecord → DnsPacket
reply id qs an au ad = record {
  header = record {
    id = id;
    flags = 0x8400;
    questions = length qs;
    answers = length an;
    authorities = length au;
    additionals = length ad;
  };
  questions = qs;
  answers = an;
  authorities = au;
  additionals = ad;
}

abbrev referral : ℕ → List DnsQuestion → DnsPacket
referral id qs =
    reply id qs [] (DnsRecord.ns dk server_n 60 ∷ []) (DnsRecord.a server_n addr 90 ∷ [])

abbrev answer : ℕ → List DnsQuestion → DnsPacket
answer id qs = reply id qs (DnsRecord.a a_dk addr 30 ∷ []) [] []

abbrev serve_question : ℕ → List DnsQuestion → DnsPacket
serve_question id [] = reply id [] [] [] []
serve_question id (q ∷ qs) = if text_eq q.qname dk then referral id (q ∷ []) else answer id (q ∷ [])

-- The world counts the exchanges, and is the clock.
abbrev serve : SocketAddr → List ℕ → ℕ → Option (List ℕ) × ℕ
serve server query world = elim (from_bytes query) [
  | ok q ↦ (some (to_bytes (serve_question q.header.id q.questions)), world + 1)
  | err e ↦ (none, world + 1)
  | panic ↦ (none, world + 1)
  | stuck ↦ (none, world + 1)
]

abbrev table : DashMap Text Delegation
table = assoc text_eq text_eq_iff

abbrev network : Network (List (Text × Delegation))
network = record {
  World = ℕ;
  now = λ world. world;
  udp = serve;
  tcp = λ server query world. (none, world);
  meanwhile = λ world shared. shared;
}

abbrev new_run : Run table network
new_run = record { shared = record { delegations = []; next_id = 1 }; world = 100 }

abbrev question : Text → DnsQuestion
question name = record { qname = name; qtype = 1; qclass = 1 }

abbrev found : Delegation
found = record {
  ns_names = server_n ∷ [];
  ns_addrs = record { ip = IpAddr.v4 addr; port = 53 } ∷ [];
  expires_at = 101 + 60 * 1_000_000_000;
}

three : length (labels (trim_end_dots (to_lowercase w_a_dk))) ≡ 3
unfolding labels trim_end_dots to_lowercase is_empty split_dot nonempty
three = refl

resolve-NoAnswer_example :
    NoAnswer (trim_end_dots (to_lowercase w_a_dk)) 1 7 (resolve table network w_a_dk 1 7 new_run).0
resolve-NoAnswer_example = resolve-NoAnswer table network w_a_dk 1 7 new_run (omega (arith, three))

resolve-IsReply_example : IsReply 7 (resolve table network a_dk 1 7 new_run).0
resolve-IsReply_example = resolve-IsReply table network a_dk 1 7 new_run

abbrev hint_a : SocketAddr
hint_a = record { ip = IpAddr.v4 (198 ∷ 41 ∷ 0 ∷ 4 ∷ []); port = 53 }

abbrev run_at : ℕ → ℕ → Run table network
run_at id world = record { shared = record { delegations = []; next_id = id }; world = world }

abbrev referred : DnsPacket
referred = referral 1 (question dk ∷ [])

asked : query_one table network dk 1 hint_a new_run ≡ (answered referred, run_at 2 101)
unfolding query_one from_bytes to_bytes receive is_truncated accept text_eq is_empty split_dot
    query_packet mini_dns.Dns.Parse.Packet.parse_header mini_dns.Dns.Encoder.encode
    mini_dns.Dns.Encoder.encode_records mini_dns.Dns.Encoder.encode_record
    mini_dns.Dns.Encoder.extend mini_dns.Dns.Encoder.encode_questions
    mini_dns.Dns.Encoder.encode_question mini_dns.Dns.Encoder.encode_qname
    mini_dns.Dns.Encoder.write_labels mini_dns.Dns.Encoder.get mini_dns.Dns.Encoder.remember
    mini_dns.Dns.Encoder.header_bytes mini_dns.Dns.Encoder.label_bytes mini_dns.Dns.Buffer.read_u16
    mini_dns.Dns.Buffer.byte_at mini_dns.Dns.Buffer.read_u32 mini_dns.Dns.Buffer.slice
    mini_dns.Dns.Encoder.copy_at mini_dns.Dns.Encoder.encode_rdata
    mini_dns.Dns.Encoder.encode_record_header mini_dns.Dns.Encoder.write_body
    mini_dns.Dns.Parse.Name.finish mini_dns.Dns.Parse.Name.follow_pointer
    mini_dns.Dns.Parse.Name.is_pointer mini_dns.Dns.Parse.Name.parse_qname
    mini_dns.Dns.Parse.Name.qname_loop mini_dns.Dns.Parse.Name.qname_turn
    mini_dns.Dns.Parse.Name.take_label mini_dns.Dns.Parse.Packet.parse_question
    mini_dns.Dns.Parse.Packet.parse_questions mini_dns.Dns.Parse.Packet.parse_record
    mini_dns.Dns.Parse.Packet.parse_section mini_dns.Dns.Parse.Packet.push_some
    mini_dns.Dns.Parse.Rdata.parse_a mini_dns.Dns.Parse.Rdata.parse_ns
    mini_dns.Dns.Parse.Rdata.parse_rdata mini_dns.Dns.Record.domain mini_dns.Dns.Record.record_type
    mini_dns.Dns.Record.ttl mini_dns.Text.Utf8.from_utf8_lossy mini_dns.Text.join_dot
    mini_dns.Text.strip_dot
asked = refl

root_asked :
    query_servers table network dk 1 root_servers new_run ≡ (answered referred, run_at 2 101)
root_asked = query_servers_first table network dk 1 hint_a _ new_run (run_at 2 101) referred asked

refers : extract_delegation table network referred [] 101 ≡ some found
unfolding extract_delegation delegation_addrs ns_names ns_ttl glue glue_addr names_server is_empty
    text_eq to_lowercase
refers = refl

extract_delegation-IsReferral_example :
    IsOutcome table network referred [] 101 (extract_delegation table network referred [] 101)
extract_delegation-IsReferral_example = extract_delegation-IsReferral table network referred [] 101

-- With the delegation of dk in the cache.
abbrev below_dk : ℕ → ℕ → Run table network
below_dk id world = record {
  shared = record { delegations = (dk, found) ∷ []; next_id = id };
  world = world;
}

abbrev a_answer : DnsPacket
a_answer = answer 2 (question a_dk ∷ [])

answered_below :
    query_one table network a_dk 1 (record { ip = IpAddr.v4 addr; port = 53 }) (below_dk 2 101)
    ≡ (answered a_answer, below_dk 3 102)
unfolding query_one from_bytes to_bytes receive is_truncated accept text_eq is_empty split_dot
    query_packet mini_dns.Dns.Parse.Packet.parse_header mini_dns.Dns.Encoder.encode
    mini_dns.Dns.Encoder.encode_records mini_dns.Dns.Encoder.encode_record
    mini_dns.Dns.Encoder.extend mini_dns.Dns.Encoder.encode_questions
    mini_dns.Dns.Encoder.encode_question mini_dns.Dns.Encoder.encode_qname
    mini_dns.Dns.Encoder.write_labels mini_dns.Dns.Encoder.get mini_dns.Dns.Encoder.remember
    mini_dns.Dns.Encoder.header_bytes mini_dns.Dns.Encoder.label_bytes mini_dns.Dns.Buffer.read_u16
    mini_dns.Dns.Buffer.byte_at mini_dns.Dns.Buffer.read_u32 mini_dns.Dns.Buffer.slice
    mini_dns.Dns.Encoder.copy_at mini_dns.Dns.Encoder.encode_rdata
    mini_dns.Dns.Encoder.encode_record_header mini_dns.Dns.Encoder.write_body
    mini_dns.Dns.Parse.Name.finish mini_dns.Dns.Parse.Name.follow_pointer
    mini_dns.Dns.Parse.Name.is_pointer mini_dns.Dns.Parse.Name.parse_qname
    mini_dns.Dns.Parse.Name.qname_loop mini_dns.Dns.Parse.Name.qname_turn
    mini_dns.Dns.Parse.Name.take_label mini_dns.Dns.Parse.Packet.parse_question
    mini_dns.Dns.Parse.Packet.parse_questions mini_dns.Dns.Parse.Packet.parse_record
    mini_dns.Dns.Parse.Packet.parse_section mini_dns.Dns.Parse.Packet.push_some
    mini_dns.Dns.Parse.Rdata.parse_a mini_dns.Dns.Parse.Rdata.parse_ns
    mini_dns.Dns.Parse.Rdata.parse_rdata mini_dns.Dns.Record.domain mini_dns.Dns.Record.record_type
    mini_dns.Dns.Record.ttl mini_dns.Text.Utf8.from_utf8_lossy mini_dns.Text.join_dot
    mini_dns.Text.strip_dot
answered_below = refl

told :
    query_servers table network a_dk 1 found.ns_addrs (below_dk 2 101)
    ≡ (answered a_answer, below_dk 3 102)
told =
    query_servers_first table network a_dk 1 (record { ip = IpAddr.v4 addr; port = 53 }) []
      (below_dk 2 101) (below_dk 3 102) a_answer answered_below

abbrev upper_a_dk : Text
upper_a_dk = b'A' ∷ dot ∷ b'D' ∷ b'k' ∷ dot ∷ []

resolve-two_labels_example :
    resolve table network upper_a_dk 1 7 new_run
    ≡ (answered (to_bytes (relay 7 a_answer)), below_dk 3 102)
unfolding trim_end_dots to_lowercase is_empty labels split_dot nonempty minimized_qname descend_to
    text_eq
resolve-two_labels_example =
    resolve-two_labels table network upper_a_dk 1 7 new_run (run_at 2 101) (below_dk 3 102) referred
      a_answer found (omega arith) refl root_asked (refl, refl, refers) told refl
