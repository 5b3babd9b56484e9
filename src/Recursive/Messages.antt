-- ===== src/Recursive/Messages.antt =====
-- The messages of src/recursive.rs: the queries it sends, how a reply is read and accepted, and the
-- responses it gives. `Attempt` is what a call comes to: its result, an error, or the panic of the
-- parser.
use mini_dns.Prelude.{
  ℕ, ◌+◌, ◌*◌, Bool, false, ◌&&◌, not, Option, none, some, List, [], ◌∷◌, ltb, leb, ◌==◌,
  if◌then◌else◌, length, get_elem?, take, bit_and, bit_or,
}
use mini_dns.Text.{Text}
use mini_dns.Dns.Error.{Result, ok, err, panic, stuck}
use mini_dns.Dns.Record.{DnsRecord}
use mini_dns.Dns.Packet.{DnsPacket}
use mini_dns.Dns.Parse.Packet.{from_bytes}
use mini_dns.Dns.Encoder.{to_bytes}

abbrev pub edns_udp_size : ℕ
edns_udp_size = 1232

pub data Attempt (A : Type 0) : Type 0 where
  answered : A → Attempt A
  failed : Attempt A
  panicked : Attempt A

unfoldable pub query_packet : ℕ → Text → ℕ → DnsPacket
query_packet id name qtype = record {
  header = record {
    id = id;
    flags = 0x0010;
    questions = 1;
    answers = 0;
    authorities = 0;
    additionals = 1;
  };
  questions = record { qname = name; qtype = qtype; qclass = 1 } ∷ [];
  answers = [];
  authorities = [];
  additionals = DnsRecord.opt edns_udp_size ∷ [];
}

-- The parsed reply, if it carries the id of the query. The parser is never `stuck`.
unfoldable pub accept : ℕ → Result DnsPacket → Attempt DnsPacket
accept id (ok response) = if response.header.id == id then answered response else failed
accept id (err e) = failed
accept id panic = panicked
accept id stuck = panicked

-- `read_exact` of two bytes, then of as many as they say; an error where the stream ends early.
unfoldable pub unframe : List ℕ → Option (List ℕ)
unframe [] = none
unframe (hi ∷ []) = none
unframe (hi ∷ lo ∷ rest) =
    let len = hi * 256 + lo in if ltb (length rest) len then none else some (take len rest)

unfoldable pub accept_bytes : ℕ → Option (List ℕ) → Attempt DnsPacket
accept_bytes id none = failed
accept_bytes id (some buf) = accept id (from_bytes buf)

-- `buf.len() >= 4 && (buf[2] & 0x02) != 0`.
unfoldable pub is_truncated : List ℕ → Bool
is_truncated buf = elim (get_elem? buf 2) [
  | none ↦ false
  | some flags ↦ leb 4 (length buf) && not (bit_and flags 0x02 == 0)
]

-- The response to the client: its own id, AA cleared (`&= !0x0400`), RA set.
unfoldable pub relay : ℕ → DnsPacket → DnsPacket
relay client_id response = record response {
  header = record response.header {
    id = client_id;
    flags = bit_or (bit_and response.header.flags 0xFBFF) 0x0080;
  };
}

unfoldable pub servfail_packet : Text → ℕ → ℕ → DnsPacket
servfail_packet name qtype id = record {
  header = record {
    id = id;
    flags = 0x8182;
    questions = 1;
    answers = 0;
    authorities = 0;
    additionals = 0;
  };
  questions = record { qname = name; qtype = qtype; qclass = 1 } ∷ [];
  answers = [];
  authorities = [];
  additionals = [];
}

unfoldable pub synth_servfail : Text → ℕ → ℕ → List ℕ
unfolding servfail_packet
synth_servfail name qtype id = to_bytes (servfail_packet name qtype id)
