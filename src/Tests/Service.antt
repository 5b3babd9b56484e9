-- ===== src/Tests/Service.antt =====
-- The server state of src/state.rs at concrete queries: a zone dk with one host, a rule that forwards
-- all other names, and an access list of one network.
use mini_dns.Prelude.{
  ℕ, ◌+◌, ◌/◌, ◌%◌, ◌≡◌, refl, inr, true, false, none, some, List, [], ◌∷◌, arith,
}
use mini_dns.Text.{is_empty, Text, dot, text_eq, to_lowercase}
use mini_dns.Net.{IpAddr, SocketAddr}
use mini_dns.DashMap.{DashMap}
use mini_dns.DashMap.Assoc.{assoc}
use mini_dns.Acl.{Cidr}
use mini_dns.Cache.{Key, Entry, key_eq, key_eq_iff, second}
use mini_dns.Cache
use mini_dns.Blocklist.{empty}
use mini_dns.Zones.{ZoneSet}
use mini_dns.Metrics.{default}
use mini_dns.Dnssec.{Ed25519, key_tag_from_rdata}
use mini_dns.Dnssec.Canonical.{word_sum, key_tag_from_rdata-word_sum}
use mini_dns.Recursive.Messages.{answered, failed}
use mini_dns.Dns.Error.{ok}
use mini_dns.Dns.Record.{DnsRecord}
use mini_dns.Dns.Packet.{DnsPacket}
use mini_dns.Dns.Parse.Packet.{from_bytes, parse_header, parse_questions, parse_section}
use mini_dns.Dns.Buffer.{read_u16, slice, byte_at}
use mini_dns.State.{tcp, cache_ttl, negative_ttl, soa_minimum}
use mini_dns.State.Local.{Call, ForwardCtx, ServerState}
use mini_dns.State.Axfr.Transfers.{Transfers}
use mini_dns.State.Upstream.{is_recursive, forward_and_cache, forward_and_cache-cached}
use mini_dns.Tests.Access.{clients}
use mini_dns.Prelude.{◌++◌}
use mini_dns.State.Service.{serve}
use mini_dns.Server.{Served, handle_dns_stream}
use mini_dns.Server.Streams.{frames, answer_all, handle_dns_stream-answers}

abbrev dk : Text
dk = b'd' ∷ b'k' ∷ []

abbrev a_dk : Text
a_dk = b'a' ∷ dot ∷ dk

abbrev pub se : Text
se = b's' ∷ b'e' ∷ []

abbrev zones : ZoneSet
zones = record {
  zones =
      record {
        origin = dk;
        records =
            (a_dk, DnsRecord.a a_dk (10 ∷ 0 ∷ 0 ∷ 7 ∷ []) 60 ∷ [])
            ∷ (dk, DnsRecord.soa dk a_dk a_dk 1 2 3 4 5 60 ∷ DnsRecord.ns dk a_dk 60 ∷ [])
            ∷ [];
      }
      ∷ [];
}

abbrev pub upstream : SocketAddr
upstream = record { ip = IpAddr.v4 (9 ∷ 9 ∷ 9 ∷ 9 ∷ []); port = 53 }

abbrev client : IpAddr
client = IpAddr.v4 (10 ∷ 0 ∷ 0 ∷ 1 ∷ [])

abbrev cached : DashMap Key Entry
cached = assoc key_eq key_eq_iff

abbrev crypto : Ed25519
crypto = record { from_pkcs8 = λ key. none }

abbrev state : ServerState cached clients crypto
state = record {
  zones = zones;
  zone_path = none;
  forward_rules = record { rules = []; default = some upstream };
  forwarder = true;
  recursive = false;
  cache = Cache.new cached 8;
  limiter = record { max_per_window = 5; window = 1000; clients = [] };
  blocklist = empty;
  dns64_prefix = none;
  axfr_acl = record { entries = Cidr.v4 (10 ∷ 0 ∷ 0 ∷ 0 ∷ []) 8 ∷ [] };
  dnssec_keys = none;
  metrics = default;
}

abbrev call : Call
call = record {
  client = client;
  transport = tcp;
  shard = 3;
  limiter_now = 50;
  cache_now = 60;
  unix_now = 70;
}

abbrev pub query : Text → ℕ → DnsPacket
query name qtype = record {
  header = record {
    id = 77;
    flags = 0x0100;
    questions = 1;
    answers = 0;
    authorities = 0;
    additionals = 0;
  };
  questions = record { qname = name; qtype = qtype; qclass = 1 } ∷ [];
  answers = [];
  authorities = [];
  additionals = [];
}

key_tag_from_rdata-word_sum_example :
    key_tag_from_rdata (1 ∷ 2 ∷ 3 ∷ 4 ∷ [])
    ≡ (word_sum (1 ∷ 2 ∷ 3 ∷ 4 ∷ []) + word_sum (1 ∷ 2 ∷ 3 ∷ 4 ∷ []) / 65536) % 65536
key_tag_from_rdata-word_sum_example =
    key_tag_from_rdata-word_sum (1 ∷ 2 ∷ 3 ∷ 4 ∷ [])
      (omega arith, (omega arith, (omega arith, (omega arith, tt)))) (omega arith)

abbrev pub ctx : ForwardCtx
ctx = record {
  request = query se 1;
  raw = [];
  name = se;
  qtype = 1;
  upstream = upstream;
  transport = tcp;
}

-- An empty success.
abbrev no_data : DnsPacket
no_data = record {
  header = record {
    id = 77;
    flags = 0x8180;
    questions = 0;
    answers = 0;
    authorities = 0;
    additionals = 0;
  };
  questions = [];
  answers = [];
  authorities = [];
  additionals = [];
}

abbrev no_data_bytes : List ℕ
no_data_bytes = 0 ∷ 77 ∷ 0x81 ∷ 0x80 ∷ 0 ∷ 0 ∷ 0 ∷ 0 ∷ 0 ∷ 0 ∷ 0 ∷ 0 ∷ []

no_data_parsed : from_bytes no_data_bytes ≡ ok no_data
unfolding from_bytes parse_header parse_questions parse_section read_u16 slice byte_at
no_data_parsed = refl

-- Kept for the default of half a minute.
no_data_kept : cache_ttl no_data ≡ some 30
unfolding cache_ttl is_empty negative_ttl soa_minimum
no_data_kept = refl

abbrev upper_se : Text
upper_se = b'S' ∷ b'e' ∷ []

forward_and_cache-cached_example :
    let (a, t) =
      forward_and_cache cached clients crypto state call ctx 100 101 failed
        (answered no_data_bytes) in
    (a ≡ answered no_data_bytes)
    × ((Cache.get cached t.cache upper_se 1 5000).0 ≡ some no_data_bytes)
unfolding to_lowercase is_recursive text_eq
forward_and_cache-cached_example =
    forward_and_cache-cached cached clients crypto state call ctx 100 101 5000 30 failed
      (answered no_data_bytes) no_data_bytes no_data upper_se (inr (refl, refl, refl))
      no_data_parsed no_data_kept (λ e. cc) (omega arith) refl (omega arith)

-- Two messages that are no queries, which are dropped, and half a length.
abbrev messages : List (List ℕ)
messages = (7 ∷ 7 ∷ []) ∷ [] ∷ []

abbrev relay :
    ForwardCtx → ServerState cached clients crypto → List ℕ × ServerState cached clients crypto
relay c s = (c.raw, s)

abbrev serve_call :
    ℕ × ServerState cached clients crypto
    → List ℕ
    → Served × (ℕ × ServerState cached clients crypto)
serve_call = serve cached clients crypto relay (λ n. call)

handle_dns_stream-answers_example :
    handle_dns_stream serve_call 3 (0, state) (frames messages ++ (0 ∷ []))
    ≡ answer_all serve_call (0, state) messages
handle_dns_stream-answers_example =
    handle_dns_stream-answers serve_call 3 (0, state) messages (0 ∷ [])
      (omega arith, (omega arith, tt)) (omega arith) (omega arith)
