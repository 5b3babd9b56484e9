-- ===== src/Recursive.antt =====
-- src/recursive.rs: the iterative resolver, which walks from the root servers along the delegations.
-- A resolution is a function of the shared state (the delegation cache and the counter of message
-- ids) and of the network, which is not part of the repository: a world that each exchange changes,
-- in which other resolutions may change the shared state while this one waits, and whose clock
-- stands still between exchanges. The semaphore, which only makes a call wait, and the log lines are
-- left out.
pub mod Names
pub mod Messages
pub mod Servers
pub mod Labels
pub mod Flags
pub mod Rule
pub mod Depth
pub mod Glue
pub mod Referral
pub mod Progress
pub mod Replies
use mini_dns.Prelude.{
  ℕ, zero, suc, ◌+◌, ◌*◌, ◌%◌, ◌^◌, Bool, true, false, ◌&&◌, ◌||◌, not, Option, none, some, List,
  [], ◌∷◌, ◌++◌, ltb, leb, ◌==◌, if◌then◌else◌, length, get_elem?, take, drop, min, bit_and, bit_or,
}
use mini_dns.Text.{trim_end_dots, Text, text_eq, is_empty, to_lowercase}
use mini_dns.Net.{IpAddr, SocketAddr}
use mini_dns.DashMap.{DashMap}
use mini_dns.Cache.{second}
use mini_dns.Dns.Error.{Result, ok, err, panic, stuck}
use mini_dns.Dns.Record.{DnsRecord}
use mini_dns.Dns.Packet.{DnsHeader, DnsQuestion, DnsPacket}
use mini_dns.Dns.Parse.Packet.{from_bytes}
use mini_dns.Dns.Encoder.{u16_bytes, to_bytes}
use Messages.{
  Attempt, answered, failed, panicked, query_packet, accept, unframe, accept_bytes, is_truncated,
  relay, synth_servfail,
}
use Servers.{root_servers, Delegation, is_expired, ns_names, ns_ttl, glue}
use Names.{parent, delegation_zone, minimized_qname}

abbrev pub max_delegation_depth : ℕ
max_delegation_depth = 20

pub record Resolver (Map : Type 0) : Type 0 where
  pub delegations : Map
  pub next_id : ℕ

-- An exchange takes the bytes that are sent. Over UDP it gives the datagram that comes back in time,
-- over TCP what the server writes to the stream.
pub record Network (Map : Type 0) : Type 1 where
  pub World : Type 0
  pub now : World → ℕ
  pub udp : SocketAddr → List ℕ → World → Option (List ℕ) × World
  pub tcp : SocketAddr → List ℕ → World → Option (List ℕ) × World
  pub meanwhile : World → Resolver Map → Resolver Map

-- What a turn of the loop does with its reply: return it, go on at the root, or follow a delegation.
pub data Verdict : Type 0 where
  give : Verdict
  restart : Verdict
  descend : Text → Delegation → Verdict

module _ (M : DashMap Text Delegation) (N : Network M.Map) where
  pub record Run : Type 0 where
    pub shared : Resolver M.Map
    pub world : N.World

  -- The unexpired addresses that the cache holds under the names.
  unfoldable pub cached_addrs : List Text → M.Map → ℕ → List SocketAddr
  cached_addrs [] m now = []
  cached_addrs (ns ∷ names) m now =
      let rest = cached_addrs names m now in
      elim (M.get m ns) [
        | none ↦ rest
        | some entry ↦ if is_expired now entry then rest else entry.ns_addrs ++ rest
      ]

  unfoldable pub delegation_addrs : DnsPacket → M.Map → ℕ → List SocketAddr
  delegation_addrs response m now =
      let names = ns_names response.authorities in
      let found = glue names response.additionals in
      if is_empty found then cached_addrs names m now else found

  unfoldable pub extract_delegation : DnsPacket → M.Map → ℕ → Option Delegation
  extract_delegation response m now =
      let names = ns_names response.authorities in
      let addrs = delegation_addrs response m now in
      if is_empty names || is_empty addrs
      then none
      else some (record {
        ns_names = names;
        ns_addrs = addrs;
        expires_at = now + ns_ttl 3600 response.authorities * second;
      })

  -- The run after an exchange that left the world `world`.
  abbrev pub after : Run → N.World → Run
  after r world = record { shared = N.meanwhile world r.shared; world = world }

  unfoldable pub query_one_tcp : List ℕ → SocketAddr → ℕ → Run → Attempt DnsPacket × Run
  query_one_tcp query_bytes server expected_id r =
      let (reply, world) =
        N.tcp server (u16_bytes (length query_bytes % 2 ^ 16) ++ query_bytes) r.world in
      (
        elim reply [ none ↦ failed | some stream ↦ accept_bytes expected_id (unframe stream) ],
        after r world,
      )

  -- A truncated datagram is asked for again over TCP.
  unfoldable pub receive : List ℕ → SocketAddr → ℕ → Option (List ℕ) → Run → Attempt DnsPacket × Run
  receive query_bytes server id none r = (failed, r)
  receive query_bytes server id (some buf) r =
      if is_truncated buf
      then query_one_tcp query_bytes server id r
      else (accept id (from_bytes buf), r)

  -- `fetch_add` of the 16-bit counter.
  abbrev pub take_id : Run → Run
  take_id r = record r { shared = record r.shared { next_id = (r.shared.next_id + 1) % 2 ^ 16 } }

  unfoldable pub query_one : Text → ℕ → SocketAddr → Run → Attempt DnsPacket × Run
  query_one name qtype server r =
      let id = r.shared.next_id in
      let query_bytes = to_bytes (query_packet id name qtype) in
      let (reply, world) = N.udp server query_bytes r.world in
      receive query_bytes server id reply (after (take_id r) world)

  unfoldable pub query_servers : Text → ℕ → List SocketAddr → Run → Attempt DnsPacket × Run
  query_servers name qtype [] r = (failed, r)
  query_servers name qtype (server ∷ servers) r =
      let (attempt, r') = query_one name qtype server r in
      elim attempt [
        | answered response ↦ (answered response, r')
        | failed ↦ query_servers name qtype servers r'
        | panicked ↦ (panicked, r')
      ]

  -- What the loop keeps between its turns.
  pub record Walk : Type 0 where
    pub servers : List SocketAddr
    pub current_zone : Text
    pub run : Run

  abbrev pub at_root : Run → Walk
  at_root r = record { servers = root_servers; current_zone = []; run = r }

  unfoldable pub judge : Text → Text → DnsPacket → Run → Verdict
  judge name query_name response r =
      let rcode = bit_and response.header.flags 0x000F in
      let full = if text_eq query_name name then give else restart in
      if not (is_empty response.answers) || rcode == 3
      then full
      else if rcode == 0
      then (elim (extract_delegation response r.shared.delegations (N.now r.world)) [
        | some d ↦ descend (delegation_zone query_name) d
        | none ↦ full
      ])
      else give

  -- The insertion of the delegation, and the walk that follows it.
  unfoldable pub descend_to : Text → Delegation → Run → Walk
  descend_to zone d r = record {
    servers = d.ns_addrs;
    current_zone = zone;
    run = record r {
      shared = record r.shared { delegations = M.insert zone d r.shared.delegations };
    };
  }

  -- The loop, with the turns that are left of `MAX_DELEGATION_DEPTH`.
  unfoldable pub walk : ℕ → Text → ℕ → ℕ → Walk → Attempt (List ℕ) × Run
  walk zero name qtype client_id w = (answered (synth_servfail name qtype client_id), w.run)
  walk (suc turns) name qtype client_id w =
      let query_name = minimized_qname name w.current_zone in
      let (attempt, r) = query_servers query_name qtype w.servers w.run in
      elim attempt [
        | failed ↦ (answered (synth_servfail name qtype client_id), r)
        | panicked ↦ (panicked, r)
        | answered response ↦ elim (judge name query_name response r) [
          | give ↦ (answered (to_bytes (relay client_id response)), r)
          | restart ↦ walk turns name qtype client_id (at_root r)
          | descend zone d ↦ walk turns name qtype client_id (descend_to zone d r)
        ]
      ]

  -- The servers of a cached delegation of the parent domain, unless it has expired and is removed.
  unfoldable pub start : Text → Run → Walk
  start name r = elim (M.get r.shared.delegations (parent name)) [
    | none ↦ at_root r
    | some entry ↦
        if is_expired (N.now r.world) entry
        then at_root (record r {
          shared = record r.shared { delegations = M.remove (parent name) r.shared.delegations };
        })
        else record { servers = entry.ns_addrs; current_zone = []; run = r }
  ]

  unfoldable pub resolve : Text → ℕ → ℕ → Run → Attempt (List ℕ) × Run
  resolve query qtype client_id r =
      let name = trim_end_dots (to_lowercase query) in
      walk max_delegation_depth name qtype client_id (start name r)
