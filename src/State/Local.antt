-- ===== src/State/Local.antt =====
-- `ServerState` of src/state.rs and the synchronous pass over a query, `resolve_local`. The state is
-- passed on explicitly; the forwarder is there or not, and so is the recursive resolver. A call reads
-- three clocks: that of the limiter, that of the cache, and the seconds of the Unix time.
pub mod Outcomes
pub mod Branches
use mini_dns.Prelude.{
  ℕ, ◌+◌, ◌%◌, ◌^◌, Bool, true, false, ◌&&◌, ◌||◌, not, Option, none, some, List, [], ◌∷◌, ◌==◌,
  if◌then◌else◌, length, bit_and, bit_or,
}
use mini_dns.Text.{Text, to_lowercase}
use mini_dns.Net.{IpAddr, SocketAddr}
use mini_dns.DashMap.{DashMap}
use mini_dns.Acl.{Acl}
use mini_dns.Cache.{Key, Entry, Cache}
use mini_dns.Cache
use mini_dns.RateLimit.{Window, RateLimiter, allow}
use mini_dns.Blocklist.{Blocklist, is_active, is_blocked}
use mini_dns.Zones.{ZoneSet, ForwardRules, match_name, is_enabled}
use mini_dns.Metrics.{Metrics, Counter, bump}
use mini_dns.Dnssec.{DnssecKeys, Ed25519}
use mini_dns.Dns.Error.{Result, ok, err, panic, stuck}
use mini_dns.Dns.Record.{DnsRecord, type_aaaa}
use mini_dns.Dns.Packet.{DnsHeader, DnsQuestion, DnsPacket}
use mini_dns.Dns.Parse.Packet.{from_bytes}
use mini_dns.Dns.Resolver.{build_response}
use mini_dns.State.{Transport, synth_response, encode, replay, rcode_nxdomain, flag_rd, flag_ra}
use mini_dns.State.Dns64.{apply_dns64}
use mini_dns.State.Signing.{apply_dnssec}

pub record ForwardCtx : Type 0 where
  pub request : DnsPacket
  pub raw : List ℕ
  pub name : Text
  pub qtype : ℕ
  pub upstream : SocketAddr
  pub transport : Transport

-- `panicked` is a panic of the parser, which ends the call.
pub data Resolution : Type 0 where
  ready : List ℕ → Resolution
  forward : ForwardCtx → Resolution
  drop : Resolution
  panicked : Resolution

-- The upstream that stands for the recursive resolver: 0.0.0.0, port 0.
abbrev pub sentinel : SocketAddr
sentinel = record { ip = IpAddr.v4 (0 ∷ 0 ∷ 0 ∷ 0 ∷ []); port = 0 }

-- Who asks, over what, and what the clocks say; with the counter shard of the thread.
pub record Call : Type 0 where
  pub client : IpAddr
  pub transport : Transport
  pub shard : ℕ
  pub limiter_now : ℕ
  pub cache_now : ℕ
  pub unix_now : ℕ

-- What `replay` comes to.
unfoldable pub replayed : Result (List ℕ) → Resolution
replayed (ok bytes) = ready bytes
replayed (err e) = panicked
replayed panic = panicked
replayed stuck = panicked

unfoldable pub with_dns64 : Option (List ℕ) → ZoneSet → List DnsQuestion → DnsPacket → DnsPacket
with_dns64 none zones questions response = response
with_dns64 (some prefix) zones [] response = response
with_dns64 (some prefix) zones (q ∷ qs) response =
    if q.qtype == type_aaaa then apply_dns64 response zones q.qname prefix else response

unfoldable pub with_dnssec :
    Ed25519 → Option DnssecKeys → ZoneSet → List DnsQuestion → ℕ → DnsPacket → DnsPacket
with_dnssec crypto none zones questions unix_now response = response
with_dnssec crypto (some keys) zones [] unix_now response = response
with_dnssec crypto (some keys) zones (q ∷ qs) unix_now response =
    apply_dnssec crypto keys response zones q.qname q.qtype unix_now

module _ (CM : DashMap Key Entry) (LM : DashMap IpAddr Window) (crypto : Ed25519) where
  pub record ServerState : Type 0 where
    pub zones : ZoneSet
    pub zone_path : Option Text
    pub forward_rules : ForwardRules
    pub forwarder : Bool
    pub recursive : Bool
    pub cache : Cache CM.Map
    pub limiter : RateLimiter LM.Map
    pub blocklist : Blocklist
    pub dns64_prefix : Option (List ℕ)
    pub axfr_acl : Acl
    pub dnssec_keys : Option DnssecKeys
    pub metrics : Metrics

  abbrev pub inc : Counter → Call → ServerState → ServerState
  inc select c s = record s { metrics = bump select c.shard s.metrics }

  unfoldable pub recursion_available : ServerState → Bool
  recursion_available s = is_enabled s.forward_rules || s.recursive

  -- The question asked is on the blocklist.
  unfoldable pub is_blocked_question : Blocklist → List DnsQuestion → Bool
  is_blocked_question list [] = false
  is_blocked_question list (q ∷ qs) = is_active list && is_blocked list q.qname

  -- The answer of the zones, signed, and with synthesized AAAA records.
  unfoldable pub local_response : ServerState → Call → DnsPacket → DnsPacket
  local_response s c request = with_dns64 s.dns64_prefix s.zones request.questions (
      with_dnssec crypto s.dnssec_keys s.zones request.questions c.unix_now
        (build_response request s.zones))

  abbrev pub local_rcode : ServerState → DnsPacket → ℕ
  local_rcode s request = bit_and (build_response request s.zones).header.flags 0x000F

  -- The name is unknown here, recursion is offered, and the client asked for it.
  unfoldable pub wants_upstream : ServerState → DnsPacket → Bool
  wants_upstream s request =
      local_rcode s request == rcode_nxdomain
      && (not (bit_and request.header.flags flag_rd == 0) && recursion_available s)

  -- Where a name that the cache does not hold is asked for.
  unfoldable pub choose_upstream : ServerState → Text → Option SocketAddr
  choose_upstream s name = elim (match_name s.forward_rules name) [
    | some upstream ↦ some upstream
    | none ↦ if s.recursive then some sentinel else none
  ]

  unfoldable pub answer_local : ServerState → Call → DnsPacket → Resolution × ServerState
  answer_local s c request =
      let response = local_response s c request in
      let flags = response.header.flags in
      let offered = record response {
        header = record response.header { flags = bit_or flags flag_ra };
      } in
      (
        ready (encode (if recursion_available s then offered else response) c.transport),
        inc Counter.authoritative c s,
      )

  unfoldable pub forward_to :
      ServerState
      → Call
      → DnsPacket
      → List ℕ
      → Text
      → ℕ
      → Option SocketAddr
      → Resolution × ServerState
  forward_to s c request req name qtype none =
      (ready (encode (local_response s c request) c.transport), inc Counter.authoritative c s)
  forward_to s c request req name qtype (some upstream) = (
    forward (record {
      request = request;
      raw = req;
      name = name;
      qtype = qtype;
      upstream = upstream;
      transport = c.transport;
    }),
    s,
  )

  -- An unknown name: the cache, then the rules, then the recursive resolver.
  unfoldable pub look_beyond :
      ServerState → Call → DnsPacket → List ℕ → Text → ℕ → Resolution × ServerState
  look_beyond s c request req name qtype =
      let (hit, cache) = Cache.get CM s.cache name qtype c.cache_now in
      let s' = record s { cache = cache } in
      elim hit [
        | some cached ↦ (replayed (replay cached request c.transport), inc Counter.cache_hits c s')
        | none ↦ forward_to s' c request req name qtype (choose_upstream s' name)
      ]

  unfoldable pub resolve_question :
      ServerState → Call → DnsPacket → List ℕ → List DnsQuestion → Resolution × ServerState
  resolve_question s c request req [] = answer_local s c request
  resolve_question s c request req (q ∷ qs) =
      if wants_upstream s request
      then look_beyond s c request req (to_lowercase q.qname) q.qtype
      else answer_local s c request

  unfoldable pub resolve_request :
      ServerState → Call → List ℕ → DnsPacket → Resolution × ServerState
  resolve_request s c req request =
      if is_blocked_question s.blocklist request.questions
      then (
        ready (encode (synth_response request [] rcode_nxdomain) c.transport),
        inc Counter.blocked c s,
      )
      else resolve_question s c request req request.questions

  unfoldable pub resolve_parsed :
      ServerState → Call → List ℕ → Result DnsPacket → Resolution × ServerState
  resolve_parsed s c req (ok request) = resolve_request s c req request
  resolve_parsed s c req (err e) = (drop, inc Counter.errors c s)
  resolve_parsed s c req panic = (panicked, s)
  resolve_parsed s c req stuck = (panicked, s)

  unfoldable pub resolve_local : ServerState → Call → List ℕ → Resolution × ServerState
  resolve_local s c req =
      let s' = inc Counter.total c s in
      let (allowed, limiter) = allow LM s'.limiter c.client c.limiter_now in
      let s'' = record s' { limiter = limiter } in
      if allowed
      then resolve_parsed s'' c req (from_bytes req)
      else (drop, inc Counter.rate_limited c s'')
