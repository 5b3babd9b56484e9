-- ===== src/State/Upstream.antt =====
-- `forward_and_cache` of src/state.rs: the query to the upstream, and what the cache keeps of its
-- reply. What the recursive resolver and the forwarder come to is an argument each: `resolve` of
-- Recursive and `forward_to` of Forwarder. The cache reads its clock twice.
use mini_dns.Prelude.{
  ℕ, ◌+◌, ◌*◌, ◌<◌, ◌≡◌, ◌≢◌, refl, ◌⊎◌, inl, inr, Bool, true, false, ◌&&◌, Option, none, some,
  List, [], ◌∷◌, ◌==◌, if◌then◌else◌,
}
use mini_dns.Text.{Text, text_eq, to_lowercase}
use mini_dns.Net.{IpAddr, SocketAddr}
use mini_dns.DashMap.{DashMap}
use mini_dns.Cache.{Key, Entry, second}
use mini_dns.Cache
use mini_dns.Cache.Contents
use mini_dns.RateLimit.{Window}
use mini_dns.Metrics.{Counter}
use mini_dns.Dnssec.{Ed25519}
use mini_dns.Dns.Error.{Result, ok, err, panic, stuck}
use mini_dns.Dns.Packet.{DnsPacket}
use mini_dns.Dns.Parse.Packet.{from_bytes}
use mini_dns.Dns.Encoder.{to_bytes}
use mini_dns.Recursive.Messages.{Attempt, answered, failed, panicked}
use mini_dns.State.{synth_response, cache_ttl}
use mini_dns.State.Local.{ForwardCtx, Call, ServerState, inc}
use mini_dns.State.Flight.{rcode_servfail}

-- The upstream is 0.0.0.0 with port 0.
unfoldable pub is_recursive : SocketAddr → Bool
is_recursive upstream = elim upstream.ip [
  | IpAddr.v4 octets ↦ text_eq octets (0 ∷ 0 ∷ 0 ∷ 0 ∷ []) && upstream.port == 0
  | IpAddr.v6 octets ↦ false
]

module _ (CM : DashMap Key Entry) (LM : DashMap IpAddr Window) (crypto : Ed25519) where
  abbrev pub State : Type 0
  State = ServerState CM LM crypto

  unfoldable pub store_reply : State → ForwardCtx → List ℕ → (now now' : ℕ) → Option ℕ → State
  store_reply s ctx bytes now now' none = s
  store_reply s ctx bytes now now' (some ttl) = record s {
    cache = Cache.insert CM s.cache ctx.name ctx.qtype bytes ttl now now';
  }

  -- A reply is relayed as it is; what parses may be kept.
  unfoldable pub keep_reply :
      State → ForwardCtx → List ℕ → (now now' : ℕ) → Result DnsPacket → Attempt (List ℕ) × State
  keep_reply s ctx bytes now now' (ok p) =
      (answered bytes, store_reply s ctx bytes now now' (cache_ttl p))
  keep_reply s ctx bytes now now' (err e) = (answered bytes, s)
  keep_reply s ctx bytes now now' panic = (panicked, s)
  keep_reply s ctx bytes now now' stuck = (panicked, s)

  unfoldable pub settle :
      State → Call → ForwardCtx → (now now' : ℕ) → Attempt (List ℕ) → Attempt (List ℕ) × State
  settle s c ctx now now' (answered bytes) = keep_reply s ctx bytes now now' (from_bytes bytes)
  settle s c ctx now now' failed = (
    answered (to_bytes (synth_response ctx.request [] rcode_servfail)),
    inc CM LM crypto Counter.errors c s,
  )
  settle s c ctx now now' panicked = (panicked, s)

  -- `expect` panics where the resolver or the forwarder is missing.
  unfoldable pub forward_and_cache :
      State
      → Call
      → ForwardCtx
      → (now now' : ℕ) → (recursive forwarded : Attempt (List ℕ)) → Attempt (List ℕ) × State
  forward_and_cache s c ctx now now' recursive forwarded =
      let s' = inc CM LM crypto Counter.forwarded c s in
      if is_recursive ctx.upstream
      then (if s.recursive then settle s' c ctx now now' recursive else (panicked, s))
      else if s.forwarder
      then settle s' c ctx now now' forwarded
      else (panicked, s)

  -- The upstream that is asked, and what it comes to.
  abbrev pub Asks :
      State → ForwardCtx → (recursive forwarded : Attempt (List ℕ)) → Attempt (List ℕ) → Type 0
  Asks s ctx recursive forwarded a =
      ((is_recursive ctx.upstream ≡ true) × (s.recursive ≡ true) × (a ≡ recursive))
      ⊎ ((is_recursive ctx.upstream ≡ false) × (s.forwarder ≡ true) × (a ≡ forwarded))

  asked :
      (s : State) (c : Call) (ctx : ForwardCtx) (now now' : ℕ)
      (recursive forwarded a : Attempt (List ℕ))
      → Asks s ctx recursive forwarded a
      → forward_and_cache s c ctx now now' recursive forwarded
        ≡ settle (inc CM LM crypto Counter.forwarded c s) c ctx now now' a
  unfolding forward_and_cache
  asked s c ctx now now' recursive forwarded a (inl (u, r, e)) = rw (u, r, e) refl
  asked s c ctx now now' recursive forwarded a (inr (u, r, e)) = rw (u, r, e) refl

  -- Once an upstream has given a reply that parses and may be kept for some seconds, that reply is
  -- relayed as it is, and a lookup for the name, in any case of letters, and type finds it until that
  -- time is over.
  pub forward_and_cache-cached :
      (s : State) (c : Call) (ctx : ForwardCtx) (now now' later ttl : ℕ)
      (recursive forwarded : Attempt (List ℕ)) (bytes : List ℕ) (p : DnsPacket) (name : Text)
      → Asks s ctx recursive forwarded (answered bytes)
      → from_bytes bytes ≡ ok p
      → cache_ttl p ≡ some ttl
      → bytes ≢ []
      → ttl ≢ 0
      → to_lowercase name ≡ to_lowercase ctx.name
      → later < now' + ttl * second
      → let (a, t) = forward_and_cache s c ctx now now' recursive forwarded in
        (a ≡ answered bytes) × ((Cache.get CM t.cache name ctx.qtype later).0 ≡ some bytes)
  unfolding settle keep_reply store_reply
  forward_and_cache-cached s c ctx now now' later ttl recursive forwarded bytes p name asks parsed
        keep full some_time same early =
      let s' = inc CM LM crypto Counter.forwarded c s in
      let stored =
        Contents.get-insert CM s'.cache ctx.name name ctx.qtype bytes ttl now now' later full
          some_time same early in
      rw
        (
          asked s c ctx now now' recursive forwarded (answered bytes) asks,
          parsed,
          keep,
          store_reply,
        )
        (refl, stored)
