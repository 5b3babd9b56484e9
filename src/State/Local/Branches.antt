-- ===== src/State/Local/Branches.antt =====
-- What `resolve_local` of src/state.rs does with a query, on every branch.
use mini_dns.Prelude.{ℕ, ◌≡◌, ◌⊎◌, Bool, true, false, List, []}
use mini_dns.Net.{IpAddr}
use mini_dns.DashMap.{DashMap}
use mini_dns.Cache.{Key, Entry}
use mini_dns.RateLimit.{Window, RateLimiter}
use mini_dns.Metrics.{Metrics}
use mini_dns.Dnssec.{Ed25519}
use mini_dns.Dns.Error.{Result, ok, err, panic, stuck}
use mini_dns.Dns.Packet.{DnsPacket}
use mini_dns.State.{synth_response, encode, rcode_nxdomain}
use mini_dns.State.Local.{Resolution, ready, drop, panicked, Call, ServerState, is_blocked_question}
use mini_dns.State.Local.Outcomes.{Resolves}

module _ (CM : DashMap Key Entry) (LM : DashMap IpAddr Window) (crypto : Ed25519) where
  abbrev pub State : Type 0
  State = ServerState CM LM crypto

  -- What a query comes to whose message is parsed: NXDOMAIN for a blocked name, and else the rest.
  abbrev pub Blocks : State → Call → List ℕ → DnsPacket → Resolution → Type 0
  Blocks s c req request r =
      ((is_blocked_question CM LM crypto s.blocklist request.questions ≡ true)
        × (r ≡ ready (encode (synth_response request [] rcode_nxdomain) c.transport)))
      ⊎ ((is_blocked_question CM LM crypto s.blocklist request.questions ≡ false)
          × Resolves CM LM crypto s c req request r)

  -- What a query comes to, by what the limiter says and what the parser makes of the message.
  abbrev pub Handles : State → Call → List ℕ → Bool → Result DnsPacket → Resolution → Type 0
  Handles s c req false m r = r ≡ drop
  Handles s c req true (ok request) r = Blocks s c req request r
  Handles s c req true (err e) r = r ≡ drop
  Handles s c req true panic r = r ≡ panicked
  Handles s c req true stuck r = ⊥

  -- The limiter and the counters play no part in it.
  abbrev counted : State → RateLimiter LM.Map → Metrics → State
  counted s limiter metrics = record s { limiter = limiter; metrics = metrics }
