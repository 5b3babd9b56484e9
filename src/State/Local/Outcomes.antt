-- ===== src/State/Local/Outcomes.antt =====
-- What the second half of `resolve_local` of src/state.rs may come to: a cached reply, an answer of the
-- zones, or a query to forward.
use mini_dns.Prelude.{
  ℕ, ◌≡◌, ◌≢◌, refl, ap, ◌⊎◌, inl, inr, Bool, true, false, Option, none, some, List, [], ◌∷◌, arith,
  bit_and, bit_or, Bool-cases, if◌then◌else◌,
}
use mini_dns.Text.{Text, to_lowercase}
use mini_dns.Net.{IpAddr, SocketAddr}
use mini_dns.DashMap.{DashMap}
use mini_dns.Cache.{Key, Entry}
use mini_dns.Cache
use mini_dns.RateLimit.{Window}
use mini_dns.Metrics.{Counter}
use mini_dns.Dnssec.{Ed25519}
use mini_dns.Dns.Error.{Result, ok, err, panic, stuck}
use mini_dns.Dns.Packet.{DnsQuestion, DnsPacket}
use mathlib.Core.Path.{subst}
use mini_dns.Dns.Parse.Packet.{from_bytes}
use mini_dns.Dns.Parse.Packet.Total.{from_bytes-ne-stuck}
use mini_dns.Dns.Encoder.{to_udp_bytes}
use mini_dns.State.{
  Transport, udp, tcp, align_edns, with_id, patch_transaction_id, encode, replay, flag_ra,
  rcode_nxdomain, flag_rd,
}
use mini_dns.State.Local.{
  ForwardCtx, Resolution, ready, forward, drop, panicked, Call, replayed, ServerState, inc,
  recursion_available, local_response, local_rcode, wants_upstream, choose_upstream, answer_local,
  forward_to, look_beyond, resolve_question,
}

-- A replay fails only by a panic of the parser, and over UDP.
abbrev Panics : List ℕ → Transport → Result (List ℕ) → Type 0
Panics stored t (ok bytes) = Unit
Panics stored t (err x) = ⊥
Panics stored t panic = (t ≡ udp) × (from_bytes stored ≡ panic)
Panics stored t stuck = ⊥

replay-Panics :
    (stored : List ℕ) (request : DnsPacket) (t : Transport) (m : Result (List ℕ))
    → replay stored request t ≡ m
    → Panics stored t m
unfolding replay
replay-Panics stored request tcp m e = subst (Panics stored tcp) e tt
replay-Panics stored request udp m e = subst (Panics stored udp) e (parsed (from_bytes stored) refl)
  where
    parsed :
        (p : Result DnsPacket)
        → from_bytes stored ≡ p
        → Panics stored udp (elim p [
          | ok packet ↦ ok (to_udp_bytes (align_edns (with_id packet request.header.id) request))
          | err x ↦ ok (patch_transaction_id stored request.header.id)
          | panic ↦ panic
          | stuck ↦ stuck
        ])
    parsed (ok packet) e' = tt
    parsed (err x) e' = tt
    parsed panic e' = (refl, e')
    parsed stuck e' = from_bytes-ne-stuck stored e'

module _ (CM : DashMap Key Entry) (LM : DashMap IpAddr Window) (crypto : Ed25519) where
  abbrev pub State : Type 0
  State = ServerState CM LM crypto

  -- The name is unknown to the zones, the client asked for recursion, and it is offered.
  abbrev pub Wants : State → DnsPacket → Type 0
  Wants s request =
      (local_rcode CM LM crypto s request ≡ rcode_nxdomain)
      × (bit_and request.header.flags flag_rd ≢ 0)
      × (recursion_available CM LM crypto s ≡ true)

  abbrev pub cached : State → Call → DnsQuestion → Option (List ℕ)
  cached s c q = (Cache.get CM s.cache (to_lowercase q.qname) q.qtype c.cache_now).0

  -- A query that is forwarded: to whom, and what is kept of it.
  abbrev pub Forwards : State → Call → List ℕ → DnsPacket → ForwardCtx → Type 0
  Forwards s c req request ctx =
      (q : DnsQuestion) × (rest : List DnsQuestion) × (request.questions ≡ q ∷ rest)
      × Wants s request
      × (cached s c q ≡ none)
      × (ctx.request ≡ request)
      × (ctx.raw ≡ req)
      × (ctx.name ≡ to_lowercase q.qname)
      × (ctx.qtype ≡ q.qtype)
      × (ctx.transport ≡ c.transport)
      × (choose_upstream CM LM crypto s ctx.name ≡ some ctx.upstream)

  -- No upstream is to be asked: recursion is not wanted, there is no question, or the name is neither in
  -- the cache nor has it an upstream.
  abbrev pub Settled : State → Call → DnsPacket → Type 0
  Settled s c request =
      ¬ Wants s request
      ⊎ (request.questions ≡ [])
      ⊎ ((q : DnsQuestion) × (rest : List DnsQuestion) × (request.questions ≡ q ∷ rest)
          × (cached s c q ≡ none)
          × (choose_upstream CM LM crypto s (to_lowercase q.qname) ≡ none))

  abbrev pub with_ra : DnsPacket → DnsPacket
  with_ra p = record p { header = record p.header { flags = bit_or p.header.flags flag_ra } }

  -- The answer of the zones; the RA bit is set only where recursion is offered.
  abbrev pub FromZones : State → Call → DnsPacket → List ℕ → Type 0
  FromZones s c request bytes =
      (bytes ≡ encode (local_response CM LM crypto s c request) c.transport)
      ⊎ ((recursion_available CM LM crypto s ≡ true)
          × (bytes ≡ encode (with_ra (local_response CM LM crypto s c request)) c.transport))

  -- A reply of the cache, or the answer of the zones.
  abbrev pub Answers : State → Call → DnsPacket → List ℕ → Type 0
  Answers s c request bytes =
      ((q : DnsQuestion) × (rest : List DnsQuestion) × (stored : List ℕ) × (request.questions
          ≡ q ∷ rest)
        × Wants s request
        × (cached s c q ≡ some stored)
        × (replay stored request c.transport ≡ ok bytes))
      ⊎ (Settled s c request × FromZones s c request bytes)

  abbrev pub Resolves : State → Call → List ℕ → DnsPacket → Resolution → Type 0
  Resolves s c req request (ready bytes) = Answers s c request bytes
  Resolves s c req request (forward ctx) = Forwards s c req request ctx
  Resolves s c req request drop = ⊥
  Resolves s c req request panicked =
      (q : DnsQuestion) × (rest : List DnsQuestion) × (stored : List ℕ) × (request.questions
        ≡ q ∷ rest)
      × Wants s request
      × (cached s c q ≡ some stored)
      × (c.transport ≡ udp)
      × (from_bytes stored ≡ panic)

  wants→Wants :
      (s : State) (request : DnsPacket)
      → wants_upstream CM LM crypto s request ≡ true
      → Wants s request
  unfolding wants_upstream
  wants→Wants s request h = (ground arith, (λ e. ground arith), ground arith)

  Wants→wants :
      (s : State) (request : DnsPacket)
      → wants_upstream CM LM crypto s request ≡ false
      → ¬ Wants s request
  unfolding wants_upstream
  Wants→wants s request h w = ground arith

  answer_local-Resolves :
      (s : State) (c : Call) (req : List ℕ) (request : DnsPacket)
      → Settled s c request
      → Resolves s c req request (answer_local CM LM crypto s c request).0
  unfolding answer_local
  answer_local-Resolves s c req request done =
      inr (done, offered (recursion_available CM LM crypto s) refl)
    where
      offered :
          (b : Bool)
          → recursion_available CM LM crypto s ≡ b
          → let response = local_response CM LM crypto s c request in
            FromZones s c request (encode (if b then with_ra response else response) c.transport)
      offered true e = inr (e, refl)
      offered false e = inl refl

  replayed-Resolves :
      (s : State) (c : Call) (req : List ℕ) (request : DnsPacket) (q : DnsQuestion)
      (rest : List DnsQuestion) (stored : List ℕ) (m : Result (List ℕ))
      → request.questions ≡ q ∷ rest
      → Wants s request
      → cached s c q ≡ some stored
      → replay stored request c.transport ≡ m
      → Resolves s c req request (replayed m)
  unfolding replayed
  replayed-Resolves s c req request q rest stored (ok bytes) e w hit r =
      inl (q, rest, stored, e, w, hit, r)
  replayed-Resolves s c req request q rest stored (err x) e w hit r =
      absurd (replay-Panics stored request c.transport (err x) r)
  replayed-Resolves s c req request q rest stored panic e w hit r =
      let (datagram, bad) = replay-Panics stored request c.transport panic r in
      (q, rest, stored, e, w, hit, datagram, bad)
  replayed-Resolves s c req request q rest stored stuck e w hit r =
      absurd (replay-Panics stored request c.transport stuck r)

  forward_to-Resolves :
      (s s' : State) (c : Call) (req : List ℕ) (request : DnsPacket) (q : DnsQuestion)
      (rest : List DnsQuestion) (o : Option SocketAddr)
      → request.questions ≡ q ∷ rest
      → Wants s request
      → cached s c q ≡ none
      → local_response CM LM crypto s' c request ≡ local_response CM LM crypto s c request
      → choose_upstream CM LM crypto s (to_lowercase q.qname) ≡ o
      → Resolves s c req request
          (forward_to CM LM crypto s' c request req (to_lowercase q.qname) q.qtype o).0
  unfolding forward_to
  forward_to-Resolves s s' c req request q rest none e w miss same up =
      inr (inr (inr (q, rest, e, miss, up)), inl (ap (λ p. encode p c.transport) same))
  forward_to-Resolves s s' c req request q rest (some upstream) e w miss same up =
      (q, rest, e, w, miss, refl, refl, refl, refl, refl, up)

  look_beyond-Resolves :
      (s : State) (c : Call) (req : List ℕ) (request : DnsPacket) (q : DnsQuestion)
      (rest : List DnsQuestion)
      → request.questions ≡ q ∷ rest
      → Wants s request
      → Resolves s c req request
          (look_beyond CM LM crypto s c request req (to_lowercase q.qname) q.qtype).0
  unfolding look_beyond local_response choose_upstream
  look_beyond-Resolves s c req request q rest e w =
      let found = Cache.get CM s.cache name q.qtype c.cache_now in
      beyond (record s { cache = found.1 }) found.0 refl refl refl
    where
      name : Text
      name = to_lowercase q.qname

      beyond :
          (s' : State) (o : Option (List ℕ))
          → cached s c q ≡ o
          → local_response CM LM crypto s' c request ≡ local_response CM LM crypto s c request
          → choose_upstream CM LM crypto s name ≡ choose_upstream CM LM crypto s' name
          → Resolves s c req request
              (elim o as (λ _. Resolution × State) [
                | some stored ↦ (
                  replayed (replay stored request c.transport),
                  inc CM LM crypto Counter.cache_hits c s',
                )
                | none ↦
                    forward_to CM LM crypto s' c request req name q.qtype
                      (choose_upstream CM LM crypto s' name)
              ]).0
      beyond s' none miss same up = forward_to-Resolves s s' c req request q rest _ e w miss same up
      beyond s' (some stored) hit same up =
          replayed-Resolves s c req request q rest stored _ e w hit refl

  pub resolve_question-Resolves :
      (s : State) (c : Call) (req : List ℕ) (request : DnsPacket) (qs : List DnsQuestion)
      → request.questions ≡ qs
      → Resolves s c req request (resolve_question CM LM crypto s c request req qs).0
  unfolding resolve_question
  resolve_question-Resolves s c req request [] e =
      answer_local-Resolves s c req request (inr (inl e))
  resolve_question-Resolves s c req request (q ∷ qs) e =
      elim (Bool-cases (wants_upstream CM LM crypto s request)) [
        | inl beyond ↦
            rw beyond (look_beyond-Resolves s c req request q qs e (wants→Wants s request beyond))
        | inr here ↦
            rw here (answer_local-Resolves s c req request (inl (Wants→wants s request here)))
      ]
