-- ===== src/Recursive/Referral.antt =====
-- Where the addresses of a delegation come from in `extract_delegation` of src/recursive.rs, and for
-- how long it is kept.
use mini_dns.Prelude.{
  ap, sym, ◌∙◌, Option, none, true, ℕ, ◌+◌, ◌*◌, ◌≤◌, ◌<◌, ◌≡◌, refl, ◌⊎◌, inl, inr, false, some,
  List, [], ◌∷◌, arith, Bool-cases, Option-cases,
}
use mathlib.Core.Path.{subst}
use mini_dns.Text.{Text, is_empty, is_empty_iff}
use mini_dns.Net.{SocketAddr}
use mini_dns.DashMap.{DashMap}
use mini_dns.Cache.{second}
use mini_dns.LongestFirst.{In, In-append, In-left, In-right}
use mini_dns.Dns.Record.{DnsRecord}
use mini_dns.Dns.Packet.{DnsPacket}
use mini_dns.Recursive.Servers.{Delegation, is_expired, ns_names, glue}
use mini_dns.Recursive.{Network, cached_addrs, delegation_addrs, extract_delegation}
use mini_dns.Recursive.Glue.{
  Servers, IsGlue, ns_names-Servers, glue-IsGlue, IsGlue-glue, ns_ttl_le, ns_ttl_least,
}

some_element : (xs : List SocketAddr) → is_empty xs ≡ false → (x : SocketAddr) × In x xs
unfolding is_empty
some_element [] h = absurd (ground arith)
some_element (x ∷ xs) h = (x, inl refl)

module _ (M : DashMap Text Delegation) (N : Network M.Map) where
  -- An address of an unexpired entry of the delegation cache, under the name of one of the servers.
  abbrev pub IsCached : List DnsRecord → M.Map → ℕ → SocketAddr → Type 0
  IsCached authorities m now addr =
      (domain : Text) × (ns : Text) × (ttl : ℕ) × (entry : Delegation) × In
        (DnsRecord.ns domain ns ttl) authorities
      × (M.get m ns ≡ some entry)
      × (now < entry.expires_at)
      × In addr entry.ns_addrs

  later-IsCached :
      (r : DnsRecord) (rs : List DnsRecord) (m : M.Map) (now : ℕ) (addr : SocketAddr)
      → IsCached rs m now addr
      → IsCached (r ∷ rs) m now addr
  later-IsCached r rs m now addr (domain, ns, ttl, entry, i, hit, live, at) =
      (domain, ns, ttl, entry, inr i, hit, live, at)

  cached_addrs-IsCached :
      (rs : List DnsRecord) (m : M.Map) (now : ℕ) (addr : SocketAddr)
      → In addr (cached_addrs M N (ns_names rs) m now)
      → IsCached rs m now addr
  unfolding cached_addrs ns_names
  cached_addrs-IsCached [] m now addr i = elim i [ ]
  cached_addrs-IsCached (DnsRecord.ns domain ns ttl ∷ rs) m now addr i =
      let rest = λ (j : In addr (cached_addrs M N (ns_names rs) m now)).
        later-IsCached (DnsRecord.ns domain ns ttl) rs m now addr
          (cached_addrs-IsCached rs m now addr j) in
      elim (Option-cases (M.get m ns)) [
        | inl missing ↦ rest (rw (missing, cached_addrs) at i)
        | inr (entry, hit) ↦ elim (Bool-cases (is_expired now entry)) [
          | inl late ↦ rest (rw (hit, late, cached_addrs) at i)
          | inr live ↦ elim (In-append addr entry.ns_addrs _ (rw (hit, live, cached_addrs) at i)) [
            | inl at ↦ (domain, ns, ttl, entry, inl refl, hit, ground arith, at)
            | inr j ↦ rest j
          ]
        ]
      ]
  cached_addrs-IsCached (r ∷ rs) m now addr i =
      later-IsCached r rs m now addr (cached_addrs-IsCached rs m now addr i)

  In-cached_addrs :
      (rs : List DnsRecord) (m : M.Map) (now : ℕ) (addr : SocketAddr) (domain server : Text)
      (ttl : ℕ) (entry : Delegation)
      → In (DnsRecord.ns domain server ttl) rs
      → M.get m server ≡ some entry
      → now < entry.expires_at
      → In addr entry.ns_addrs
      → In addr (cached_addrs M N (ns_names rs) m now)
  unfolding cached_addrs ns_names
  In-cached_addrs [] m now addr domain server ttl entry i hit live at = elim i [ ]
  In-cached_addrs (DnsRecord.ns d n t ∷ rs) m now addr domain server ttl entry (inl h) hit live at =
      let written : server ≡ n = cc in
      let found : M.get m n ≡ some entry = ap (M.get m) (sym written) ∙ hit in
      let fresh : is_expired now entry ≡ false = ground arith in
      rw (found, fresh, cached_addrs) (In-left addr entry.ns_addrs _ at)
  In-cached_addrs (DnsRecord.ns d n t ∷ rs) m now addr domain server ttl entry (inr i) hit live at =
      let rest = In-cached_addrs rs m now addr domain server ttl entry i hit live at in
      elim (Option-cases (M.get m n)) [
        | inl missing ↦ rw (missing, cached_addrs) rest
        | inr (other, found) ↦ elim (Bool-cases (is_expired now other)) [
          | inl late ↦ rw (found, late, cached_addrs) rest
          | inr fresh ↦ rw (found, fresh, cached_addrs) (In-right addr other.ns_addrs _ rest)
        ]
      ]
  In-cached_addrs (DnsRecord.opt size ∷ rs) m now addr domain server ttl entry (inl h) hit live at =
      cc
  In-cached_addrs (r ∷ rs) m now addr domain server ttl entry (inl h) hit live at = cc
  In-cached_addrs (r ∷ rs) m now addr domain server ttl entry (inr i) hit live at =
      In-cached_addrs rs m now addr domain server ttl entry i hit live at

  abbrev pub HasNoGlue : DnsPacket → Type 0
  HasNoGlue response = (addr : SocketAddr) → ¬ IsGlue response.authorities response.additionals addr

  -- A glue address, or where the response has none, a cached one.
  abbrev pub IsSourced : DnsPacket → M.Map → ℕ → SocketAddr → Type 0
  IsSourced response m now addr =
      IsGlue response.authorities response.additionals addr
      ⊎ (HasNoGlue response × IsCached response.authorities m now addr)

  abbrev glue_of : DnsPacket → List SocketAddr
  glue_of response = glue (ns_names response.authorities) response.additionals

  bare-HasNoGlue : (response : DnsPacket) → is_empty (glue_of response) ≡ true → HasNoGlue response
  bare-HasNoGlue response bare addr g =
      let i = IsGlue-glue response.authorities response.additionals addr g in
      elim (subst (In addr) ((is_empty_iff (glue_of response)).0 bare) i) [ ]

  delegation_addrs-IsSourced :
      (response : DnsPacket) (m : M.Map) (now : ℕ) (addr : SocketAddr)
      → In addr (delegation_addrs M N response m now)
      → IsSourced response m now addr
  unfolding delegation_addrs
  delegation_addrs-IsSourced response m now addr i =
      elim (Bool-cases (is_empty (glue_of response))) [
        | inl bare ↦ inr (
          bare-HasNoGlue response bare,
          cached_addrs-IsCached response.authorities m now addr (rw bare at i),
        )
        | inr found ↦
            inl (glue-IsGlue response.authorities response.additionals addr (rw found at i))
      ]

  IsSourced-delegation_addrs :
      (response : DnsPacket) (m : M.Map) (now : ℕ) (addr : SocketAddr)
      → IsSourced response m now addr
      → In addr (delegation_addrs M N response m now)
  unfolding delegation_addrs
  IsSourced-delegation_addrs response m now addr (inl g) =
      elim (Bool-cases (is_empty (glue_of response))) [
        | inl bare ↦ absurd (bare-HasNoGlue response bare addr g)
        | inr found ↦ rw found (IsGlue-glue response.authorities response.additionals addr g)
      ]
  IsSourced-delegation_addrs response m now addr
        (inr (no_glue, (domain, ns, ttl, entry, i, hit, live, at))) =
      elim (Bool-cases (is_empty (glue_of response))) [
        | inl bare ↦
            rw bare
              (In-cached_addrs response.authorities m now addr domain ns ttl entry i hit live at)
        | inr found ↦
            let (a, j) = some_element (glue_of response) found in
            absurd (no_glue a (glue-IsGlue response.authorities response.additionals a j))
      ]

  -- What holds of a delegation that a response gives at the time `now`.
  abbrev pub IsReferral : DnsPacket → M.Map → ℕ → Delegation → Type 0
  IsReferral response m now d =
      (is_empty d.ns_names ≡ false)
      × (is_empty d.ns_addrs ≡ false)
      × Servers response.authorities d.ns_names
      × ((addr : SocketAddr) → In addr d.ns_addrs → IsSourced response m now addr)
      × ((addr : SocketAddr) → IsSourced response m now addr → In addr d.ns_addrs)
      × (d.expires_at ≤ now + 3600 * second)
      × ((domain server : Text) (t : ℕ)
          → In (DnsRecord.ns domain server t) response.authorities
          → d.expires_at ≤ now + t * second)

  -- A response gives no delegation only where it has no NS record, or no address for one.
  abbrev pub IsOutcome : DnsPacket → M.Map → ℕ → Option Delegation → Type 0
  IsOutcome response m now none =
      Servers response.authorities [] ⊎ ((addr : SocketAddr) → ¬ IsSourced response m now addr)
  IsOutcome response m now (some d) = IsReferral response m now d

  -- A delegation that is followed has the servers of the NS records in the authority section, at
  -- least one, and at least one address. The addresses are all those of A or AAAA records of one of
  -- these servers in the additional section, or, where there are none, all those of unexpired entries of
  -- the delegation cache under their names. The delegation expires within an hour, and no later than
  -- any of the NS records. A response is not followed only where it has no NS record, or where no such
  -- address exists.
  pub extract_delegation-IsReferral :
      (response : DnsPacket) (m : M.Map) (now : ℕ)
      → IsOutcome response m now (extract_delegation M N response m now)
  unfolding extract_delegation
  extract_delegation-IsReferral response m now =
      let names = ns_names response.authorities in
      let addrs = delegation_addrs M N response m now in
      elim (Bool-cases (is_empty names)) [
        | inl bare ↦ rw bare (
            inl (
              subst (Servers response.authorities) ((is_empty_iff names).0 bare)
                (ns_names-Servers response.authorities)))
        | inr some_name ↦ elim (Bool-cases (is_empty addrs)) [
          | inl lost ↦
              rw (some_name, lost)
                (inr λ addr sourced.
                  elim (subst (In addr) ((is_empty_iff addrs).0 lost)
                    (IsSourced-delegation_addrs response m now addr sourced)) [ ])
          | inr some_addr ↦
              let hour = ns_ttl_le 3600 response.authorities in
              rw (some_name, some_addr)
                (
                  some_name,
                  some_addr,
                  ns_names-Servers response.authorities,
                  delegation_addrs-IsSourced response m now,
                  IsSourced-delegation_addrs response m now,
                  omega arith,
                  λ domain server t i.
                      let least = ns_ttl_least 3600 response.authorities domain server t i in
                      omega arith,
                )
        ]
      ]
