-- ===== src/State/Ttl.antt =====
-- How long `cache_ttl` of src/state.rs lets a forwarded reply be kept.
use mini_dns.Prelude.{
  ℕ, ◌≤◌, ◌≡◌, ◌≢◌, refl, ◌⊎◌, inl, inr, some, List, [], ◌∷◌, arith, bit_and, Option-cases,
}
use native.Mathlib.Decide.{dec_le, ℕ_discrete}
use mini_dns.LongestFirst.{In}
use mini_dns.Text.{is_empty}
use mini_dns.Dns.Record.{DnsRecord, ttl}
use mini_dns.Dns.Packet.{DnsPacket}
use mini_dns.State.{cache_ttl, min_ttl, negative_ttl, soa_minimum, neg_ttl_max}

min_ttl-le : (rs : List DnsRecord) (r : DnsRecord) → In r rs → min_ttl rs ≤ ttl r
unfolding min_ttl
min_ttl-le [] r i = elim i [ ]
min_ttl-le (s ∷ []) r (inl e) = rw e (omega arith)
min_ttl-le (s ∷ []) r (inr i) = elim i [ ]
min_ttl-le (s ∷ t ∷ rs) r (inl e) = rw e (omega arith)
min_ttl-le (s ∷ t ∷ rs) r (inr i) = omega (arith, min_ttl-le (t ∷ rs) r i)

min_ttl-In :
    (r : DnsRecord) (rs : List DnsRecord)
    → (s : DnsRecord) × In s (r ∷ rs) × (min_ttl (r ∷ rs) ≡ ttl s)
unfolding min_ttl
min_ttl-In r [] = (r, inl refl, refl)
min_ttl-In r (s ∷ rs) =
    let (t, i, e) = min_ttl-In s rs in
    elim (dec_le (ttl r) (min_ttl (s ∷ rs))) [
      | yes h ↦ (r, inl refl, omega arith)
      | no h ↦ (t, inr i, omega arith)
    ]

negative_ttl-le : (rs : List DnsRecord) → negative_ttl rs ≤ neg_ttl_max
unfolding negative_ttl
negative_ttl-le rs = elim (Option-cases (soa_minimum rs)) [
  | inl missing ↦ rw (missing, negative_ttl) (omega arith)
  | inr (m, e) ↦ rw (e, negative_ttl) (omega arith)
]

-- How long a reply may be kept: one with answers exactly as long as the answer that lives
-- shortest, one without at most an hour, and then only for NXDOMAIN and an empty success; any other
-- failure is not kept.
pub cache_ttl-cases :
    (packet : DnsPacket)
    → (packet.answers ≢ []
        → (t : ℕ) × (cache_ttl packet ≡ some t)
          × ((r : DnsRecord) → In r packet.answers → t ≤ ttl r)
          × ((r : DnsRecord) × In r packet.answers × (t ≡ ttl r)))
      × (packet.answers ≡ []
          → (t : ℕ) → cache_ttl packet ≡ some t
          → (t ≤ neg_ttl_max)
            × ((bit_and packet.header.flags 0x000F ≡ 3) ⊎ (bit_and packet.header.flags 0x000F ≡ 0)))
unfolding cache_ttl is_empty
cache_ttl-cases packet = (positive packet.answers refl, negative)
  where
    positive :
        (rs : List DnsRecord)
        → packet.answers ≡ rs
        → rs ≢ []
        → (t : ℕ) × (cache_ttl packet ≡ some t)
          × ((r : DnsRecord) → In r rs → t ≤ ttl r)
          × ((r : DnsRecord) × In r rs × (t ≡ ttl r))
    positive [] e more = absurd (more refl)
    positive (r ∷ rs) e more =
        (min_ttl (r ∷ rs), rw (e, cache_ttl) refl, min_ttl-le (r ∷ rs), min_ttl-In r rs)

    negative :
        packet.answers ≡ []
        → (t : ℕ) → cache_ttl packet ≡ some t
        → (t ≤ neg_ttl_max)
          × ((bit_and packet.header.flags 0x000F ≡ 3) ⊎ (bit_and packet.header.flags 0x000F ≡ 0))
    negative e t kept = elim (ℕ_discrete (bit_and packet.header.flags 0x000F) 3) [
      | yes nx ↦ (lasts (rw (e, cache_ttl, nx) at kept), inl nx)
      | no other ↦ elim (ℕ_discrete (bit_and packet.header.flags 0x000F) 0) [
        | yes nodata ↦ (lasts (rw (e, cache_ttl, nodata) at kept), inr nodata)
        | no failed ↦ absurd (unkept e other failed kept)
      ]
    ]
      where
        lasts : some (negative_ttl packet.authorities) ≡ some t → t ≤ neg_ttl_max
        lasts same = ground (arith, negative_ttl-le packet.authorities)

        unkept :
            packet.answers ≡ []
            → bit_and packet.header.flags 0x000F ≢ 3
            → bit_and packet.header.flags 0x000F ≢ 0
            → cache_ttl packet ≡ some t
            → ⊥
        unkept e other failed kept = ground arith
