-- ===== src/Recursive/Glue.antt =====
-- What `extract_delegation` of src/recursive.rs takes from the NS records and from the glue.
use mini_dns.Prelude.{
  ap, ◌∙◌, ℕ, ◌≤◌, ◌≡◌, ◌≢◌, refl, sym, true, ◌⊎◌, inl, inr, some, List, [], ◌∷◌, arith, min,
  Bool-cases, Option-cases,
}
use mini_dns.Text.{Text, to_lowercase, text_eq, text_eq→eq, text_eq_iff}
use mini_dns.Net.{IpAddr, SocketAddr}
use mini_dns.LongestFirst.{In}
use mini_dns.Dns.Record.{DnsRecord, record_type}
use mini_dns.Recursive.Servers.{ns_names, ns_ttl, glue, glue_addr, names_server}

-- The servers of the NS records, in their order; other records have none.
pub data Servers : List DnsRecord → List Text → Type 0 where
  no_records : Servers [] []
  ns_record :
      {domain nameserver : Text} {ttl : ℕ} {rs : List DnsRecord} {names : List Text}
      → Servers rs names
      → Servers (DnsRecord.ns domain nameserver ttl ∷ rs) (nameserver ∷ names)
  skipped :
      {r : DnsRecord} {rs : List DnsRecord} {names : List Text}
      → record_type r ≢ 2
      → Servers rs names
      → Servers (r ∷ rs) names

-- The name is that of an NS record, in any case of letters.
abbrev pub IsServer : List DnsRecord → Text → Type 0
IsServer authorities name =
    (domain : Text) × (nameserver : Text) × (ttl : ℕ) × In (DnsRecord.ns domain nameserver ttl)
      authorities
    × (to_lowercase nameserver ≡ to_lowercase name)

-- The address, with port 53, of an A or AAAA record among the additional ones, whose owner is a server
-- of the NS records.
abbrev pub IsGlue : List DnsRecord → List DnsRecord → SocketAddr → Type 0
IsGlue authorities additionals addr =
    (owner : Text) × (octets : List ℕ) × (ttl : ℕ) × IsServer authorities owner
    × (((addr ≡ record { ip = IpAddr.v4 octets; port = 53 })
          × In (DnsRecord.a owner octets ttl) additionals)
        ⊎ ((addr ≡ record { ip = IpAddr.v6 octets; port = 53 })
            × In (DnsRecord.aaaa owner octets ttl) additionals))

pub ns_names-Servers : (rs : List DnsRecord) → Servers rs (ns_names rs)
unfolding ns_names record_type
ns_names-Servers [] = no_records
ns_names-Servers (DnsRecord.ns domain nameserver ttl ∷ rs) = ns_record (ns_names-Servers rs)
ns_names-Servers (r ∷ rs) = skipped (λ e. ground arith) (ns_names-Servers rs)

later-IsServer :
    (r : DnsRecord) (rs : List DnsRecord) (name : Text) → IsServer rs name → IsServer (r ∷ rs) name
later-IsServer r rs name (domain, ns, ttl, i, e) = (domain, ns, ttl, inr i, e)

names_server-IsServer :
    (rs : List DnsRecord) (name : Text) → names_server (ns_names rs) name ≡ true → IsServer rs name
unfolding ns_names names_server
names_server-IsServer [] name h = absurd (ground arith)
names_server-IsServer (DnsRecord.ns domain nameserver ttl ∷ rs) name h =
    elim (Bool-cases (text_eq (to_lowercase nameserver) (to_lowercase name))) [
      | inl same ↦ (domain, nameserver, ttl, inl refl, text_eq→eq _ _ same)
      | inr other ↦
          later-IsServer (DnsRecord.ns domain nameserver ttl) rs name
            (names_server-IsServer rs name (ground arith))
    ]
names_server-IsServer (r ∷ rs) name h = later-IsServer r rs name (names_server-IsServer rs name h)

later-IsGlue :
    (authorities rs : List DnsRecord) (r : DnsRecord) (addr : SocketAddr)
    → IsGlue authorities rs addr
    → IsGlue authorities (r ∷ rs) addr
later-IsGlue authorities rs r addr (owner, octets, ttl, s, inl (e, i)) =
    (owner, octets, ttl, s, inl (e, inr i))
later-IsGlue authorities rs r addr (owner, octets, ttl, s, inr (e, i)) =
    (owner, octets, ttl, s, inr (e, inr i))

glue_addr-IsGlue :
    (authorities rs : List DnsRecord) (r : DnsRecord) (addr : SocketAddr)
    → glue_addr (ns_names authorities) r ≡ some addr
    → IsGlue authorities (r ∷ rs) addr
unfolding glue_addr
glue_addr-IsGlue authorities rs (DnsRecord.a owner octets ttl) addr e =
    elim (Bool-cases (names_server (ns_names authorities) owner)) [
      | inl named ↦
          let same : record { ip = IpAddr.v4 octets; port = 53 } ≡ addr = ground arith in
          (
            owner,
            octets,
            ttl,
            names_server-IsServer authorities owner named,
            inl (sym same, inl refl),
          )
      | inr unnamed ↦ absurd (ground arith)
    ]
glue_addr-IsGlue authorities rs (DnsRecord.aaaa owner octets ttl) addr e =
    elim (Bool-cases (names_server (ns_names authorities) owner)) [
      | inl named ↦
          let same : record { ip = IpAddr.v6 octets; port = 53 } ≡ addr = ground arith in
          (
            owner,
            octets,
            ttl,
            names_server-IsServer authorities owner named,
            inr (sym same, inl refl),
          )
      | inr unnamed ↦ absurd (ground arith)
    ]
glue_addr-IsGlue authorities rs r addr e = absurd (ground arith)

pub glue-IsGlue :
    (authorities rs : List DnsRecord) (addr : SocketAddr)
    → In addr (glue (ns_names authorities) rs)
    → IsGlue authorities rs addr
unfolding glue
glue-IsGlue authorities [] addr i = elim i [ ]
glue-IsGlue authorities (r ∷ rs) addr i = elim (Option-cases (glue_addr (ns_names authorities) r)) [
  | inl e ↦ later-IsGlue authorities rs r addr (glue-IsGlue authorities rs addr (rw (e, glue) at i))
  | inr (a, e) ↦ here a e (glue-IsGlue authorities rs addr) (rw (e, glue) at i)
]
  where
    here :
        (a : SocketAddr)
        → glue_addr (ns_names authorities) r ≡ some a
        → (In addr (glue (ns_names authorities) rs) → IsGlue authorities rs addr)
        → In addr (a ∷ glue (ns_names authorities) rs)
        → IsGlue authorities (r ∷ rs) addr
    here a e rest (inl same) = glue_addr-IsGlue authorities rs r addr (rw same e)
    here a e rest (inr at) = later-IsGlue authorities rs r addr (rest at)

In-names_server :
    (rs : List DnsRecord) (domain nameserver name : Text) (ttl : ℕ)
    → In (DnsRecord.ns domain nameserver ttl) rs
    → to_lowercase nameserver ≡ to_lowercase name
    → names_server (ns_names rs) name ≡ true
unfolding ns_names names_server
In-names_server [] domain nameserver name ttl i e = elim i [ ]
In-names_server (DnsRecord.ns d n t ∷ rs) domain nameserver name ttl (inl h) e =
    let written : nameserver ≡ n = cc in
    let same = (text_eq_iff (to_lowercase n) (to_lowercase name)).1 (rw (sym written) e) in
    rw same refl
In-names_server (DnsRecord.ns d n t ∷ rs) domain nameserver name ttl (inr i) e =
    let rest = In-names_server rs domain nameserver name ttl i e in ground arith
In-names_server (DnsRecord.opt size ∷ rs) domain nameserver name ttl (inl h) e = cc
In-names_server (r ∷ rs) domain nameserver name ttl (inl h) e = cc
In-names_server (r ∷ rs) domain nameserver name ttl (inr i) e =
    In-names_server rs domain nameserver name ttl i e

In-glue :
    (names : List Text) (rs : List DnsRecord) (r : DnsRecord) (addr : SocketAddr)
    → In r rs
    → glue_addr names r ≡ some addr
    → In addr (glue names rs)
unfolding glue
In-glue names [] r addr i e = elim i [ ]
In-glue names (x ∷ rs) r addr (inl h) e =
    let first : glue_addr names x ≡ some addr = ap (glue_addr names) (sym h) ∙ e in
    rw (first, glue) (inl refl)
In-glue names (x ∷ rs) r addr (inr i) e =
    let rest = In-glue names rs r addr i e in
    elim (Option-cases (glue_addr names x)) [
      | inl nothing ↦ rw (nothing, glue) rest
      | inr (a, h) ↦ rw (h, glue) (inr rest)
    ]

pub IsGlue-glue :
    (authorities additionals : List DnsRecord) (addr : SocketAddr)
    → IsGlue authorities additionals addr
    → In addr (glue (ns_names authorities) additionals)
unfolding glue_addr
IsGlue-glue authorities additionals addr
      (owner, octets, ttl, (domain, nameserver, t, i, same), inl (e, at)) =
    let named = In-names_server authorities domain nameserver owner t i same in
    In-glue (ns_names authorities) additionals (DnsRecord.a owner octets ttl) addr at
      (rw named (ap some (sym e)))
IsGlue-glue authorities additionals addr
      (owner, octets, ttl, (domain, nameserver, t, i, same), inr (e, at)) =
    let named = In-names_server authorities domain nameserver owner t i same in
    In-glue (ns_names authorities) additionals (DnsRecord.aaaa owner octets ttl) addr at
      (rw named (ap some (sym e)))

pub ns_ttl_le : (least : ℕ) (rs : List DnsRecord) → ns_ttl least rs ≤ least
unfolding ns_ttl
ns_ttl_le least [] = omega arith
ns_ttl_le least (DnsRecord.ns domain server t ∷ rs) = omega (arith, ns_ttl_le (min least t) rs)
ns_ttl_le least (r ∷ rs) = ns_ttl_le least rs

pub ns_ttl_least :
    (least : ℕ) (rs : List DnsRecord) (domain server : Text) (t : ℕ)
    → In (DnsRecord.ns domain server t) rs
    → ns_ttl least rs ≤ t
unfolding ns_ttl
ns_ttl_least least [] domain server t i = elim i [ ]
ns_ttl_least least (DnsRecord.ns domain' server' t' ∷ rs) domain server t (inl e) =
    ground (arith, ns_ttl_le (min least t') rs)
ns_ttl_least least (DnsRecord.ns domain' server' t' ∷ rs) domain server t (inr i) =
    ns_ttl_least (min least t') rs domain server t i
ns_ttl_least least (DnsRecord.opt size ∷ rs) domain server t (inl e) = cc
ns_ttl_least least (r ∷ rs) domain server t (inl e) = cc
ns_ttl_least least (r ∷ rs) domain server t (inr i) = ns_ttl_least least rs domain server t i
