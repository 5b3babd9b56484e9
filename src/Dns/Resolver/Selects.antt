-- ===== src/Dns/Resolver/Selects.antt =====
-- What `build_response` of src/dns/resolver.rs takes from the records of a name.
use mini_dns.Prelude.{
  map, ℕ, ◌≡◌, ◌≢◌, refl, inl, inr, some, List, [], ◌∷◌, none, ◌==◌, arith, Bool-cases,
}
use mathlib.Core.Path.{subst}
use mini_dns.Text.{Text}
use mini_dns.Dns.Record.{domain, with_domain, DnsRecord, record_type}
use mini_dns.Dns.Resolver.{of_type, first_cname}

-- Those of the records that have the type, all of them, in their order.
pub data Selects (qtype : ℕ) : List DnsRecord → List DnsRecord → Type 0 where
  no_records : Selects qtype [] []
  kept :
      {r : DnsRecord} {rs found : List DnsRecord}
      → record_type r ≡ qtype
      → Selects qtype rs found
      → Selects qtype (r ∷ rs) (r ∷ found)
  skipped :
      {r : DnsRecord} {rs found : List DnsRecord}
      → record_type r ≢ qtype
      → Selects qtype rs found
      → Selects qtype (r ∷ rs) found

-- The first CNAME record: the name it stands for, and its TTL.
pub data FirstAlias : List DnsRecord → Text → ℕ → Type 0 where
  at_head :
      {owner target : Text} {ttl : ℕ} {rs : List DnsRecord}
      → FirstAlias (DnsRecord.cname owner target ttl ∷ rs) target ttl
  after :
      {r : DnsRecord} {rs : List DnsRecord} {target : Text} {ttl : ℕ}
      → record_type r ≢ 5
      → FirstAlias rs target ttl
      → FirstAlias (r ∷ rs) target ttl

-- The second record is owned by the name, and is the first one again under the owner of that.
abbrev pub IsRenamed : Text → DnsRecord → DnsRecord → Type 0
IsRenamed name (DnsRecord.opt size) r' = r' ≡ DnsRecord.opt size
IsRenamed name r r' = (domain r' ≡ name) × (with_domain (domain r) r' ≡ r)

-- The records in their order, each owned by the name.
abbrev pub AreRenamed : Text → List DnsRecord → List DnsRecord → Type 0
AreRenamed name [] [] = Unit
AreRenamed name [] (r' ∷ rs') = ⊥
AreRenamed name (r ∷ rs) [] = ⊥
AreRenamed name (r ∷ rs) (r' ∷ rs') = IsRenamed name r r' × AreRenamed name rs rs'

with_domain-IsRenamed : (name : Text) (r : DnsRecord) → IsRenamed name r (with_domain name r)
unfolding with_domain domain
with_domain-IsRenamed name (DnsRecord.opt size) = refl
with_domain-IsRenamed name (DnsRecord.a d x t) = (refl, refl)
with_domain-IsRenamed name r = (refl, refl)

pub map-AreRenamed :
    (name : Text) (rs : List DnsRecord) → AreRenamed name rs (map (with_domain name) rs)
map-AreRenamed name [] = tt
map-AreRenamed name (r ∷ rs) = (with_domain-IsRenamed name r, map-AreRenamed name rs)

pub of_type-Selects : (qtype : ℕ) (rs : List DnsRecord) → Selects qtype rs (of_type qtype rs)
unfolding of_type
of_type-Selects qtype [] = no_records
of_type-Selects qtype (r ∷ rs) = elim (Bool-cases (record_type r == qtype)) [
  | inl same ↦ rw (same, of_type) (kept (ground arith) (of_type-Selects qtype rs))
  | inr other ↦ rw (other, of_type) (skipped (ground arith) (of_type-Selects qtype rs))
]

pub nothing-Selects :
    (qtype : ℕ) (rs : List DnsRecord) → of_type qtype rs ≡ [] → Selects qtype rs []
nothing-Selects qtype rs e = subst (Selects qtype rs) e (of_type-Selects qtype rs)

pub no_alias-Selects : (rs : List DnsRecord) → first_cname rs ≡ none → Selects 5 rs []
unfolding first_cname
no_alias-Selects [] e = no_records
no_alias-Selects (r ∷ rs) e = elim (Bool-cases (record_type r == 5)) [
  | inl same ↦ absurd (ground arith)
  | inr other ↦ skipped (ground arith) (no_alias-Selects rs (ground arith))
]

pub first_cname-FirstAlias :
    (rs : List DnsRecord) (found : DnsRecord)
    → first_cname rs ≡ some found
    → (owner : Text) × (target : Text) × (ttl : ℕ) × (found ≡ DnsRecord.cname owner target ttl)
      × FirstAlias rs target ttl
unfolding first_cname record_type
first_cname-FirstAlias [] found e = absurd (ground arith)
first_cname-FirstAlias (DnsRecord.cname d target t ∷ rs) found e =
    (d, target, t, ground arith, at_head)
first_cname-FirstAlias (r ∷ rs) found e =
    let other : record_type r ≢ 5 = λ e'. ground arith in
    let (owner, target, ttl, h, first) = first_cname-FirstAlias rs found e in
    (owner, target, ttl, h, after other first)
