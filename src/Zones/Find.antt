-- ===== src/Zones/Find.antt =====
-- Longest-suffix matching of src/config.rs: `ZoneSet::find` and `ForwardRules::match_name`.
use mini_dns.Prelude.{
  ◌≤◌, ◌≡◌, refl, ◌↔◌, ◌⊎◌, inl, inr, true, ◌||◌, Option, none, some, List, [], ◌∷◌, ◌++◌, arith,
  length, Bool-cases,
}
use mini_dns.Text.{
  Text, dot, text_eq, text_eq_iff, is_empty, is_empty_iff, ends_with, ends_with→eq,
  ends_with-append,
}
use mini_dns.Net.{SocketAddr}
use mini_dns.LongestFirst.{In, IsLongest, IsLongest-sort}
use mini_dns.Zones.{
  AuthZone, new_zones, origin_length, under, zone_covers, find, ForwardRule, new_rules,
  suffix_length, rule_covers, match_name,
}

-- The name is the suffix, or a subdomain of it: the labels are never cut.
abbrev pub IsUnder : Text → Text → Type 0
IsUnder name suffix = (name ≡ suffix) ⊎ ((front : Text) × (name ≡ front ++ (dot ∷ suffix)))

pub under_iff : (name suffix : Text) → (under name suffix ≡ true) ↔ IsUnder name suffix
unfolding under
under_iff name suffix = (down, up)
  where
    down : (text_eq name suffix || ends_with name (dot ∷ suffix)) ≡ true → IsUnder name suffix
    down e = elim (Bool-cases (text_eq name suffix)) [
      | inl same ↦ inl ((text_eq_iff name suffix).0 same)
      | inr other ↦ inr (ends_with→eq name (dot ∷ suffix) (ground arith))
    ]

    up : IsUnder name suffix → (text_eq name suffix || ends_with name (dot ∷ suffix)) ≡ true
    up (inl e) = ground (arith, (text_eq_iff name suffix).1 e)
    up (inr (front, e)) =
        let last : ends_with name (dot ∷ suffix) ≡ true =
          rw e (ends_with-append front (dot ∷ suffix)) in
        elim (Bool-cases (text_eq name suffix)) [
          | inl same ↦ rw same
          | inr other ↦ rw (other, last)
        ]

-- The zone is responsible for the name; one with an empty origin for every name.
abbrev pub IsFor : Text → AuthZone → Type 0
IsFor name z = (z.origin ≡ []) ⊎ IsUnder name z.origin

zone_covers_iff : (name : Text) (z : AuthZone) → (zone_covers name z ≡ true) ↔ IsFor name z
unfolding zone_covers
zone_covers_iff name z = (down, up)
  where
    down : (is_empty z.origin || under name z.origin) ≡ true → IsFor name z
    down e = elim (Bool-cases (is_empty z.origin)) [
      | inl empty ↦ inl ((is_empty_iff z.origin).0 empty)
      | inr other ↦ inr ((under_iff name z.origin).0 (ground arith))
    ]

    up : IsFor name z → (is_empty z.origin || under name z.origin) ≡ true
    up (inl e) = ground (arith, (is_empty_iff z.origin).1 e)
    up (inr u) = elim (Bool-cases (is_empty z.origin)) [
      | inl empty ↦ rw empty
      | inr other ↦ rw (other, (under_iff name z.origin).1 u)
    ]

-- What a search among the zones should give.
abbrev pub IsBestZone : Text → List AuthZone → Option AuthZone → Type 0
IsBestZone name zs none = (z : AuthZone) → In z zs → ¬ IsFor name z
IsBestZone name zs (some best) =
    In best zs
    × IsFor name best
    × ((z : AuthZone) → In z zs → IsFor name z → length z.origin ≤ length best.origin)

-- The zone for a name is a configured one with a longest origin that is the name, a parent of it
-- at a label boundary, or empty; there is none only if no configured zone is such.
pub find-IsBestZone :
    (zs : List AuthZone) (name : Text) → IsBestZone name zs (find (new_zones zs) name)
unfolding find new_zones
find-IsBestZone zs name = best _ (IsLongest-sort origin_length (zone_covers name) zs)
  where
    best :
        (o : Option AuthZone)
        → IsLongest origin_length (zone_covers name) zs o
        → IsBestZone name zs o
    best none all = λ z i for_z. cc (all z i, (zone_covers_iff name z).1 for_z)
    best (some z) (i, t, all) =
        (i, (zone_covers_iff name z).0 t, λ y j for_y. all y j ((zone_covers_iff name y).1 for_y))

-- The upstream is that of a rule whose suffix is a longest match, and the default where none
-- matches.
abbrev pub IsBestRule : Text → List ForwardRule → Option SocketAddr → Option SocketAddr → Type 0
IsBestRule name rules default chosen =
    ((chosen ≡ default) × ((r : ForwardRule) → In r rules → ¬ IsUnder name r.suffix))
    ⊎ ((best : ForwardRule) × (chosen ≡ some best.upstream)
        × In best rules
        × IsUnder name best.suffix
        × ((r : ForwardRule)
            → In r rules
            → IsUnder name r.suffix
            → length r.suffix ≤ length best.suffix))

chosen-IsBestRule :
    (name : Text) (rules : List ForwardRule) (default : Option SocketAddr) (o : Option ForwardRule)
    → IsLongest suffix_length (rule_covers name) rules o
    → IsBestRule name rules default (elim o [ some rule ↦ some rule.upstream | none ↦ default ])
unfolding rule_covers
chosen-IsBestRule name rules default none all =
    inl (refl, λ r i u. cc (all r i, (under_iff name r.suffix).1 u))
chosen-IsBestRule name rules default (some best) (i, t, all) = inr (
  best,
  refl,
  i,
  (under_iff name best.suffix).0 t,
  λ r j u. all r j ((under_iff name r.suffix).1 u),
)

-- The rule for a name is a longest one that the name is under, wherever it stands in the
-- configuration; a name under no rule goes to the default upstream, if there is one.
pub match_name-IsBestRule :
    (default : Option SocketAddr) (rules : List ForwardRule) (name : Text)
    → IsBestRule name rules default (match_name (new_rules default rules) name)
unfolding match_name new_rules
match_name-IsBestRule default rules name =
    chosen-IsBestRule name rules default _ (IsLongest-sort suffix_length (rule_covers name) rules)
