-- ===== src/Dns/Resolver/Turns.antt =====
-- The turns of the alias loop of `build_response` in src/dns/resolver.rs for a name that the zones
-- hold, and for one that they do not.
use mini_dns.Prelude.{
  ℕ, zero, suc, ◌≡◌, ◌≢◌, refl, sym, ◌⊎◌, inl, inr, true, false, Option, none, some, List, [], ◌∷◌,
  ◌++◌, arith, Bool-cases, Option-cases,
}
use mathlib.Core.Path.{subst}
use mini_dns.Text.{Text, contains, is_empty, is_empty_iff}
use mini_dns.Zones.{AuthZone, ZoneSet, find}
use mini_dns.Dns.Record.{DnsRecord}
use mini_dns.Dns.Resolver.{
  Chase, Next, stop, follow, lookup, of_type, first_cname, alias_of, unknown_name, or_zone,
  push_cname, answer_from, answer_in, chase_turn, chase, start_chase,
}
use mini_dns.Dns.Resolver.Chain.{RecordsFor}

-- No zone is responsible for the name, or the one that is has no records for it.
abbrev pub IsUnknown : ZoneSet → Text → Type 0
IsUnknown zones name =
    (find zones name ≡ none)
    ⊎ ((zone : AuthZone) × (find zones name ≡ some zone) × (lookup zone.records name ≡ none))

-- The query's name was found.
abbrev pub IsFound : Chase → Type 0
IsFound s = (s.rcode ≡ 0) × (s.authoritative ≡ true)

abbrev KeepsFound : Next → Type 0
KeepsFound (stop s) = IsFound s
KeepsFound (follow s) = IsFound s × (s.answers ≢ [])

snoc-ne-nil {ℓ} : {A : Type ℓ} (xs : List A) (x : A) → xs ++ (x ∷ []) ≢ []
snoc-ne-nil [] x e = cc
snoc-ne-nil (y ∷ xs) x e = cc

answer_from-KeepsFound :
    (qtype : ℕ) (s : Chase) (records : List DnsRecord)
    → IsFound s
    → KeepsFound (answer_from qtype s records)
unfolding answer_from push_cname
answer_from-KeepsFound qtype s records found =
    elim (Bool-cases (is_empty (of_type qtype records))) [
      | inr some_direct ↦ rw (some_direct, answer_from) found
      | inl no_direct ↦ elim (Option-cases (first_cname records)) [
        | inl no_alias ↦ rw (no_direct, answer_from, no_alias) found
        | inr (r, first) ↦ elim (Option-cases (alias_of r)) [
          | inl e ↦ rw (no_direct, answer_from, first, push_cname, e) found
          | inr (target, e) ↦
              rw (no_direct, answer_from, first, push_cname, e) (found, snoc-ne-nil s.answers _)
        ]
      ]
    ]

unknown_name-IsFound : (s : Chase) → IsFound s → s.answers ≢ [] → IsFound (unknown_name s)
unfolding unknown_name
unknown_name-IsFound s found more = ground (arith, (is_empty_iff s.answers).0)

chase_turn-KeepsFound :
    (qtype : ℕ) (zones : ZoneSet) (s : Chase)
    → IsFound s
    → s.answers ≢ []
    → KeepsFound (chase_turn qtype zones s)
unfolding chase_turn answer_in
chase_turn-KeepsFound qtype zones s found more = elim (Bool-cases (contains s.seen s.name)) [
  | inl met ↦ rw (met, chase_turn) found
  | inr new ↦ elim (Option-cases (find zones s.name)) [
    | inl foreign ↦
        rw (new, chase_turn, foreign)
          (unknown_name-IsFound (record s { seen = s.name ∷ s.seen }) found more)
    | inr (zone, e) ↦
        let s' = record s {
          seen = s.name ∷ s.seen;
          matching_zone = or_zone s.matching_zone zone;
        } in
        elim (Option-cases (lookup zone.records s.name)) [
          | inl missing ↦
              rw (new, chase_turn, e, answer_in, missing) (unknown_name-IsFound s' found more)
          | inr (records, held) ↦
              rw (new, chase_turn, e, answer_in, held)
                (answer_from-KeepsFound qtype (record s' { authoritative = true }) records
                  (found.0, refl))
        ]
  ]
]

chase-IsFound :
    (rounds qtype : ℕ) (zones : ZoneSet) (s : Chase)
    → IsFound s
    → s.answers ≢ []
    → IsFound (chase rounds qtype zones s)
unfolding chase
chase-IsFound zero qtype zones s found more = found
chase-IsFound (suc rounds) qtype zones s found more =
    turn (chase_turn qtype zones s) (chase_turn-KeepsFound qtype zones s found more)
      (chase-IsFound rounds qtype zones)
  where
    turn :
        (t : Next)
        → KeepsFound t
        → ((s' : Chase) → IsFound s' → s'.answers ≢ [] → IsFound (chase rounds qtype zones s'))
        → IsFound (elim t [ stop s' ↦ s' | follow s' ↦ chase rounds qtype zones s' ])
    turn (stop s') h ih = h
    turn (follow s') h ih = ih s' h.0 h.1

-- The state of the loop before its first turn.
abbrev starting : Text → Option AuthZone → Chase
starting name zone = record {
  answers = [];
  authoritative = false;
  rcode = 0;
  name = name;
  matching_zone = zone;
  seen = [];
}

-- The state in which the first turn takes the records found.
abbrev first_state : Text → AuthZone → Chase
first_state name zone = record (starting name (some zone)) {
  authoritative = true;
  seen = name ∷ [];
}

known_turn :
    (qtype : ℕ) (zones : ZoneSet) (name : Text) (zone : AuthZone) (records : List DnsRecord)
    → find zones name ≡ some zone
    → lookup zone.records name ≡ some records
    → chase_turn qtype zones (starting name (some zone))
      ≡ answer_from qtype (first_state name zone) records
unfolding chase_turn answer_in contains or_zone
known_turn qtype zones name zone records e held = rw (e, chase_turn, answer_in, held) refl

-- The state in which the loop ends for an unknown name.
abbrev pub IsNotFound : ZoneSet → Text → Chase → Type 0
IsNotFound zones name s =
    (s.rcode ≡ 3)
    × (s.answers ≡ [])
    × (s.authoritative ≡ false)
    × (s.matching_zone ≡ find zones name)

abbrev last_state : Text → Option AuthZone → Chase
last_state name zone = record (starting name zone) { rcode = 3; seen = name ∷ [] }

unknown_turn :
    (qtype : ℕ) (zones : ZoneSet) (name : Text) (zone : AuthZone)
    → find zones name ≡ some zone
    → lookup zone.records name ≡ none
    → chase_turn qtype zones (starting name (some zone)) ≡ stop (last_state name (some zone))
unfolding chase_turn answer_in contains unknown_name is_empty or_zone
unknown_turn qtype zones name zone e missing = rw (e, chase_turn, answer_in, missing) refl

foreign_turn :
    (qtype : ℕ) (zones : ZoneSet) (name : Text)
    → find zones name ≡ none
    → chase_turn qtype zones (starting name none) ≡ stop (last_state name none)
unfolding chase_turn contains unknown_name is_empty
foreign_turn qtype zones name foreign = rw (foreign, chase_turn) refl

pub chase-known :
    (rounds qtype : ℕ) (zones : ZoneSet) (name : Text) (records : List DnsRecord)
    → RecordsFor zones name records
    → IsFound (chase (suc rounds) qtype zones (start_chase zones name))
unfolding chase start_chase
chase-known rounds qtype zones name records (zone, e, held) =
    let s = first_state name zone in
    let found : IsFound (chase (suc rounds) qtype zones (starting name (some zone))) =
      rw (known_turn qtype zones name zone records e held, chase)
        (turn (answer_from qtype s records)
          (answer_from-KeepsFound qtype s records (refl, refl))) in
    subst (λ m. IsFound (chase (suc rounds) qtype zones (starting name m))) (sym e) found
  where
    turn :
        (t : Next)
        → KeepsFound t
        → IsFound (elim t [ stop s' ↦ s' | follow s' ↦ chase rounds qtype zones s' ])
    turn (stop s') h = h
    turn (follow s') h = chase-IsFound rounds qtype zones s' h.0 h.1

pub chase-unknown :
    (rounds qtype : ℕ) (zones : ZoneSet) (name : Text)
    → IsUnknown zones name
    → IsNotFound zones name (chase (suc rounds) qtype zones (start_chase zones name))
unfolding chase start_chase
chase-unknown rounds qtype zones name = elim [
  | inl foreign ↦
      at_zone none foreign
        (rw (foreign_turn qtype zones name foreign, chase) (refl, refl, refl, refl))
  | inr (zone, e, missing) ↦
      at_zone (some zone) e
        (rw (unknown_turn qtype zones name zone e missing, chase) (refl, refl, refl, refl))
]
  where
    Ends : Option AuthZone → Type 0
    Ends m =
        let s = chase (suc rounds) qtype zones (starting name m) in
        (s.rcode ≡ 3) × (s.answers ≡ []) × (s.authoritative ≡ false) × (s.matching_zone ≡ m)

    at_zone :
        (m : Option AuthZone)
        → find zones name ≡ m
        → Ends m
        → IsNotFound zones name (chase (suc rounds) qtype zones (start_chase zones name))
    at_zone m e h = subst Ends (sym e) h
