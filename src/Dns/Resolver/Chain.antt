-- ===== src/Dns/Resolver/Chain.antt =====
-- What the answer section of `build_response` in src/dns/resolver.rs holds: a chain of aliases from
-- the name of the query on, each taken from the zones.
use mini_dns.Prelude.{
  ℕ, zero, suc, ◌≡◌, ◌≢◌, refl, sym, ◌∙◌, inl, inr, true, some, List, [], ◌∷◌, ◌++◌, map, Option,
  none, false, ◌⊎◌, arith, Bool-cases, Option-cases,
}
use mathlib.Core.List.{append-nil, append_assoc}
use mini_dns.Text.{Text, contains, to_lowercase, is_empty, is_empty_iff}
use mini_dns.Zones.{AuthZone, ZoneSet, find}
use mini_dns.Dns.Record.{DnsRecord, with_domain}
use mini_dns.Dns.Packet.{DnsQuestion, DnsPacket}
use mini_dns.Dns.Resolver.{
  Chase, Next, stop, follow, lookup, of_type, first_cname, alias_of, unknown_name, or_zone,
  push_cname, answer_from, answer_in, chase_turn, chase, start_chase, chase_question,
  build_response, max_cname_chain,
}
use mini_dns.Dns.Resolver.Selects.{
  Selects, FirstAlias, AreRenamed, map-AreRenamed, of_type-Selects, nothing-Selects,
  no_alias-Selects, first_cname-FirstAlias,
}

-- The records that the zones hold for a name.
abbrev pub RecordsFor : ZoneSet → Text → List DnsRecord → Type 0
RecordsFor zones name records =
    (zone : AuthZone) × (find zones name ≡ some zone) × (lookup zone.records name ≡ some records)

-- No zone is in charge of the name, or the one that is has no records for it.
abbrev pub IsMissing : ZoneSet → Text → Type 0
IsMissing zones name =
    (find zones name ≡ none)
    ⊎ ((zone : AuthZone) × (find zones name ≡ some zone) × (lookup zone.records name ≡ none))

-- A chain of at most `n` names for a query of type `qtype` from `name` on, after the names `seen`. A
-- link goes on from a name that has no record of the type, but an alias. The last name has records
-- of the type, or it has neither these nor an alias, or it is unknown, or it was met before, or it
-- is the name that is one too many.
pub data IsChain (zones : ZoneSet) (qtype : ℕ)
    : List Text → ℕ → Text → List DnsRecord → Type 0 where
  cut : {seen : List Text} {name : Text} → IsChain zones qtype seen 0 name []
  repeated :
      {seen : List Text} {n : ℕ} {name : Text}
      → contains seen name ≡ true
      → IsChain zones qtype seen (suc n) name []
  unknown :
      {seen : List Text} {n : ℕ} {name : Text}
      → contains seen name ≡ false
      → IsMissing zones name
      → IsChain zones qtype seen (suc n) name []
  no_data :
      {seen : List Text} {n : ℕ} {name : Text} (records : List DnsRecord)
      → contains seen name ≡ false
      → RecordsFor zones name records
      → Selects qtype records []
      → Selects 5 records []
      → IsChain zones qtype seen (suc n) name []
  direct :
      {seen : List Text} {n : ℕ} {name : Text} (records found answers : List DnsRecord)
      → contains seen name ≡ false
      → RecordsFor zones name records
      → Selects qtype records found
      → found ≢ []
      → AreRenamed name found answers
      → IsChain zones qtype seen (suc n) name answers
  alias :
      {seen : List Text} {n : ℕ} {name : Text} (records : List DnsRecord) (target : Text) (ttl : ℕ)
      (rest : List DnsRecord)
      → contains seen name ≡ false
      → RecordsFor zones name records
      → Selects qtype records []
      → FirstAlias records target ttl
      → IsChain zones qtype (name ∷ seen) n (to_lowercase target) rest
      → IsChain zones qtype seen (suc n) name (DnsRecord.cname name target ttl ∷ rest)

-- A chain that is appended to the answers of a state.
abbrev Extends : ZoneSet → ℕ → ℕ → Chase → Chase → Type 0
Extends zones qtype n s s' =
    (rest : List DnsRecord) × (s'.answers ≡ s.answers ++ rest)
    × IsChain zones qtype s.seen n s.name rest

-- A turn extends the answers by a part of a chain, to which the next turns add the rest.
abbrev TurnExtends : ZoneSet → ℕ → ℕ → Chase → Next → Type 0
TurnExtends zones qtype n s (stop s') = Extends zones qtype (suc n) s s'
TurnExtends zones qtype n s (follow s') =
    (rest : List DnsRecord)
    → IsChain zones qtype s'.seen n s'.name rest
    → (all : List DnsRecord) × (s'.answers ++ rest ≡ s.answers ++ all)
      × IsChain zones qtype s.seen (suc n) s.name all

unknown_name-answers : (s : Chase) → (unknown_name s).answers ≡ s.answers
unfolding unknown_name
unknown_name-answers s = ground arith

module _ (zones : ZoneSet) (qtype n : ℕ) (s : Chase) (new : contains s.seen s.name ≡ false) where
  -- The state in which the records of the name are looked at.
  abbrev looking : Option AuthZone → Chase
  looking matching = record s {
    seen = s.name ∷ s.seen;
    matching_zone = matching;
    authoritative = true;
  }

  push_cname-TurnExtends :
      (matching : Option AuthZone) (records : List DnsRecord) (owner target : Text) (ttl : ℕ)
      → RecordsFor zones s.name records
      → Selects qtype records []
      → FirstAlias records target ttl
      → TurnExtends zones qtype n s
          (push_cname (looking matching) (DnsRecord.cname owner target ttl))
  unfolding push_cname alias_of with_domain
  push_cname-TurnExtends matching records owner target ttl held no_direct first rest chain = (
    DnsRecord.cname s.name target ttl ∷ rest,
    append_assoc s.answers (DnsRecord.cname s.name target ttl ∷ []) rest,
    alias records target ttl rest new held no_direct first chain,
  )

  answer_from-TurnExtends :
      (matching : Option AuthZone) (records : List DnsRecord)
      → RecordsFor zones s.name records
      → TurnExtends zones qtype n s (answer_from qtype (looking matching) records)
  unfolding answer_from
  answer_from-TurnExtends matching records held =
      elim (Bool-cases (is_empty (of_type qtype records))) [
        | inr some_direct ↦
            rw (some_direct, answer_from)
              (
                map (with_domain s.name) (of_type qtype records),
                refl,
                direct records (of_type qtype records)
                    (map (with_domain s.name) (of_type qtype records)) new held
                    (of_type-Selects qtype records)
                    (λ e. cc ((is_empty_iff (of_type qtype records)).1 e))
                    (map-AreRenamed s.name (of_type qtype records)),
              )
        | inl bare ↦
            let no_direct =
              nothing-Selects qtype records ((is_empty_iff (of_type qtype records)).0 bare) in
            elim (Option-cases (first_cname records)) [
              | inl no_alias ↦
                  rw (bare, answer_from, no_alias)
                    (
                      [],
                      sym (append-nil s.answers),
                      no_data records new held no_direct (no_alias-Selects records no_alias),
                    )
              | inr (found, e) ↦
                  let (owner, target, ttl, is_alias, first) =
                    first_cname-FirstAlias records found e in
                  rw (bare, answer_from, e, is_alias)
                    (push_cname-TurnExtends matching records owner target ttl held no_direct first)
            ]
      ]

  answer_in-TurnExtends :
      (zone : AuthZone)
      → find zones s.name ≡ some zone
      → TurnExtends zones qtype n s (answer_in qtype (record s { seen = s.name ∷ s.seen }) zone)
  unfolding answer_in
  answer_in-TurnExtends zone e = elim (Option-cases (lookup zone.records s.name)) [
    | inl missing ↦
        let s' = record s {
          seen = s.name ∷ s.seen;
          matching_zone = or_zone s.matching_zone zone;
        } in
        rw (missing, answer_in)
          (
            [],
            unknown_name-answers s' ∙ sym (append-nil s.answers),
            unknown new (inr (zone, e, missing)),
          )
    | inr (records, held) ↦
        rw (held, answer_in)
          (answer_from-TurnExtends (or_zone s.matching_zone zone) records (zone, e, held))
  ]

chase_turn-TurnExtends :
    (zones : ZoneSet) (qtype n : ℕ) (s : Chase)
    → TurnExtends zones qtype n s (chase_turn qtype zones s)
unfolding chase_turn
chase_turn-TurnExtends zones qtype n s = elim (Bool-cases (contains s.seen s.name)) [
  | inl met ↦ rw (met, chase_turn) ([], sym (append-nil s.answers), repeated met)
  | inr new ↦ elim (Option-cases (find zones s.name)) [
    | inl foreign ↦
        let s' = record s { seen = s.name ∷ s.seen } in
        rw (new, chase_turn, foreign)
          ([], unknown_name-answers s' ∙ sym (append-nil s.answers), unknown new (inl foreign))
    | inr (zone, e) ↦ rw (new, chase_turn, e) (answer_in-TurnExtends zones qtype n s new zone e)
  ]
]

chase-Extends :
    (rounds qtype : ℕ) (zones : ZoneSet) (s : Chase)
    → Extends zones qtype rounds s (chase rounds qtype zones s)
unfolding chase
chase-Extends zero qtype zones s = ([], sym (append-nil s.answers), cut)
chase-Extends (suc rounds) qtype zones s =
    turn (chase_turn qtype zones s) (chase_turn-TurnExtends zones qtype rounds s)
      (chase-Extends rounds qtype zones)
  where
    turn :
        (t : Next)
        → TurnExtends zones qtype rounds s t
        → ((s' : Chase) → Extends zones qtype rounds s' (chase rounds qtype zones s'))
        → Extends zones qtype
            (suc rounds)
            s
            (elim t [ stop s' ↦ s' | follow s' ↦ chase rounds qtype zones s' ])
    turn (stop s') h ih = h
    turn (follow s') h ih =
        let (rest, e, chain) = ih s' in
        let (all, e', chain') = h rest chain in (all, e ∙ e', chain')

-- The answers to a query follow a chain of at most 16 names from the lowercased name of its question:
-- the first CNAME record that the zones hold for each name which has no record of the type asked, and
-- then all the records of that type of the last name, each with the name reached as its owner. The
-- chain ends without such records only at a name that has neither them nor an alias, at one that the
-- zones do not hold, at one met before, or after 16 names.
pub build_response-IsChain :
    (request : DnsPacket) (zones : ZoneSet) (q : DnsQuestion) (qs : List DnsQuestion)
    → request.questions ≡ q ∷ qs
    → IsChain zones q.qtype [] max_cname_chain
        (to_lowercase q.qname)
        (build_response request zones).answers
unfolding build_response chase_question start_chase
build_response-IsChain request zones q qs e =
    let (rest, e', chain) =
      chase-Extends max_cname_chain q.qtype zones (start_chase zones (to_lowercase q.qname)) in
    rw (e, chase_question, e') chain
