-- ===== src/Zones/Load/Owners.antt =====
-- What a zone file of src/config.rs leaves in the zone: the records of its lines, by their owners.
use mini_dns.Prelude.{
  ℕ, ◌≡◌, refl, sym, ap, ◌∙◌, true, false, Option, none, some, List, [], ◌∷◌, ◌++◌, arith,
  if◌then◌else◌, inl, inr, Bool-cases, ltb, length, drop,
}
use mathlib.Core.List.{append-nil, append_assoc}
use mini_dns.Text.{Text, text_eq, text_eq→eq, text_eq_refl}
use mathlib.Core.Path.{subst}
use mini_dns.LongestFirst.{In, In-append}
use mini_dns.Text.{to_lowercase, strip_dot}
use mini_dns.Text.Lines.{lines, trim, split_whitespace, join_space}
use mini_dns.Dns.Record.{DnsRecord, domain}
use mini_dns.Zones.{Zone, zone_get, zone_push}
use mini_dns.Zones.Load.{
  Kind, line_record, typed_line, entry_of, kind_of, kinds, field, u32, address_line, address6_line,
  mx_line, srv_line, caa_line, soa_line, Line, malformed, unsupported, entry, parse_line,
  is_comment, add_line, load_line, load_zone_lines, load_zone_file,
}

-- The record of a line, if the name owns it.
unfoldable pub owned_line : Text → Line → List DnsRecord
owned_line name malformed = []
owned_line name unsupported = []
owned_line name (entry owner r) = if text_eq owner name then r ∷ [] else []

unfoldable pub owned_here : Text → Text → List DnsRecord
owned_here name line =
    if is_comment (trim line) then [] else owned_line name (parse_line (trim line))

-- The records of the lines that the name owns, in their order; comments and blank lines have none.
unfoldable pub owned : Text → List Text → List DnsRecord
owned name [] = []
owned name (line ∷ rest) = owned_here name line ++ owned name rest

abbrev pub or_none : Option (List DnsRecord) → List DnsRecord
or_none none = []
or_none (some records) = records

apart_names :
    (first owner name : Text)
    → text_eq first owner ≡ false
    → text_eq first name ≡ true
    → text_eq owner name ≡ false
apart_names first owner name apart own = elim (Bool-cases (text_eq owner name)) [
  | inl same ↦
      let e : first ≡ owner = text_eq→eq first name own ∙ sym (text_eq→eq owner name same) in
      absurd (ground (arith, text_eq_refl first))
  | inr other ↦ other
]

zone_push-get :
    (owner name : Text) (r : DnsRecord) (zone : Zone)
    → or_none (zone_get (zone_push owner r zone) name)
      ≡ or_none (zone_get zone name) ++ (if text_eq owner name then r ∷ [] else [])
unfolding zone_push zone_get
zone_push-get owner name r [] = elim (Bool-cases (text_eq owner name)) [
  | inl own ↦ rw own refl
  | inr other ↦ rw other refl
]
zone_push-get owner name r ((first, records) ∷ zone) =
    let later = zone_push-get owner name r zone in
    elim (Bool-cases (text_eq first owner)) [
      | inl same ↦ rw same (elim (Bool-cases (text_eq first name)) [
        | inl own ↦ rw (own, sym (ap (λ t. text_eq t name) (text_eq→eq first owner same)), own) refl
        | inr other ↦
            rw (other, sym (ap (λ t. text_eq t name) (text_eq→eq first owner same)), other)
              (sym (append-nil (or_none (zone_get zone name))))
      ])
      | inr apart ↦ rw apart (elim (Bool-cases (text_eq first name)) [
        | inl own ↦ rw (own, apart_names first owner name apart own) (sym (append-nil records))
        | inr other ↦ rw other later
      ])
    ]

add_line-get :
    (line : Line) (zone : Zone) (name : Text)
    → or_none (zone_get (add_line line zone) name)
      ≡ or_none (zone_get zone name) ++ owned_line name line
unfolding add_line owned_line
add_line-get malformed zone name = sym (append-nil (or_none (zone_get zone name)))
add_line-get unsupported zone name = sym (append-nil (or_none (zone_get zone name)))
add_line-get (entry owner r) zone name = zone_push-get owner name r zone

load_line-get :
    (line : Text) (zone : Zone) (name : Text)
    → or_none (zone_get (load_line line zone) name)
      ≡ or_none (zone_get zone name) ++ owned_here name line
unfolding load_line owned_here
load_line-get line zone name = elim (Bool-cases (is_comment (trim line))) [
  | inl skipped ↦ rw skipped (sym (append-nil (or_none (zone_get zone name))))
  | inr read ↦ rw read (add_line-get (parse_line (trim line)) zone name)
]

load_zone_lines-get :
    (rest : List Text) (zone : Zone) (name : Text)
    → or_none (zone_get (load_zone_lines rest zone) name)
      ≡ or_none (zone_get zone name) ++ owned name rest
unfolding load_zone_lines owned
load_zone_lines-get [] zone name = sym (append-nil (or_none (zone_get zone name)))
load_zone_lines-get (line ∷ rest) zone name =
    load_zone_lines-get rest (load_line line zone) name
    ∙ ap (λ rs. rs ++ owned name rest) (load_line-get line zone name)
    ∙ append_assoc (or_none (zone_get zone name)) (owned_here name line) (owned name rest)

line_record-domain :
    (kind : Kind) (owner : Text) (ttl : ℕ) (parts : List Text) (text : Text) (r : DnsRecord)
    → line_record kind owner ttl parts text ≡ some r
    → domain r ≡ owner
unfolding line_record address_line address6_line mx_line srv_line caa_line soa_line domain
line_record-domain Kind.a owner ttl parts text r e = ground arith
line_record-domain Kind.aaaa owner ttl parts text r e = ground arith
line_record-domain Kind.cname owner ttl parts text r e = ground arith
line_record-domain Kind.ns owner ttl parts text r e = ground arith
line_record-domain Kind.mx owner ttl parts text r e = ground arith
line_record-domain Kind.txt owner ttl parts text r e = ground arith
line_record-domain Kind.ptr owner ttl parts text r e = ground arith
line_record-domain Kind.srv owner ttl parts text r e = ground arith
line_record-domain Kind.caa owner ttl parts text r e = ground arith
line_record-domain Kind.soa owner ttl parts text r e = ground arith

-- A line of a record has its owner as the domain of the record.
abbrev Owns : Line → Type 0
Owns malformed = Unit
Owns unsupported = Unit
Owns (entry owner r) = domain r ≡ owner

entry_of-Owns :
    (owner : Text) (o : Option DnsRecord)
    → ((r : DnsRecord) → o ≡ some r → domain r ≡ owner)
    → Owns (entry_of owner o)
entry_of-Owns owner none h = tt
entry_of-Owns owner (some r) h = h r refl

typed_line-Owns :
    (o : Option Kind) (owner : Text) (ttl : ℕ) (parts : List Text)
    → Owns (typed_line o owner ttl parts)
unfolding typed_line
typed_line-Owns none owner ttl parts = tt
typed_line-Owns (some kind) owner ttl parts =
    entry_of-Owns owner _ (line_record-domain kind owner ttl parts (join_space (drop 3 parts)))

parse_line-Owns : (line : Text) → Owns (parse_line line)
unfolding parse_line
parse_line-Owns line =
    let parts = split_whitespace line in
    let owner = strip_dot (to_lowercase (field parts 0)) in
    elim (Bool-cases (ltb (length parts) 4)) [
      | inl few ↦ rw few tt
      | inr enough ↦
          rw enough (timed (kind_of kinds (field parts 2)) owner parts (u32 (field parts 1)))
    ]
  where
    timed :
        (o : Option Kind) (owner : Text) (parts : List Text) (ttl : Option ℕ)
        → Owns (elim ttl as (λ _. Line) [ none ↦ malformed | some n ↦ typed_line o owner n parts ])
    timed o owner parts none = tt
    timed o owner parts (some n) = typed_line-Owns o owner n parts

owned_line-domain :
    (name : Text) (line : Line) (r : DnsRecord)
    → Owns line
    → In r (owned_line name line)
    → domain r ≡ name
unfolding owned_line
owned_line-domain name malformed r h i = absurd i
owned_line-domain name unsupported r h i = absurd i
owned_line-domain name (entry owner r') r h i = elim (Bool-cases (text_eq owner name)) [
  | inl own ↦
      let single : In r (r' ∷ []) = subst (λ b. In r (if b then r' ∷ [] else [])) own i in
      elim single [
        | inl e ↦ ap domain e ∙ h ∙ text_eq→eq owner name own
        | inr none_left ↦ absurd none_left
      ]
  | inr other ↦ absurd (subst (λ b. In r (if b then r' ∷ [] else [])) other i)
]

owned_here-domain :
    (name line : Text) (r : DnsRecord) → In r (owned_here name line) → domain r ≡ name
unfolding owned_here
owned_here-domain name line r i = elim (Bool-cases (is_comment (trim line))) [
  | inl skipped ↦
      absurd
        (subst (λ b. In r (if b then [] else owned_line name (parse_line (trim line)))) skipped i)
  | inr read ↦
      owned_line-domain name (parse_line (trim line)) r (parse_line-Owns (trim line))
        (subst (λ b. In r (if b then [] else owned_line name (parse_line (trim line)))) read i)
]

owned-domain :
    (name : Text) (rest : List Text) (r : DnsRecord) → In r (owned name rest) → domain r ≡ name
unfolding owned
owned-domain name [] r i = absurd i
owned-domain name (line ∷ rest) r i =
    elim (In-append r (owned_here name line) (owned name rest) i) [
      | inl here ↦ owned_here-domain name line r here
      | inr later ↦ owned-domain name rest r later
    ]

-- A zone file that can be read gives a zone in which the records of each name are exactly those of the
-- lines that parse to a record of this owner, in their order, whatever the other lines are, and each of
-- them carries the name as its own domain.
pub load_zone_file-owned :
    (content : Text) (zone : Zone) (name : Text)
    → load_zone_file (some content) ≡ some zone
    → (or_none (zone_get zone name) ≡ owned name (lines content))
      × ((r : DnsRecord) → In r (or_none (zone_get zone name)) → domain r ≡ name)
unfolding load_zone_file owned zone_get
load_zone_file-owned content zone name e =
    let same : load_zone_lines (lines content) [] ≡ zone = ground arith in
    let held : or_none (zone_get zone name) ≡ owned name (lines content) =
      ap (λ z. or_none (zone_get z name)) (sym same)
      ∙ load_zone_lines-get (lines content) [] name in
    (held, λ r i. owned-domain name (lines content) r (subst (In r) held i))
