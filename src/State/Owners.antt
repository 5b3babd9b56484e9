-- ===== src/State/Owners.antt =====
-- `names.sort()` of src/state.rs over the owners of a zone, and the records in that order. Strings are
-- compared byte by byte.
use mathlib.Core.List.{Perm, append_assoc, perm_append_comm}
use mathlib.Core.List.Perm
use mini_dns.Prelude.{
  ◌≡◌, refl, sym, ap, ◌∙◌, inl, inr, Bool, true, false, List, [], ◌∷◌, ◌++◌, arith, ltb, ◌==◌,
  if◌then◌else◌, Bool-cases,
}
use mini_dns.Text.{Text}
use mini_dns.Zones.{Zone, zone_values}
use mini_dns.Dns.Record.{DnsRecord}

unfoldable pub text_leb : Text → Text → Bool
text_leb [] t = true
text_leb (a ∷ s) [] = false
text_leb (a ∷ s) (b ∷ t) = let rest = text_leb s t in if a == b then rest else ltb a b

unfoldable pub insert_owner : Text × List DnsRecord → Zone → Zone
insert_owner e [] = e ∷ []
insert_owner e (f ∷ zone) =
    let rest = insert_owner e zone in if text_leb e.0 f.0 then e ∷ f ∷ zone else f ∷ rest

unfoldable pub sort_owners : Zone → Zone
sort_owners [] = []
sort_owners (e ∷ zone) = insert_owner e (sort_owners zone)

-- `!matches!(r, DnsRecord::SOA { .. })`.
unfoldable pub not_soa : List DnsRecord → List DnsRecord
not_soa [] = []
not_soa (DnsRecord.soa d m n s r y e i t ∷ rs) = not_soa rs
not_soa (r ∷ rs) = r ∷ not_soa rs

unfoldable pub other_records : Zone → List DnsRecord
other_records [] = []
other_records ((owner, records) ∷ zone) = not_soa records ++ other_records zone

not_soa-append : (xs ys : List DnsRecord) → not_soa (xs ++ ys) ≡ not_soa xs ++ not_soa ys
unfolding not_soa
not_soa-append [] ys = refl
not_soa-append (DnsRecord.soa d m n s r y e i t ∷ xs) ys = not_soa-append xs ys
not_soa-append (r ∷ xs) ys = ap (◌∷◌ r) (not_soa-append xs ys)

other_records-zone_values : (zone : Zone) → other_records zone ≡ not_soa (zone_values zone)
unfolding other_records zone_values not_soa
other_records-zone_values [] = refl
other_records-zone_values ((owner, records) ∷ zone) =
    ap (λ rest. not_soa records ++ rest) (other_records-zone_values zone)
    ∙ sym (not_soa-append records (zone_values zone))

-- An entry put between two others changes the order of the records alone.
swap_fronts : (xs ys zs : List DnsRecord) → Perm (ys ++ (xs ++ zs)) (xs ++ (ys ++ zs))
swap_fronts xs ys zs =
    let moved = Perm.append_right zs (perm_append_comm ys xs) in
    rw (append_assoc ys xs zs, append_assoc xs ys zs) at moved

insert_owner-perm :
    (e : Text × List DnsRecord) (zone : Zone)
    → Perm (other_records (insert_owner e zone)) (not_soa e.1 ++ other_records zone)
unfolding insert_owner other_records
insert_owner-perm e [] = Perm.refl _
insert_owner-perm e (f ∷ zone) = elim (Bool-cases (text_leb e.0 f.0)) [
  | inl first ↦ rw first (Perm.refl _)
  | inr later ↦ rw later (
      Perm.trans (Perm.append_left (not_soa f.1) (insert_owner-perm e zone))
        (swap_fronts (not_soa e.1) (not_soa f.1) (other_records zone)))
]

-- The sorted zone has the same records.
pub sort_owners-perm :
    (zone : Zone) → Perm (other_records (sort_owners zone)) (not_soa (zone_values zone))
unfolding sort_owners other_records
sort_owners-perm zone = rw⁻¹ (other_records-zone_values zone) (sorted zone)
  where
    sorted : (zone : Zone) → Perm (other_records (sort_owners zone)) (other_records zone)
    sorted [] = Perm.refl _
    sorted (e ∷ zone) =
        Perm.trans (insert_owner-perm e (sort_owners zone))
          (Perm.append_left (not_soa e.1) (sorted zone))

text_leb_total : (s t : Text) → text_leb s t ≡ false → text_leb t s ≡ true
unfolding text_leb
text_leb_total [] t h = cc
text_leb_total (a ∷ s) [] h = refl
text_leb_total (a ∷ s) (b ∷ t) h = ground (arith, text_leb_total s t)

-- The owners do not fall along the list.
abbrev pub IsSorted : Zone → Type 0
IsSorted [] = Unit
IsSorted (e ∷ []) = Unit
IsSorted (e ∷ f ∷ zone) = (text_leb e.0 f.0 ≡ true) × IsSorted (f ∷ zone)

insert_owner-IsSorted :
    (e : Text × List DnsRecord) (zone : Zone) → IsSorted zone → IsSorted (insert_owner e zone)
unfolding insert_owner
insert_owner-IsSorted e [] h = tt
insert_owner-IsSorted e (f ∷ []) h = elim (Bool-cases (text_leb e.0 f.0)) [
  | inl first ↦ rw first (first, tt)
  | inr later ↦ rw later (text_leb_total e.0 f.0 later, tt)
]
insert_owner-IsSorted e (f ∷ g ∷ zone) h = elim (Bool-cases (text_leb e.0 f.0)) [
  | inl first ↦ rw first (first, h)
  | inr later ↦ elim (Bool-cases (text_leb e.0 g.0)) [
    | inl second ↦ rw (later, second) (text_leb_total e.0 f.0 later, (second, h.1))
    | inr last ↦
        let rest = rw last at (insert_owner-IsSorted e (g ∷ zone) h.1) in
        rw (later, last) (h.0, rest)
  ]
]

pub sort_owners-IsSorted : (zone : Zone) → IsSorted (sort_owners zone)
unfolding sort_owners
sort_owners-IsSorted [] = tt
sort_owners-IsSorted (e ∷ zone) = insert_owner-IsSorted e _ (sort_owners-IsSorted zone)
