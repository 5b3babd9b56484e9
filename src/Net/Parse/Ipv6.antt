-- ===== src/Net/Parse/Ipv6.antt =====
-- An IPv6 address that parses has 16 octets: at most two for each group, and zeros in the gap.
use mini_dns.Prelude.{
  ℕ, zero, suc, ◌+◌, ◌-◌, ◌*◌, ◌/◌, ◌%◌, ◌^◌, ◌<◌, ◌≤◌, ◌≡◌, ◌≢◌, ◌∙◌, refl, ap, Bool, true, false,
  Option, none, some, List, [], ◌∷◌, ◌++◌, arith, ◌==◌, length, replicate, length-append,
  length-replicate, inl, inr, Bool-cases,
}
use mathlib.Core.Path.{subst}
use mini_dns.Text.{Text}
use mini_dns.Text.Numbers.{read_number, read_number_lt}
use mini_dns.Net.Parse.{
  read_ipv4, hex_group, ipv4_group, Groups, read_groups, behind_gap, read_gap, read_ipv6,
  parse_ipv6, separated,
}
use mini_dns.Acl.Prefix.{AreBytes}
use mini_dns.Net.Parse.Octets.{
  Octets, AreBytes-append, AreBytes-zeros, read_ipv4-Octets, whole-Octets,
}

abbrev IsGroup : Option (ℕ × Text) → Type 0
IsGroup none = Unit
IsGroup (some group) = group.0 < 65536

hex_group-IsGroup : (first : Bool) (s : Text) → IsGroup (hex_group first s)
unfolding hex_group
hex_group-IsGroup first s = behind (separated first s)
  where
    number :
        (o : Option (ℕ × Text)) (rest : Text) → read_number 16 4 true (2 ^ 16) rest ≡ o → IsGroup o
    number none rest e = tt
    number (some (v, more)) rest e = read_number_lt 16 4 true (2 ^ 16) rest v more e

    behind :
        (o : Option Text)
        → IsGroup (elim o as (λ _. Option (ℕ × Text)) [
          | none ↦ none
          | some rest ↦ read_number 16 4 true (2 ^ 16) rest
        ])
    behind none = tt
    behind (some rest) = number (read_number 16 4 true (2 ^ 16) rest) rest refl

ipv4_group-Octets : (behind : ℕ) (first : Bool) (s : Text) → Octets 4 (ipv4_group behind first s)
unfolding ipv4_group
ipv4_group-Octets zero first s = tt
ipv4_group-Octets (suc behind) first s = sep (separated first s)
  where
    sep :
        (o : Option Text)
        → Octets 4
            (elim o as (λ _. Option (List ℕ × Text)) [ none ↦ none | some rest ↦ read_ipv4 rest ])
    sep none = tt
    sep (some rest) = read_ipv4-Octets rest

ipv4_group-zero : (first : Bool) (s : Text) → ipv4_group 0 first s ≡ none
unfolding ipv4_group
ipv4_group-zero first s = refl

-- At most two octets for each group that was left.
abbrev Fits : ℕ → Groups → Type 0
Fits left g = (length g.octets ≤ 2 * left) × AreBytes g.octets

read_groups-Fits : (left : ℕ) (first : Bool) (s : Text) → Fits left (read_groups left first s)
unfolding read_groups
read_groups-Fits zero first s = (omega arith, tt)
read_groups-Fits (suc left) first s =
    ipv4 left (ipv4_group left first s) refl (λ rest. read_groups-Fits left false rest)
  where
    hex :
        (left : ℕ) (o : Option (ℕ × Text))
        → IsGroup o
        → ((rest : Text) → Fits left (read_groups left false rest))
        → Fits (suc left) (elim o as (λ _. Groups) [
          | none ↦ record { octets = []; ends_ipv4 = false; rest = s }
          | some group ↦
              let more = read_groups left false group.1 in
              record more { octets = group.0 / 256 ∷ group.0 % 256 ∷ more.octets }
        ])
    hex left none h ih = (omega arith, tt)
    hex left (some group) h ih =
        let more = ih group.1 in (omega arith, (omega arith, (omega arith, more.1)))

    ipv4 :
        (left : ℕ) (o : Option (List ℕ × Text))
        → ipv4_group left first s ≡ o
        → ((rest : Text) → Fits left (read_groups left false rest))
        → Fits (suc left) (elim o as (λ _. Groups) [
          | some read ↦ record { octets = read.0; ends_ipv4 = true; rest = read.1 }
          | none ↦ elim (hex_group first s) as (λ _. Groups) [
            | none ↦ record { octets = []; ends_ipv4 = false; rest = s }
            | some group ↦
                let more = read_groups left false group.1 in
                record more { octets = group.0 / 256 ∷ group.0 % 256 ∷ more.octets }
          ]
        ])
    ipv4 left none e ih = hex left (hex_group first s) (hex_group-IsGroup first s) ih
    ipv4 zero (some read) e ih = ground (arith, ipv4_group-zero first s)
    ipv4 (suc left) (some read) e ih =
        let h : Octets 4 (some read) = subst (Octets 4) e (ipv4_group-Octets (suc left) first s) in
        (omega (arith, h.0), h.1)

behind_gap-Octets :
    (head : List ℕ) (s : Text)
    → length head ≤ 16
    → length head ≢ 16
    → AreBytes head
    → Octets 16 (some (behind_gap head s))
unfolding behind_gap
behind_gap-Octets head s h k bytes =
    let left = 8 - (length head / 2 + 1) in
    let tail = read_groups left true s in
    let fits = read_groups-Fits left true s in
    let gap = 16 - (length head + length tail.octets) in
    let zeros : List ℕ = replicate gap 0 in
    (
      length-append head (zeros ++ tail.octets)
          ∙ ap (λ n. length head + n)
              (length-append zeros tail.octets
                ∙ ap (λ n. n + length tail.octets) (length-replicate gap 0))
          ∙ omega (arith, fits.0),
      AreBytes-append head (zeros ++ tail.octets) bytes
          (AreBytes-append zeros tail.octets (AreBytes-zeros gap) fits.1),
    )

read_ipv6-Octets : (s : Text) → Octets 16 (read_ipv6 s)
unfolding read_ipv6
read_ipv6-Octets s =
    let head = read_groups 8 true s in
    let fits = read_groups-Fits 8 true s in
    elim (Bool-cases (length head.octets == 16)) [
      | inl full ↦ rw full (ground arith, fits.1)
      | inr short ↦ elim (Bool-cases head.ends_ipv4) [
        | inl closed ↦ rw (short, closed) tt
        | inr more ↦
            rw (short, more) (gap head.octets (read_gap head.rest) fits.0 (ground arith) fits.1)
      ]
    ]
  where
    gap :
        (head : List ℕ) (o : Option Text)
        → length head ≤ 2 * 8
        → length head ≢ 16
        → AreBytes head
        → Octets 16 (elim o as (λ _. Option (List ℕ × Text)) [
          | none ↦ none
          | some rest ↦ some (behind_gap head rest)
        ])
    gap head none h k bytes = tt
    gap head (some rest) h k bytes = behind_gap-Octets head rest (omega arith) k bytes

-- An IPv6 address that parses has 16 octets, each a byte.
pub parse_ipv6-octets :
    (s : Text) (octets : List ℕ)
    → parse_ipv6 s ≡ some octets
    → (length octets ≡ 16) × AreBytes octets
unfolding parse_ipv6
parse_ipv6-octets s octets e = whole-Octets 16 (read_ipv6 s) octets (read_ipv6-Octets s) e
