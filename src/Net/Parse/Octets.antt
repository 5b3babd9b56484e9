-- ===== src/Net/Parse/Octets.antt =====
-- An IPv4 address that parses has 4 octets.
use mini_dns.Prelude.{
  ℕ, zero, suc, ◌<◌, ◌≡◌, refl, ap, false, Option, none, some, List, [], ◌∷◌, ◌++◌, arith, ltb,
  length, replicate, inl, inr, Bool-cases,
}
use mathlib.Core.Path.{subst}
use mini_dns.Text.{Text, is_empty}
use mini_dns.Text.Numbers.{read_number_lt}
use mini_dns.Net.Parse.{
  read_octet, dot_octet, more_octets, read_ipv4, whole, parse_ipv4, read_given_char,
}
use mini_dns.Acl.Prefix.{AreBytes}

pub AreBytes-append : (xs ys : List ℕ) → AreBytes xs → AreBytes ys → AreBytes (xs ++ ys)
AreBytes-append [] ys h k = k
AreBytes-append (x ∷ xs) ys h k = (h.0, AreBytes-append xs ys h.1 k)

pub AreBytes-zeros : (n : ℕ) → AreBytes (replicate n 0)
AreBytes-zeros zero = tt
AreBytes-zeros (suc n) = (omega arith, AreBytes-zeros n)

-- What is read, if anything, is `n` octets.
abbrev pub Octets : ℕ → Option (List ℕ × Text) → Type 0
Octets n none = Unit
Octets n (some read) = (length read.0 ≡ n) × AreBytes read.0

abbrev IsOctet : Option (ℕ × Text) → Type 0
IsOctet none = Unit
IsOctet (some octet) = octet.0 < 256

read_octet-IsOctet : (o : Option (ℕ × Text)) (s : Text) → read_octet s ≡ o → IsOctet o
read_octet-IsOctet none s e = tt
read_octet-IsOctet (some (v, rest)) s e = read_number_lt 10 3 false 256 s v rest e

dot_octet-IsOctet : (s : Text) → IsOctet (dot_octet s)
unfolding dot_octet
dot_octet-IsOctet s = behind (read_given_char b'.' s)
  where
    behind :
        (o : Option Text)
        → IsOctet (elim o as (λ _. Option (ℕ × Text)) [ none ↦ none | some rest ↦ read_octet rest ])
    behind none = tt
    behind (some rest) = read_octet-IsOctet (read_octet rest) rest refl

push-Octets :
    (n v : ℕ) (o : Option (List ℕ × Text))
    → v < 256
    → Octets n o
    → Octets (suc n) (elim o as (λ _. Option (List ℕ × Text)) [
      | none ↦ none
      | some more ↦ some (v ∷ more.0, more.1)
    ])
push-Octets n v none h k = tt
push-Octets n v (some more) h k = (ap suc k.0, (h, k.1))

more_octets-Octets : (n : ℕ) (s : Text) → Octets n (more_octets n s)
unfolding more_octets
more_octets-Octets zero s = (refl, tt)
more_octets-Octets (suc n) s =
    next (dot_octet s) (dot_octet-IsOctet s) (λ rest. more_octets-Octets n rest)
  where
    next :
        (o : Option (ℕ × Text))
        → IsOctet o
        → ((rest : Text) → Octets n (more_octets n rest))
        → Octets (suc n) (elim o as (λ _. Option (List ℕ × Text)) [
          | none ↦ none
          | some octet ↦ elim (more_octets n octet.1) as (λ _. Option (List ℕ × Text)) [
            | none ↦ none
            | some more ↦ some (octet.0 ∷ more.0, more.1)
          ]
        ])
    next none h ih = tt
    next (some octet) h ih = push-Octets n octet.0 (more_octets n octet.1) h (ih octet.1)

pub read_ipv4-Octets : (s : Text) → Octets 4 (read_ipv4 s)
unfolding read_ipv4
read_ipv4-Octets s = first (read_octet s) (read_octet-IsOctet (read_octet s) s refl)
  where
    first :
        (o : Option (ℕ × Text))
        → IsOctet o
        → Octets 4 (elim o as (λ _. Option (List ℕ × Text)) [
          | none ↦ none
          | some octet ↦ elim (more_octets 3 octet.1) as (λ _. Option (List ℕ × Text)) [
            | none ↦ none
            | some more ↦ some (octet.0 ∷ more.0, more.1)
          ]
        ])
    first none h = tt
    first (some octet) h =
        push-Octets 3 octet.0 (more_octets 3 octet.1) h (more_octets-Octets 3 octet.1)

pub whole-Octets :
    (n : ℕ) (o : Option (List ℕ × Text)) (octets : List ℕ)
    → Octets n o
    → whole o ≡ some octets
    → (length octets ≡ n) × AreBytes octets
unfolding whole
whole-Octets n none octets h e = ground arith
whole-Octets n (some read) octets h e = elim (Bool-cases (is_empty read.1)) [
  | inl all ↦
      let same : read.0 ≡ octets = ground arith in subst (λ x. (length x ≡ n) × AreBytes x) same h
  | inr more ↦ ground arith
]

-- An IPv4 address that parses has 4 octets, each a byte.
pub parse_ipv4-octets :
    (s : Text) (octets : List ℕ)
    → parse_ipv4 s ≡ some octets
    → (length octets ≡ 4) × AreBytes octets
unfolding parse_ipv4
parse_ipv4-octets s octets e = elim (Bool-cases (ltb 15 (length s))) [
  | inl long ↦ ground arith
  | inr short ↦ whole-Octets 4 (read_ipv4 s) octets (read_ipv4-Octets s) (ground arith)
]
