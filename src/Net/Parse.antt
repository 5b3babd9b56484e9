-- ===== src/Net/Parse.antt =====
-- `parse` for the addresses of the standard library: the parser of `core::net`, which gives an address
-- and what stands behind it.
pub mod Octets
pub mod Ipv6
use mini_dns.Prelude.{
  ℕ, zero, suc, ◌+◌, ◌-◌, ◌*◌, ◌/◌, ◌%◌, ◌^◌, ◌<◌, ◌≤◌, ◌≡◌, refl, ap, Bool, true, false, Option,
  none, some, List, [], ◌∷◌, ◌++◌, arith, ltb, ◌==◌, if◌then◌else◌, length, replicate,
}
use mini_dns.Text.{Text, dot, is_empty}
use mini_dns.Text.Numbers.{read_number}

abbrev pub colon : ℕ
colon = b':'

-- `read_given_char`.
unfoldable pub read_given_char : ℕ → Text → Option Text
read_given_char c [] = none
read_given_char c (d ∷ s) = if c == d then some s else none

abbrev pub read_octet : Text → Option (ℕ × Text)
read_octet s = read_number 10 3 false 256 s

-- An octet with the dot in front of it.
unfoldable pub dot_octet : Text → Option (ℕ × Text)
dot_octet s = elim (read_given_char dot s) [ none ↦ none | some rest ↦ read_octet rest ]

-- `read_ipv4_addr`, from the octet of a given number on.
unfoldable pub more_octets : ℕ → Text → Option (List ℕ × Text)
more_octets zero s = some ([], s)
more_octets (suc n) s = elim (dot_octet s) [
  | none ↦ none
  | some octet ↦ elim (more_octets n octet.1) [
    | none ↦ none
    | some more ↦ some (octet.0 ∷ more.0, more.1)
  ]
]

unfoldable pub read_ipv4 : Text → Option (List ℕ × Text)
read_ipv4 s = elim (read_octet s) [
  | none ↦ none
  | some octet ↦ elim (more_octets 3 octet.1) [
    | none ↦ none
    | some more ↦ some (octet.0 ∷ more.0, more.1)
  ]
]

-- The address, if it is the whole text.
unfoldable pub whole : Option (List ℕ × Text) → Option (List ℕ)
whole none = none
whole (some read) = if is_empty read.1 then some read.0 else none

unfoldable pub parse_ipv4 : Text → Option (List ℕ)
parse_ipv4 s = if ltb 15 (length s) then none else whole (read_ipv4 s)

-- `read_separator`: a colon in front of all but the first group.
unfoldable pub separated : (first : Bool) → Text → Option Text
separated true s = some s
separated false s = read_given_char colon s

unfoldable pub hex_group : (first : Bool) → Text → Option (ℕ × Text)
hex_group first s = elim (separated first s) [
  | none ↦ none
  | some rest ↦ read_number 16 4 true (2 ^ 16) rest
]

-- An IPv4 address takes the place of two groups, so that it needs another one behind this.
unfoldable pub ipv4_group : (behind : ℕ) (first : Bool) → Text → Option (List ℕ × Text)
ipv4_group zero first s = none
ipv4_group (suc behind) first s = elim (separated first s) [
  | none ↦ none
  | some rest ↦ read_ipv4 rest
]

-- What `read_groups` gives: the octets, whether they end with an IPv4 address, and the rest.
pub record Groups : Type 0 where
  pub octets : List ℕ
  pub ends_ipv4 : Bool
  pub rest : Text

-- `read_groups`, for as many groups as are left.
unfoldable pub read_groups : (left : ℕ) (first : Bool) → Text → Groups
read_groups zero first s = record { octets = []; ends_ipv4 = false; rest = s }
read_groups (suc left) first s = elim (ipv4_group left first s) [
  | some read ↦ record { octets = read.0; ends_ipv4 = true; rest = read.1 }
  | none ↦ elim (hex_group first s) [
    | none ↦ record { octets = []; ends_ipv4 = false; rest = s }
    | some group ↦
        let more = read_groups left false group.1 in
        record more { octets = group.0 / 256 ∷ group.0 % 256 ∷ more.octets }
  ]
]

-- The two colons that stand for zeros.
unfoldable pub read_gap : Text → Option Text
read_gap s = elim (read_given_char colon s) [ none ↦ none | some rest ↦ read_given_char colon rest ]

-- The groups behind the gap, at the end of the address.
unfoldable pub behind_gap : List ℕ → Text → List ℕ × Text
behind_gap head s =
    let tail = read_groups (8 - (length head / 2 + 1)) true s in
    (head ++ (replicate (16 - (length head + length tail.octets)) 0 ++ tail.octets), tail.rest)

unfoldable pub read_ipv6 : Text → Option (List ℕ × Text)
read_ipv6 s =
    let head = read_groups 8 true s in
    if length head.octets == 16
    then some (head.octets, head.rest)
    else if head.ends_ipv4
    then none
    else elim (read_gap head.rest) [ none ↦ none | some rest ↦ some (behind_gap head.octets rest) ]

unfoldable pub parse_ipv6 : Text → Option (List ℕ)
parse_ipv6 s = whole (read_ipv6 s)

-- "1.2.3.4", and "01.2.3.4", which has a leading zero.
reads_ipv4 :
    (parse_ipv4 (b'1' ∷ dot ∷ b'2' ∷ dot ∷ b'3' ∷ dot ∷ b'4' ∷ []) ≡ some (1 ∷ 2 ∷ 3 ∷ 4 ∷ []))
    × (parse_ipv4 (b'0' ∷ b'1' ∷ dot ∷ b'2' ∷ dot ∷ b'3' ∷ dot ∷ b'4' ∷ []) ≡ none)
unfolding parse_ipv4 whole read_ipv4 read_number is_empty mini_dns.Text.Numbers.read_digits
    mini_dns.Text.Numbers.to_digit mini_dns.Text.Numbers.leads_zero mini_dns.Text.Numbers.value_of
    more_octets dot_octet read_given_char
reads_ipv4 = (refl, refl)

-- "ab::1.2.3.4".
reads_ipv6 :
    parse_ipv6 (b'a' ∷ b'b' ∷ colon ∷ colon ∷ b'1' ∷ dot ∷ b'2' ∷ dot ∷ b'3' ∷ dot ∷ b'4' ∷ [])
    ≡ some (0 ∷ 0xAB ∷ replicate 10 0 ++ (1 ∷ 2 ∷ 3 ∷ 4 ∷ []))
unfolding parse_ipv6 whole read_ipv6 read_groups ipv4_group separated read_ipv4 read_number is_empty
    mini_dns.Text.Numbers.read_digits mini_dns.Text.Numbers.to_digit
    mini_dns.Text.Numbers.leads_zero mini_dns.Text.Numbers.value_of hex_group read_given_char
    read_gap behind_gap more_octets dot_octet
reads_ipv6 = refl
