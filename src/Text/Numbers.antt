-- ===== src/Text/Numbers.antt =====
-- Numbers in texts: `parse` for the unsigned integers of the standard library, and the numbers that
-- its parser of addresses reads.
use mini_dns.Prelude.{
  ℕ, ◌+◌, ◌-◌, ◌*◌, ◌<◌, ◌≡◌, refl, Bool, false, ◌&&◌, ◌||◌, not, Option, none, some, List, [], ◌∷◌,
  arith, leb, ltb, ◌==◌, if◌then◌else◌, length, Bool-cases, inl, inr,
}
use mini_dns.Text.{Text, is_empty}

-- `char::to_digit`, for a radix of at most 16.
unfoldable pub to_digit : (radix c : ℕ) → Option ℕ
to_digit radix c =
    let value =
      if leb b'0' c && leb c b'9'
      then c - b'0'
      else if leb b'a' c && leb c b'f'
      then c - b'a' + 10
      else if leb b'A' c && leb c b'F'
      then c - b'A' + 10
      else radix in
    if ltb value radix then some value else none

-- The value of decimal digits in front of which `acc` stands, below `limit`.
unfoldable pub parse_digits : (limit acc : ℕ) → Text → Option ℕ
parse_digits limit acc [] = some acc
parse_digits limit acc (c ∷ s) = elim (to_digit 10 c) [
  | none ↦ none
  | some d ↦
      let v = acc * 10 + d in
      let rest = parse_digits limit v s in if ltb v limit then rest else none
]

-- `s.parse::<uN>()`, with `limit` 2 ^ N: a plus sign may stand in front of the digits.
unfoldable pub parse_unsigned : (limit : ℕ) → Text → Option ℕ
parse_unsigned limit [] = none
parse_unsigned limit (c ∷ s) =
    if c == b'+'
    then (if is_empty s then none else parse_digits limit 0 s)
    else parse_digits limit 0 (c ∷ s)

-- The digits at the front, and what stands behind them.
unfoldable pub read_digits : (radix : ℕ) → Text → List ℕ × Text
read_digits radix [] = ([], [])
read_digits radix (c ∷ s) =
    let rest = read_digits radix s in
    elim (to_digit radix c) [ none ↦ ([], c ∷ s) | some d ↦ (d ∷ rest.0, rest.1) ]

unfoldable pub value_of : (radix acc : ℕ) → List ℕ → ℕ
value_of radix acc [] = acc
value_of radix acc (d ∷ ds) = value_of radix (acc * radix + d) ds

unfoldable pub leads_zero : List ℕ → Bool
leads_zero [] = false
leads_zero (d ∷ ds) = d == 0

-- `read_number`: at most `max_digits` digits, of a value below `limit`.
unfoldable pub read_number :
    (radix max_digits : ℕ) (allow_zero_prefix : Bool) (limit : ℕ) → Text → Option (ℕ × Text)
read_number radix max_digits allow_zero_prefix limit s =
    let (ds, rest) = read_digits radix s in
    let v = value_of radix 0 ds in
    if is_empty ds || ltb max_digits (length ds)
    then none
    else if not allow_zero_prefix && (leads_zero ds && ltb 1 (length ds))
    then none
    else if ltb v limit
    then some (v, rest)
    else none

pub parse_digits_lt :
    (limit acc : ℕ) (s : Text) (v : ℕ) → acc < limit → parse_digits limit acc s ≡ some v → v < limit
unfolding parse_digits
parse_digits_lt limit acc [] v h e = ground arith
parse_digits_lt limit acc (c ∷ s) v h e =
    digit (to_digit 10 c) (λ d small. parse_digits_lt limit (acc * 10 + d) s v small) e
  where
    digit :
        (o : Option ℕ)
        → ((d : ℕ)
            → acc * 10 + d < limit
            → parse_digits limit (acc * 10 + d) s ≡ some v
            → v < limit)
        → (elim o as (λ _. Option ℕ) [
          | none ↦ none
          | some d ↦ if ltb (acc * 10 + d) limit then parse_digits limit (acc * 10 + d) s else none
        ])
          ≡ some v
        → v < limit
    digit none ih e' = ground arith
    digit (some d) ih e' = elim (Bool-cases (ltb (acc * 10 + d) limit)) [
      | inl small ↦ ih d (ground arith) (ground arith)
      | inr large ↦ ground arith
    ]

pub parse_unsigned_lt :
    (limit : ℕ) (s : Text) (v : ℕ) → 0 < limit → parse_unsigned limit s ≡ some v → v < limit
unfolding parse_unsigned
parse_unsigned_lt limit [] v h e = ground arith
parse_unsigned_lt limit (c ∷ s) v h e = elim (Bool-cases (c == b'+')) [
  | inl plus ↦ elim (Bool-cases (is_empty s)) [
    | inl bare ↦ ground arith
    | inr digits ↦ parse_digits_lt limit 0 s v h (ground arith)
  ]
  | inr plain ↦ parse_digits_lt limit 0 (c ∷ s) v h (ground arith)
]

pub read_number_lt :
    (radix max_digits : ℕ) (allow_zero_prefix : Bool) (limit : ℕ) (s : Text) (v : ℕ) (rest : Text)
    → read_number radix max_digits allow_zero_prefix limit s ≡ some (v, rest)
    → v < limit
unfolding read_number
read_number_lt radix max_digits allow_zero_prefix limit s v rest e = ground arith

reads_prefix : parse_unsigned 256 (b'2' ∷ b'4' ∷ []) ≡ some 24
unfolding parse_unsigned parse_digits to_digit
reads_prefix = refl

overflows : parse_unsigned 256 (b'2' ∷ b'5' ∷ b'6' ∷ []) ≡ none
unfolding parse_unsigned parse_digits to_digit
overflows = refl
