-- ===== src/Text.antt =====
-- Rust's `String` and `&str` as the list of their UTF-8 bytes, with the methods of the standard
-- library that the program calls on them: equality, `to_lowercase` (of ASCII letters: the Unicode
-- case tables are not modelled, other bytes stay), `ends_with`, `split('.')`, `join`, and the
-- search for the next dot that the wildcard loops of dns/resolver.rs and blocklist.rs share.
pub mod Utf8
pub mod Parents
pub mod Lines
pub mod Pieces
pub mod Numbers
use mini_dns.Prelude.{
  ℕ, ◌+◌, ◌≡◌, refl, ◌↔◌, Bool, true, false, ◌&&◌, Option, none, some, List, [], ◌∷◌, ◌++◌, map,
  arith, leb, ◌==◌, if◌then◌else◌, ap, sym, ◌∙◌, inl, inr, Bool-cases,
}

abbrev pub Text : Type 0
Text = List ℕ

-- The code of a dot.
abbrev pub dot : ℕ
dot = b'.'

unfoldable pub text_eq : Text → Text → Bool
text_eq [] [] = true
text_eq [] (b ∷ bs) = false
text_eq (a ∷ as') [] = false
text_eq (a ∷ as') (b ∷ bs) = a == b && text_eq as' bs

pub text_eq_refl : (s : Text) → text_eq s s ≡ true
unfolding text_eq
text_eq_refl [] = refl
text_eq_refl (c ∷ s) = ground (arith, text_eq_refl s)

pub text_eq→eq : (s t : Text) → text_eq s t ≡ true → s ≡ t
unfolding text_eq
text_eq→eq [] [] h = refl
text_eq→eq [] (b ∷ t) h = ground arith
text_eq→eq (a ∷ s) [] h = ground arith
text_eq→eq (a ∷ s) (b ∷ t) h = ground (arith, text_eq→eq s t)

pub text_eq_iff : (s t : Text) → (text_eq s t ≡ true) ↔ (s ≡ t)
text_eq_iff s t = (text_eq→eq s t, λ e. ground (arith, text_eq_refl t))

unfoldable pub is_empty {ℓ} : {A : Type ℓ} → List A → Bool
is_empty [] = true
is_empty (x ∷ xs) = false

pub is_empty_iff {ℓ} : {A : Type ℓ} (xs : List A) → (is_empty xs ≡ true) ↔ (xs ≡ [])
unfolding is_empty
is_empty_iff [] = ((λ _. refl), (λ _. refl))
is_empty_iff (x ∷ xs) = ((λ e. cc), (λ e. cc))

lower_byte : ℕ → ℕ
lower_byte c = if leb b'A' c && leb c b'Z' then c + 32 else c

unfoldable pub to_lowercase : Text → Text
unfolding lower_byte
to_lowercase = map lower_byte

lower_byte_idem : (c : ℕ) → lower_byte (lower_byte c) ≡ lower_byte c
unfolding lower_byte
lower_byte_idem c = ground arith

pub to_lowercase_idem : (s : Text) → to_lowercase (to_lowercase s) ≡ to_lowercase s
unfolding to_lowercase
to_lowercase_idem [] = refl
to_lowercase_idem (c ∷ s) = cc (lower_byte_idem c, to_lowercase_idem s)

-- `s.ends_with(t)`: some tail of `s` is `t`.
unfoldable pub ends_with : Text → Text → Bool
unfolding is_empty
ends_with [] t = is_empty t
ends_with (c ∷ s) t = let later = ends_with s t in if text_eq (c ∷ s) t then true else later

pub ends_with→eq : (s t : Text) → ends_with s t ≡ true → (front : Text) × (s ≡ front ++ t)
unfolding ends_with
ends_with→eq [] [] h = ([], refl)
ends_with→eq [] (c ∷ t) h = ground arith
ends_with→eq (c ∷ s) t h = elim (Bool-cases (text_eq (c ∷ s) t)) [
  | inl whole ↦ ([], text_eq→eq (c ∷ s) t whole)
  | inr other ↦ let (front, e) = ends_with→eq s t (ground arith) in (c ∷ front, ap (◌∷◌ c) e)
]

-- A text ends with each of its tails.
pub ends_with-append : (front t : Text) → ends_with (front ++ t) t ≡ true
unfolding ends_with
ends_with-append [] [] = refl
ends_with-append [] (c ∷ t) = ground (arith, text_eq_refl (c ∷ t))
ends_with-append (c ∷ front) t = ground (arith, ends_with-append front t)

-- `s.split('.')`: the pieces between the dots, one more than there are dots.
cons_head : ℕ → List Text → List Text
cons_head c [] = (c ∷ []) ∷ []
cons_head c (piece ∷ pieces) = (c ∷ piece) ∷ pieces

unfoldable pub split_dot : Text → List Text
unfolding cons_head
split_dot [] = [] ∷ []
split_dot (c ∷ s) = let rest = split_dot s in if c == dot then [] ∷ rest else cons_head c rest

-- `labels.join(".")`.
unfoldable pub join_dot : List Text → Text
join_dot [] = []
join_dot (l ∷ []) = l
join_dot (l ∷ m ∷ ls) = l ++ (dot ∷ join_dot (m ∷ ls))

pub split_dot-cons : (s : Text) → (l : Text) × (ls : List Text) × (split_dot s ≡ l ∷ ls)
unfolding split_dot cons_head
split_dot-cons [] = ([], [], refl)
split_dot-cons (c ∷ s) =
    let (l, ls, e) = split_dot-cons s in
    elim (Bool-cases (c == dot)) [
      | inl here ↦ ([], l ∷ ls, rw (here, split_dot, e) refl)
      | inr other ↦ (c ∷ l, ls, rw (other, split_dot, e) refl)
    ]

join_dot-cons_head :
    (c : ℕ) (l : Text) (ls : List Text) → join_dot (cons_head c (l ∷ ls)) ≡ c ∷ join_dot (l ∷ ls)
unfolding join_dot cons_head
join_dot-cons_head c l [] = refl
join_dot-cons_head c l (m ∷ ms) = refl

pub join_dot-split_dot : (s : Text) → join_dot (split_dot s) ≡ s
unfolding join_dot split_dot
join_dot-split_dot [] = refl
join_dot-split_dot (c ∷ s) =
    let (l, ls, e) = split_dot-cons s in
    let rest : join_dot (l ∷ ls) ≡ s = ap join_dot (sym e) ∙ join_dot-split_dot s in
    elim (Bool-cases (c == dot)) [
      | inl here ↦ rw (here, split_dot, e) (ground (arith, ap (◌∷◌ c) rest))
      | inr other ↦ rw (other, split_dot, e) (join_dot-cons_head c l ls ∙ ap (◌∷◌ c) rest)
    ]

-- `trim_end_matches('.')`.
unfoldable pub trim_end_dots : Text → Text
trim_end_dots [] = []
trim_end_dots (c ∷ s) =
    let rest = trim_end_dots s in
    if is_empty rest then (if c == dot then [] else c ∷ []) else c ∷ rest

trims : trim_end_dots (b'a' ∷ dot ∷ b'b' ∷ dot ∷ dot ∷ []) ≡ b'a' ∷ dot ∷ b'b' ∷ []
unfolding trim_end_dots is_empty
trims = refl

-- `strip_suffix('.')`, and `if s.ends_with('.') { s.pop(); }`.
unfoldable pub strip_dot : Text → Text
strip_dot [] = []
strip_dot (c ∷ []) = if c == dot then [] else c ∷ []
strip_dot (c ∷ d ∷ s) = c ∷ strip_dot (d ∷ s)

-- `contains` of a slice or a set of strings.
unfoldable pub contains : List Text → Text → Bool
contains [] name = false
contains (x ∷ xs) name = let rest = contains xs name in if text_eq x name then true else rest

pub contains_refl : (xs : List Text) (x : Text) → contains (x ∷ xs) x ≡ true
unfolding contains
contains_refl xs x = ground (arith, text_eq_refl x)
