-- ===== src/Blocklist/Domains.antt =====
-- What `is_valid_domain` of src/blocklist.rs accepts.
use mini_dns.Prelude.{
  ℕ, ◌≤◌, ◌==◌, ◌≢◌, ◌⊎◌, ◌≡◌, refl, inl, inr, true, false, List, [], ◌∷◌, arith, Bool-cases,
}
use mini_dns.LongestFirst.{All}
use mini_dns.Text.{Text, is_empty, split_dot}
use mini_dns.Blocklist.{
  is_label_char, all_label_chars, strip_star, is_valid_label, all_valid_labels, is_valid_domain,
}

-- A digit, an ASCII letter or a hyphen.
abbrev pub IsLabelChar : ℕ → Type 0
IsLabelChar c = ((48 ≤ c) × (c ≤ 57)) ⊎ ((65 ≤ c) × (c ≤ 90)) ⊎ ((97 ≤ c) × (c ≤ 122)) ⊎ (c ≡ 45)

-- At least one byte, all of them such characters, but for a star that may come first.
pub data IsLabel : Text → Type 0 where
  plain : {c : ℕ} {cs : Text} → All IsLabelChar (c ∷ cs) → IsLabel (c ∷ cs)
  starred : {cs : Text} → All IsLabelChar cs → IsLabel (b'*' ∷ cs)

-- Labels between dots, and at least one byte.
abbrev pub IsDomain : Text → Type 0
IsDomain domain = (domain ≢ []) × All IsLabel (split_dot domain)

is_label_char-IsLabelChar : (c : ℕ) → is_label_char c ≡ true → IsLabelChar c
unfolding is_label_char
is_label_char-IsLabelChar c h = grind arith

IsLabelChar-is_label_char : (c : ℕ) → IsLabelChar c → is_label_char c ≡ true
unfolding is_label_char
IsLabelChar-is_label_char c h = ground arith

all_label_chars-All : (cs : Text) → all_label_chars cs ≡ true → All IsLabelChar cs
unfolding all_label_chars
all_label_chars-All [] h = tt
all_label_chars-All (c ∷ cs) h =
    (is_label_char-IsLabelChar c (ground arith), all_label_chars-All cs (ground arith))

All-all_label_chars : (cs : Text) → All IsLabelChar cs → all_label_chars cs ≡ true
unfolding all_label_chars
All-all_label_chars [] h = refl
All-all_label_chars (c ∷ cs) (first, rest) =
    rw (IsLabelChar-is_label_char c first, All-all_label_chars cs rest) refl

is_valid_label-IsLabel : (label : Text) → is_valid_label label ≡ true → IsLabel label
unfolding is_valid_label is_empty
is_valid_label-IsLabel [] h = absurd (ground arith)
is_valid_label-IsLabel (c ∷ cs) h = elim (Bool-cases (c == b'*')) [
  | inl star ↦
      let same : c ≡ b'*' = ground arith in
      let rest : all_label_chars cs ≡ true = unfold strip_star in ground arith in
      rw same (starred (all_label_chars-All cs rest))
  | inr other ↦
      let rest : all_label_chars (c ∷ cs) ≡ true = unfold strip_star in ground arith in
      plain (all_label_chars-All (c ∷ cs) rest)
]

IsLabel-is_valid_label : (label : Text) → IsLabel label → is_valid_label label ≡ true
unfolding is_valid_label is_empty strip_star
IsLabel-is_valid_label [] h = elim h [ ]
IsLabel-is_valid_label (c ∷ cs) (plain (first, rest)) =
    let other : c == b'*' ≡ false = ground arith in
    rw other (All-all_label_chars (c ∷ cs) (first, rest))
IsLabel-is_valid_label (c ∷ cs) (starred rest) = All-all_label_chars cs rest

all_valid_labels-All : (ls : List Text) → all_valid_labels ls ≡ true → All IsLabel ls
unfolding all_valid_labels
all_valid_labels-All [] h = tt
all_valid_labels-All (l ∷ ls) h =
    (is_valid_label-IsLabel l (ground arith), all_valid_labels-All ls (ground arith))

All-all_valid_labels : (ls : List Text) → All IsLabel ls → all_valid_labels ls ≡ true
unfolding all_valid_labels
All-all_valid_labels [] h = refl
All-all_valid_labels (l ∷ ls) (first, rest) =
    rw (IsLabel-is_valid_label l first, All-all_valid_labels ls rest) refl

pub is_valid_domain-IsDomain : (d : Text) → is_valid_domain d ≡ true → IsDomain d
unfolding is_valid_domain is_empty
is_valid_domain-IsDomain [] h = absurd (ground arith)
is_valid_domain-IsDomain (c ∷ cs) h = (λ e. cc, all_valid_labels-All (split_dot (c ∷ cs)) h)

pub IsDomain-is_valid_domain : (d : Text) → IsDomain d → is_valid_domain d ≡ true
unfolding is_valid_domain is_empty
IsDomain-is_valid_domain [] (some_byte, labels) = elim (some_byte refl) [ ]
IsDomain-is_valid_domain (c ∷ cs) (some_byte, labels) =
    All-all_valid_labels (split_dot (c ∷ cs)) labels
