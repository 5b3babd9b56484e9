-- ===== src/Forwarder/Datagrams.antt =====
-- What the forwarder of src/forwarder.rs looks at in the bytes it receives.
use mini_dns.Prelude.{
  ℕ, ◌+◌, ◌*◌, ◌≡◌, ◌≢◌, refl, sym, ap, ◌∙◌, inl, inr, true, false, some, List, [], ◌∷◌, ◌++◌, ltb,
  length, Bool-cases, arith, bit_and, take, drop, take-append-drop, length-take, length-append,
  take-length_append,
}
use mini_dns.Recursive.Messages.{unframe, is_truncated}
use mini_dns.Forwarder.{same_id}

-- A datagram with the two bytes of the id that the query has.
abbrev pub HasId : List ℕ → List ℕ → Type 0
HasId query buf =
    (hi : ℕ) × (lo : ℕ) × (asked : List ℕ) × (told : List ℕ) × (query ≡ hi ∷ lo ∷ asked)
    × (buf ≡ hi ∷ lo ∷ told)

-- A message whose header begins with these flags has TC set.
abbrev pub IsCut : List ℕ → Type 0
IsCut buf =
    (a : ℕ) × (b : ℕ) × (flags : ℕ) × (c : ℕ) × (rest : List ℕ) × (buf ≡ a ∷ b ∷ flags ∷ c ∷ rest)
    × (bit_and flags 0x02 ≢ 0)

-- A stream that begins with the message, behind two bytes of its length.
abbrev pub Carries : List ℕ → List ℕ → Type 0
Carries message stream =
    (hi : ℕ) × (lo : ℕ) × (rest : List ℕ) × (stream ≡ hi ∷ lo ∷ (message ++ rest))
    × (length message ≡ hi * 256 + lo)

pub same_id-HasId : (buf query : List ℕ) → same_id buf query ≡ true → HasId query buf
unfolding same_id
same_id-HasId [] query h = absurd (ground arith)
same_id-HasId (a ∷ []) query h = absurd (ground arith)
same_id-HasId (a ∷ b ∷ buf) [] h = absurd (ground arith)
same_id-HasId (a ∷ b ∷ buf) (c ∷ []) h = absurd (ground arith)
same_id-HasId (a ∷ b ∷ buf) (c ∷ d ∷ query) h = (a, b, query, buf, ground arith, refl)

pub HasId-same_id : (buf query : List ℕ) → HasId query buf → same_id buf query ≡ true
unfolding same_id
HasId-same_id buf query (hi, lo, asked, told, e, e') = rw (e, e') (ground arith)

pub is_truncated-IsCut : (buf : List ℕ) → is_truncated buf ≡ true → IsCut buf
unfolding is_truncated
is_truncated-IsCut [] h = absurd (ground arith)
is_truncated-IsCut (a ∷ []) h = absurd (ground arith)
is_truncated-IsCut (a ∷ b ∷ []) h = absurd (ground arith)
is_truncated-IsCut (a ∷ b ∷ flags ∷ []) h = absurd (ground arith)
is_truncated-IsCut (a ∷ b ∷ flags ∷ c ∷ rest) h = (a, b, flags, c, rest, refl, λ e. ground arith)

pub IsCut-is_truncated : (buf : List ℕ) → IsCut buf → is_truncated buf ≡ true
unfolding is_truncated
IsCut-is_truncated buf (a, b, flags, c, rest, e, tc) = rw e (ground arith)

pub unframe-Carries :
    (stream message : List ℕ) → unframe stream ≡ some message → Carries message stream
unfolding unframe
unframe-Carries [] message h = absurd (ground arith)
unframe-Carries (hi ∷ []) message h = absurd (ground arith)
unframe-Carries (hi ∷ lo ∷ rest) message h = elim (Bool-cases (ltb (length rest) (hi * 256 + lo))) [
  | inl early ↦ absurd (ground arith)
  | inr all ↦
      let len = hi * 256 + lo in
      let same : take len rest ≡ message = ground arith in
      (
        hi,
        lo,
        drop len rest,
        ap (λ r. hi ∷ lo ∷ r)
            (sym (ap (λ m. m ++ drop len rest) (sym same) ∙ take-append-drop len rest)),
        ap length (sym same) ∙ length-take len rest ∙ ground arith,
      )
]

pub Carries-unframe :
    (stream message : List ℕ) → Carries message stream → unframe stream ≡ some message
unfolding unframe
Carries-unframe stream message (hi, lo, rest, e, count) =
    let enough : ltb (length (message ++ rest)) (hi * 256 + lo) ≡ false =
      ground (arith, length-append message rest) in
    let cut : take (hi * 256 + lo) (message ++ rest) ≡ message =
      ap (λ n. take n (message ++ rest)) (sym count) ∙ take-length_append message rest in
    rw (e, enough, cut) refl
