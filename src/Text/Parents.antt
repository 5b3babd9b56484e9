-- ===== src/Text/Parents.antt =====
-- The loop that dns/resolver.rs (`lookup`) and blocklist.rs (`is_blocked`) both run over a name:
-- `while let Some(pos) = remainder.find('.') { remainder = &remainder[pos + 1..]; … }`. It visits
-- what stands behind each dot, from the left: the parent domains, the longest first.
use native.Mathlib.Decide.{ℕ_discrete}
use mini_dns.Prelude.{
  ap, ℕ, ◌≡◌, Option, none, some, List, [], ◌∷◌, ◌++◌, arith, ◌==◌, if◌then◌else◌, ◌<◌, length, ◌≡◌,
  ◌++◌, inl, inr, Option-cases,
}

module _ {ℓ} {A : Type ℓ} (test : List ℕ → Option A) where
  -- The first parent at which `test` has a result, with that result.
  unfoldable pub find_parent : List ℕ → Option A
  find_parent [] = none
  find_parent (c ∷ remainder) =
      let deeper = find_parent remainder in
      if c == b'.' then (elim (test remainder) [ some a ↦ some a | none ↦ deeper ]) else deeper

  -- The parent domains of a name: what stands behind one of its dots. A shorter front is a longer
  -- parent. The result is that of the longest parent that has one.
  abbrev pub IsNearest : List ℕ → Option A → Type ℓ
  IsNearest name none = (front rest : List ℕ) → name ≡ front ++ (b'.' ∷ rest) → test rest ≡ none
  IsNearest name (some x) =
      (front : List ℕ) × (rest : List ℕ) × (name ≡ front ++ (b'.' ∷ rest))
      × (test rest ≡ some x)
      × ((front' rest' : List ℕ)
          → name ≡ front' ++ (b'.' ∷ rest')
          → length front' < length front
          → test rest' ≡ none)

  not_in_nil : (front rest : List ℕ) → [] ≡ front ++ (b'.' ∷ rest) → test rest ≡ none
  not_in_nil [] rest e = cc
  not_in_nil (x ∷ front) rest e = cc

  -- A parent of `c ∷ remainder` is `remainder` itself, behind a dot, or a parent of it.
  deeper-none :
      (c : ℕ) (remainder : List ℕ)
      → (c ≡ b'.' → test remainder ≡ none)
      → IsNearest remainder none
      → IsNearest (c ∷ remainder) none
  deeper-none c remainder here all = elim [
    | [] ↦ λ rest e. ground (arith, here)
    | x ∷ front ↦ λ rest e. all front rest (ground arith)
  ]

  deeper-some :
      (c : ℕ) (remainder : List ℕ) (x : A)
      → (c ≡ b'.' → test remainder ≡ none)
      → IsNearest remainder (some x)
      → IsNearest (c ∷ remainder) (some x)
  deeper-some c remainder x here (front, rest, e, hit, all) = (
    c ∷ front,
    rest,
    ap (◌∷◌ c) e,
    hit,
    elim [
      | [] ↦ λ rest' e' shorter. ground (arith, here)
      | y ∷ front' ↦ λ rest' e' shorter. all front' rest' (ground arith) (omega arith)
    ],
  )

  deeper :
      (o : Option A) (c : ℕ) (remainder : List ℕ)
      → (c ≡ b'.' → test remainder ≡ none)
      → IsNearest remainder o
      → IsNearest (c ∷ remainder) o
  deeper none c remainder = deeper-none c remainder
  deeper (some x) c remainder = deeper-some c remainder x

  -- The loop has a result exactly where some parent has one, and it is the longest parent's.
  pub find_parent-IsNearest : (name : List ℕ) → IsNearest name (find_parent name)
  unfolding find_parent
  find_parent-IsNearest [] = not_in_nil
  find_parent-IsNearest (c ∷ remainder) = elim (ℕ_discrete c b'.') [
    | yes e ↦ elim (Option-cases (test remainder)) [
      | inl miss ↦
          let same : find_parent (c ∷ remainder) ≡ find_parent remainder = ground arith in
          rw same (
            deeper (find_parent remainder) c remainder (λ _. miss)
              (find_parent-IsNearest remainder))
      | inr (x, hit) ↦
          let same : find_parent (c ∷ remainder) ≡ some x = ground arith in
          rw same ([], remainder, rw e, hit, λ front' rest' e' shorter. absurd (omega arith))
    ]
    | no other ↦
        let same : find_parent (c ∷ remainder) ≡ find_parent remainder = ground arith in
        rw same (
          deeper (find_parent remainder) c remainder (λ e. absurd (other e))
            (find_parent-IsNearest remainder))
  ]
