-- ===== src/LongestFirst.antt =====
-- What `ZoneSet` and `ForwardRules` of src/config.rs share: a list sorted by the length of a name,
-- longest first (`sort_by_key(|b| Reverse(…))`, a stable sort), and a search for the first match.
use mini_dns.Prelude.{
  ℕ, ◌≤◌, ◌≡◌, refl, ◌⊎◌, inl, inr, Bool, true, false, Option, none, some, List, [], ◌∷◌, ◌++◌,
  arith, leb, if◌then◌else◌, Bool-cases, leb→le,
}

module _ {A : Type 0} where
  abbrev pub All : (A → Type 0) → List A → Type 0
  All P [] = Unit
  All P (x ∷ xs) = P x × All P xs

  abbrev pub In : A → List A → Type 0
  In y [] = ⊥
  In y (x ∷ xs) = (y ≡ x) ⊎ In y xs

  pub In-append : (x : A) (xs ys : List A) → In x (xs ++ ys) → In x xs ⊎ In x ys
  In-append x [] ys i = inr i
  In-append x (y ∷ xs) ys (inl e) = inl (inl e)
  In-append x (y ∷ xs) ys (inr i) = elim (In-append x xs ys i) [
    | inl j ↦ inl (inr j)
    | inr j ↦ inr j
  ]

  pub In-left : (x : A) (xs ys : List A) → In x xs → In x (xs ++ ys)
  In-left x [] ys i = elim i [ ]
  In-left x (y ∷ xs) ys (inl e) = inl e
  In-left x (y ∷ xs) ys (inr i) = inr (In-left x xs ys i)

  pub In-right : (x : A) (xs ys : List A) → In x ys → In x (xs ++ ys)
  In-right x [] ys i = i
  In-right x (y ∷ xs) ys i = inr (In-right x xs ys i)

  unfoldable pub find_first : (A → Bool) → List A → Option A
  find_first p [] = none
  find_first p (x ∷ xs) = let rest = find_first p xs in if p x then some x else rest

  pub All-In : (P : A → Type 0) (xs : List A) → ((x : A) → In x xs → P x) → All P xs
  All-In P [] h = tt
  All-In P (x ∷ xs) h = (h x (inl refl), All-In P xs (λ y i. h y (inr i)))

  pub In-All : (P : A → Type 0) (xs : List A) (x : A) → All P xs → In x xs → P x
  In-All P [] x h i = elim i [ ]
  In-All P (y ∷ xs) x h (inl e) = rw e h.0
  In-All P (y ∷ xs) x h (inr i) = In-All P xs x h.1 i

module _ {A : Type 0} (key : A → ℕ) where
  unfoldable pub insert : A → List A → List A
  insert x [] = x ∷ []
  insert x (y ∷ ys) = let rest = insert x ys in if leb (key y) (key x) then x ∷ y ∷ ys else y ∷ rest

  unfoldable pub sort : List A → List A
  unfolding insert
  sort [] = []
  sort (x ∷ xs) = insert x (sort xs)

  -- Each element has no longer key behind it.
  abbrev pub IsSorted : List A → Type 0
  IsSorted [] = Unit
  IsSorted (x ∷ xs) = All (λ y. key y ≤ key x) xs × IsSorted xs

  In-insert : (x y : A) (ys : List A) → In y (insert x ys) → (y ≡ x) ⊎ In y ys
  unfolding insert
  In-insert x y [] i = i
  In-insert x y (z ∷ zs) i = elim (Bool-cases (leb (key z) (key x))) [
    | inl before ↦ rw (before, insert) at i
    | inr after ↦ elim (rw (after, insert) at i) [
      | inl e ↦ inr (inl e)
      | inr j ↦ elim (In-insert x y zs j) [ inl e ↦ inl e | inr k ↦ inr (inr k) ]
    ]
  ]

  insert-In : (x y : A) (ys : List A) → (y ≡ x) ⊎ In y ys → In y (insert x ys)
  unfolding insert
  insert-In x y [] i = i
  insert-In x y (z ∷ zs) i = elim (Bool-cases (leb (key z) (key x))) [
    | inl before ↦ rw (before, insert) i
    | inr after ↦
        rw (after, insert)
          (elim i [
            | inl e ↦ inr (insert-In x y zs (inl e))
            | inr (inl e) ↦ inl e
            | inr (inr j) ↦ inr (insert-In x y zs (inr j))
          ])
  ]

  pub In-sort : (y : A) (xs : List A) → In y (sort xs) → In y xs
  unfolding sort
  In-sort y [] i = i
  In-sort y (x ∷ xs) i = elim (In-insert x y (sort xs) i) [
    | inl e ↦ inl e
    | inr j ↦ inr (In-sort y xs j)
  ]

  pub sort-In : (y : A) (xs : List A) → In y xs → In y (sort xs)
  unfolding sort
  sort-In y [] i = i
  sort-In y (x ∷ xs) (inl e) = insert-In x y (sort xs) (inl e)
  sort-In y (x ∷ xs) (inr i) = insert-In x y (sort xs) (inr (sort-In y xs i))

  insert-IsSorted : (x : A) (ys : List A) → IsSorted ys → IsSorted (insert x ys)
  unfolding insert
  insert-IsSorted x [] h = (tt, tt)
  insert-IsSorted x (z ∷ zs) h = elim (Bool-cases (leb (key z) (key x))) [
    | inl before ↦
        rw (before, insert)
          (
            (
              ground arith,
              All-In _ zs (λ y i. omega (arith, In-All _ zs y h.0 i, leb→le _ _ before)),
            ),
            h,
          )
    | inr after ↦
        rw (after, insert)
          (
            All-In _ (insert x zs) (λ y i. elim (In-insert x y zs i) [
              | inl e ↦ rw e (ground arith)
              | inr j ↦ In-All _ zs y h.0 j
            ]),
            insert-IsSorted x zs h.1,
          )
  ]

  pub sort-IsSorted : (xs : List A) → IsSorted (sort xs)
  unfolding sort
  sort-IsSorted [] = tt
  sort-IsSorted (x ∷ xs) = insert-IsSorted x (sort xs) (sort-IsSorted xs)

  -- The result is a longest match, and there is none only if nothing matches.
  abbrev pub IsLongest : (A → Bool) → List A → Option A → Type 0
  IsLongest p xs none = (y : A) → In y xs → p y ≡ false
  IsLongest p xs (some x) =
      In x xs × (p x ≡ true) × ((y : A) → In y xs → p y ≡ true → key y ≤ key x)

  find_first-IsLongest :
      (p : A → Bool) (xs : List A) → IsSorted xs → IsLongest p xs (find_first p xs)
  unfolding find_first
  find_first-IsLongest p [] h = λ y i. elim i [ ]
  find_first-IsLongest p (x ∷ xs) h = elim (Bool-cases (p x)) [
    | inl hit ↦
        rw (hit, find_first)
          (
            inl refl,
            hit,
            λ y i _. elim i [ inl e ↦ rw e (omega arith) | inr j ↦ In-All _ xs y h.0 j ],
          )
    | inr miss ↦
        rw (miss, find_first) (later (find_first p xs) (find_first-IsLongest p xs h.1) miss)
  ]
    where
      later : (o : Option A) → IsLongest p xs o → p x ≡ false → IsLongest p (x ∷ xs) o
      later none all miss = λ y i. elim i [ inl e ↦ rw e miss | inr j ↦ all y j ]
      later (some z) (i, t, all) miss =
          (inr i, t, λ y j yes_y. elim j [ inl e ↦ absurd (ground arith) | inr k ↦ all y k yes_y ])

  pub IsLongest-sort : (p : A → Bool) (xs : List A) → IsLongest p xs (find_first p (sort xs))
  IsLongest-sort p xs =
      back (find_first p (sort xs)) (find_first-IsLongest p (sort xs) (sort-IsSorted xs))
    where
      back : (o : Option A) → IsLongest p (sort xs) o → IsLongest p xs o
      back none all = λ y i. all y (sort-In y xs i)
      back (some z) (i, t, all) = (In-sort z xs i, t, λ y j. all y (sort-In y xs j))
