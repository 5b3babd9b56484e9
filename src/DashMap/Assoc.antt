-- ===== src/DashMap/Assoc.antt =====
-- An association list behaves as src/'s users of `DashMap` rely on.
use mini_dns.Prelude.{
  ◌≤◌, ◌<◌, ◌≡◌, refl, ◌↔◌, Bool, true, Option, none, some, List, [], ◌∷◌, arith, length,
  if◌then◌else◌,
}
use mini_dns.DashMap.{DashMap, keep_if}

module _ {K V : Type 0} (same : K → K → Bool)
    (same_iff : (j k : K) → (same j k ≡ true) ↔ (j ≡ k)) where
  abbrev pub get : List (K × V) → K → Option V
  get [] j = none
  get ((k, v) ∷ m) j = if same k j then some v else get m j

  abbrev pub remove : K → List (K × V) → List (K × V)
  remove j [] = []
  remove j ((k, v) ∷ m) = if same k j then remove j m else (k, v) ∷ remove j m

  abbrev pub retain : (V → Bool) → List (K × V) → List (K × V)
  retain p [] = []
  retain p ((k, v) ∷ m) = if p v then (k, v) ∷ remove k (retain p m) else remove k (retain p m)

  abbrev pub first : List (K × V) → Option K
  first [] = none
  first ((k, v) ∷ m) = some k

  pub get-remove :
      (j k : K) (m : List (K × V)) → get (remove k m) j ≡ (if same k j then none else get m j)
  get-remove j k [] = ground arith
  get-remove j k ((i, v) ∷ m) =
      ground (arith, same_iff i j, same_iff i k, same_iff k j, get-remove j k m)

  pub get-insert :
      (j k : K) (v : V) (m : List (K × V))
      → get ((k, v) ∷ remove k m) j ≡ (if same k j then some v else get m j)
  get-insert j k v m = ground (arith, get-remove j k m)

  pub get-retain :
      (p : V → Bool) (j : K) (m : List (K × V)) → get (retain p m) j ≡ keep_if p (get m j)
  get-retain p j [] = refl
  get-retain p j ((i, v) ∷ m) =
      ground (arith, same_iff i j, get-retain p j m, get-remove j i (retain p m))

  pub length-remove_le : (k : K) (m : List (K × V)) → length (remove k m) ≤ length m
  length-remove_le k [] = omega arith
  length-remove_le k ((i, v) ∷ m) = ground (arith, length-remove_le k m)

  pub length-remove :
      (k : K) (w : V) (m : List (K × V)) → get m k ≡ some w → length (remove k m) < length m
  length-remove k w [] e = absurd (ground arith)
  length-remove k w ((i, v) ∷ m) e = ground (arith, length-remove_le k m, length-remove k w m)

  pub length-retain : (p : V → Bool) (m : List (K × V)) → length (retain p m) ≤ length m
  length-retain p [] = omega arith
  length-retain p ((i, v) ∷ m) = ground (arith, length-retain p m, length-remove_le i (retain p m))

  pub first-some : (m : List (K × V)) (k : K) → first m ≡ some k → (v : V) × (get m k ≡ some v)
  first-some [] k e = absurd (ground arith)
  first-some ((i, v) ∷ m) k e = (v, ground (arith, same_iff i k))

  pub first-none : (m : List (K × V)) → first m ≡ none → length m ≡ 0
  first-none [] e = refl
  first-none (p ∷ m) e = absurd (ground arith)

  abbrev pub assoc : DashMap K V
  assoc = record {
    Map = List (K × V);
    same = same;
    same_iff = same_iff;
    empty = [];
    get = get;
    insert = λ k v m. (k, v) ∷ remove k m;
    remove = remove;
    retain = retain;
    len = length;
    first = first;
    get-empty = λ k. refl;
    get-insert = get-insert;
    get-remove = get-remove;
    get-retain = get-retain;
    len-empty = refl;
    len-insert = λ k v m. omega (arith, length-remove_le k m);
    len-insert_old = λ k v w m e. length-remove k w m e;
    len-remove = length-remove;
    len-retain = length-retain;
    first-none = first-none;
    first-some = first-some;
  }
