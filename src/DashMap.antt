-- ===== src/DashMap.antt =====
-- The crate `dashmap`, which is not part of the repository: what src/cache.rs, src/ratelimit.rs and
-- src/state.rs use of a `DashMap`, with its documented behaviour. Each call is one atomic step.
pub mod Assoc
use mini_dns.Prelude.{
  ℕ, suc, ◌≤◌, ◌<◌, ◌≡◌, ◌↔◌, Bool, true, false, Option, none, some, if◌then◌else◌,
}

-- What `retain` leaves of the entry of a key.
abbrev pub keep_if : {V : Type 0} → (V → Bool) → Option V → Option V
keep_if p none = none
keep_if p (some v) = if p v then some v else none

pub record DashMap (K V : Type 0) : Type 1 where
  pub Map : Type 0
  pub same : K → K → Bool
  pub same_iff : (j k : K) → (same j k ≡ true) ↔ (j ≡ k)
  pub empty : Map
  pub get : Map → K → Option V
  pub insert : K → V → Map → Map
  pub remove : K → Map → Map
  pub retain : (V → Bool) → Map → Map
  pub len : Map → ℕ
  -- The key that `iter().next()` stands at, in an order that the crate leaves open.
  pub first : Map → Option K
  pub get-empty : (k : K) → get empty k ≡ none
  pub get-insert :
      (j k : K) (v : V) (m : Map) → get (insert k v m) j ≡ (if same k j then some v else get m j)
  pub get-remove : (j k : K) (m : Map) → get (remove k m) j ≡ (if same k j then none else get m j)
  pub get-retain : (p : V → Bool) (j : K) (m : Map) → get (retain p m) j ≡ keep_if p (get m j)
  pub len-empty : len empty ≡ 0
  pub len-insert : (k : K) (v : V) (m : Map) → len (insert k v m) ≤ suc (len m)
  pub len-insert_old : (k : K) (v w : V) (m : Map) → get m k ≡ some w → len (insert k v m) ≤ len m
  pub len-remove : (k : K) (w : V) (m : Map) → get m k ≡ some w → len (remove k m) < len m
  pub len-retain : (p : V → Bool) (m : Map) → len (retain p m) ≤ len m
  pub first-none : (m : Map) → first m ≡ none → len m ≡ 0
  pub first-some : (m : Map) (k : K) → first m ≡ some k → (v : V) × (get m k ≡ some v)
