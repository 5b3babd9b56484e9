-- ===== src/Cache.antt =====
-- src/cache.rs: the TTL cache of raw responses. Time is the count of nanoseconds that
-- `Instant::now()` reads, one argument for each call of it; the map is a `DashMap`.
pub mod Size
pub mod Contents
use mini_dns.Prelude.{
  ℕ, ◌+◌, ◌*◌, Bool, true, false, ◌&&◌, ◌||◌, Option, none, some, List, [], ltb, leb, ◌==◌,
  if◌then◌else◌, ◌≡◌, ◌↔◌, arith,
}
use mini_dns.Text.{Text, text_eq, text_eq_iff, to_lowercase, is_empty}
use mini_dns.DashMap.{DashMap}

-- The lowercase name and the query type.
abbrev pub Key : Type 0
Key = Text × ℕ

abbrev pub key_eq : Key → Key → Bool
key_eq j k = text_eq j.0 k.0 && j.1 == k.1

pub key_eq_iff : (j k : Key) → (key_eq j k ≡ true) ↔ (j ≡ k)
key_eq_iff (n, t) (m, u) = ground (arith, text_eq_iff n m)

pub record Entry : Type 0 where
  pub response : List ℕ
  pub expires_at : ℕ

pub record Cache (Map : Type 0) : Type 0 where
  pub map : Map
  pub capacity : ℕ

-- Nanoseconds in a second.
abbrev pub second : ℕ
second = 1_000_000_000

abbrev pub is_live : ℕ → Entry → Bool
is_live now entry = ltb now entry.expires_at

module _ (M : DashMap Key Entry) where
  unfoldable pub new : ℕ → Cache M.Map
  new capacity = record { map = M.empty; capacity = capacity }

  -- The response, and the cache without the entry if that has expired.
  unfoldable pub get : Cache M.Map → Text → ℕ → (now : ℕ) → Option (List ℕ) × Cache M.Map
  get c name qtype now =
      let key : Key = (to_lowercase name, qtype) in
      elim (M.get c.map key) [
        | none ↦ (none, c)
        | some entry ↦
            if is_live now entry
            then (some entry.response, c)
            else (none, record c { map = M.remove key c.map })
      ]

  -- Drops the entry that the iteration meets first.
  unfoldable pub drop_first : M.Map → M.Map
  drop_first m = elim (M.first m) [ none ↦ m | some victim ↦ M.remove victim m ]

  unfoldable pub evict_if_full : Cache M.Map → (now : ℕ) → M.Map
  evict_if_full c now =
      if ltb (M.len c.map) c.capacity
      then c.map
      else let kept = M.retain (is_live now) c.map in
        if leb c.capacity (M.len kept) then drop_first kept else kept

  -- The map that a new entry is put into.
  unfoldable pub make_room : Cache M.Map → Key → (now : ℕ) → M.Map
  make_room c key now = elim (M.get c.map key) [ some old ↦ c.map | none ↦ evict_if_full c now ]

  unfoldable pub insert : Cache M.Map → Text → ℕ → List ℕ → (ttl_secs now now' : ℕ) → Cache M.Map
  insert c name qtype response ttl_secs now now' =
      if is_empty response || ttl_secs == 0
      then c
      else let key : Key = (to_lowercase name, qtype) in
        let entry : Entry = record { response = response; expires_at = now' + ttl_secs * second } in
        record c { map = M.insert key entry (make_room c key now) }
