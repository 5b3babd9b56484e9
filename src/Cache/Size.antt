-- ===== src/Cache/Size.antt =====
-- The bound on the number of entries in src/cache.rs.
use mini_dns.Prelude.{ℕ, suc, ◌+◌, ◌-◌, ◌*◌, ◌≤◌, ◌<◌, max, List, arith, Option-cases, inl, inr}
use mini_dns.Text.{Text, to_lowercase}
use mini_dns.DashMap.{DashMap}
use mini_dns.Cache.{
  Key, Entry, Cache, get, drop_first, evict_if_full, make_room, insert, is_live, second,
}

module _ (M : DashMap Key Entry) where
  drop_first-len : (m : M.Map) (n : ℕ) → M.len m ≤ suc n → M.len (drop_first M m) ≤ n
  unfolding drop_first
  drop_first-len m n h = elim (Option-cases (M.first m)) [
    | inl e ↦ rw (e, drop_first) (omega (arith, M.first-none m e))
    | inr (k, e) ↦
        let (v, held) = M.first-some m k e in
        rw (e, drop_first) (omega (arith, M.len-remove k v m held))
  ]

  evict_if_full-len :
      (c : Cache M.Map) (now : ℕ)
      → M.len c.map ≤ max c.capacity 1
      → M.len (evict_if_full M c now) < max c.capacity 1
  unfolding evict_if_full
  evict_if_full-len c now h =
      let kept = M.retain (is_live now) c.map in
      ground (arith, M.len-retain (is_live now) c.map, drop_first-len kept (M.len kept - 1))

  make_room-len :
      (c : Cache M.Map) (key : Key) (entry : Entry) (now : ℕ)
      → M.len c.map ≤ max c.capacity 1
      → M.len (M.insert key entry (make_room M c key now)) ≤ max c.capacity 1
  unfolding make_room
  make_room-len c key entry now h = elim (Option-cases (M.get c.map key)) [
    | inl e ↦
        rw (e, make_room)
          (omega (arith, M.len-insert key entry (evict_if_full M c now), evict_if_full-len c now h))
    | inr (old, e) ↦ rw (e, make_room) (omega (arith, M.len-insert_old key entry old c.map e))
  ]

  -- No insertion takes the cache over its capacity, which counts as one where it is zero: with
  -- capacity zero the cache still holds an entry.
  pub insert-len :
      (c : Cache M.Map) (name : Text) (qtype : ℕ) (response : List ℕ) (ttl_secs now now' : ℕ)
      → M.len c.map ≤ max c.capacity 1
      → M.len (insert M c name qtype response ttl_secs now now').map ≤ max c.capacity 1
  unfolding insert
  insert-len c name qtype response ttl_secs now now' h = ground (
    arith,
    make_room-len c (to_lowercase name, qtype)
        (record { response = response; expires_at = now' + ttl_secs * second }) now h,
  )

  -- A lookup never adds an entry.
  pub get-len :
      (c : Cache M.Map) (name : Text) (qtype now : ℕ)
      → M.len (get M c name qtype now).1.map ≤ M.len c.map
  unfolding get
  get-len c name qtype now = elim (Option-cases (M.get c.map (to_lowercase name, qtype))) [
    | inl e ↦ rw (e, get) (omega arith)
    | inr (entry, e) ↦
        rw (e, get) (ground (arith, M.len-remove (to_lowercase name, qtype) entry c.map e))
  ]
