-- ===== src/Cache/Contents.antt =====
-- What the cache of src/cache.rs gives back, against a store that forgets nothing.
use mini_dns.Prelude.{
  ℕ, ◌+◌, ◌*◌, ◌<◌, ◌≡◌, ◌≢◌, ◌||◌, inl, inr, Option, some, List, [], arith, ◌==◌, if◌then◌else◌,
  Option-cases, Bool-cases,
}
use mini_dns.Text.{Text, to_lowercase, is_empty}
use mini_dns.DashMap.{DashMap}
use mini_dns.Cache.{
  Key, Entry, Cache, get, drop_first, evict_if_full, make_room, insert, is_live, second,
}

-- The entry that `insert` makes of a response.
abbrev pub entry_of : List ℕ → ℕ → ℕ → Entry
entry_of response ttl_secs now' = record {
  response = response;
  expires_at = now' + ttl_secs * second;
}

module _ (M : DashMap Key Entry) where
  -- Each key with the last response that was stored under it.
  abbrev pub Store : Type 0
  Store = Key → Option Entry

  abbrev pub put : Store → Key → Entry → Store
  put s key entry j = if M.same key j then some entry else s j

  abbrev pub store_insert : Store → Text → ℕ → List ℕ → (ttl_secs now' : ℕ) → Store
  store_insert s name qtype response ttl_secs now' =
      if is_empty response || ttl_secs == 0
      then s
      else put s (to_lowercase name, qtype) (entry_of response ttl_secs now')

  -- The cache holds a part of the store.
  abbrev pub Refines : Cache M.Map → Store → Type 0
  Refines c s = (key : Key) (entry : Entry) → M.get c.map key ≡ some entry → s key ≡ some entry

  drop_first-sub :
      (m : M.Map) (key : Key) (entry : Entry)
      → M.get (drop_first M m) key ≡ some entry
      → M.get m key ≡ some entry
  unfolding drop_first
  drop_first-sub m key entry e = elim (Option-cases (M.first m)) [
    | inl none_left ↦ ground arith
    | inr (victim, at) ↦ ground (arith, M.get-remove key victim m)
  ]

  make_room-sub :
      (c : Cache M.Map) (new_key key : Key) (entry : Entry) (now : ℕ)
      → M.get (make_room M c new_key now) key ≡ some entry
      → M.get c.map key ≡ some entry
  unfolding make_room evict_if_full
  make_room-sub c new_key key entry now e =
      let kept = M.retain (is_live now) c.map in
      ground (arith, M.get-retain (is_live now) key c.map, drop_first-sub kept key entry)

  -- Storing a response in the cache and in the store keeps the one a part of the other.
  pub insert-Refines :
      (c : Cache M.Map) (s : Store) (name : Text) (qtype : ℕ) (response : List ℕ)
      (ttl_secs now now' : ℕ)
      → Refines c s
      → Refines
          (insert M c name qtype response ttl_secs now now')
          (store_insert s name qtype response ttl_secs now')
  unfolding insert
  insert-Refines c s name qtype response ttl_secs now now' h key entry e =
      let new_key : Key = (to_lowercase name, qtype) in
      ground (
        arith,
        M.get-insert key new_key (entry_of response ttl_secs now') (make_room M c new_key now),
        make_room-sub c new_key key entry now,
        h key entry,
      )

  -- A lookup that answers gives the last response that was stored for the name, in any case of
  -- letters, and the type, and only before it expires. What it leaves is still a part of the store.
  pub get-Refines :
      (c : Cache M.Map) (s : Store) (name : Text) (qtype now : ℕ)
      → Refines c s
      → Refines (get M c name qtype now).1 s
        × ((response : List ℕ)
            → (get M c name qtype now).0 ≡ some response
            → (entry : Entry) × (s (to_lowercase name, qtype) ≡ some entry)
              × (entry.response ≡ response)
              × (now < entry.expires_at))
  unfolding get
  get-Refines c s name qtype now h =
      let key : Key = (to_lowercase name, qtype) in
      elim (Option-cases (M.get c.map key)) [
        | inl e ↦ rw (e, get) (h, λ response e'. absurd (ground arith))
        | inr (entry, e) ↦ elim (Bool-cases (is_live now entry)) [
          | inl live ↦
              rw (e, get, live)
                (h, λ response e'. (entry, h key entry e, ground arith, ground arith))
          | inr expired ↦
              rw (e, get, expired)
                (
                  (λ k' x e'. h k' x (ground (arith, M.get-remove k' key c.map))),
                  λ response e'. absurd (ground arith),
                )
        ]
      ]

  -- Right after a response is stored, a lookup for the same name in any case of letters returns it,
  -- as long as it has not expired.
  pub get-insert :
      (c : Cache M.Map) (name asked : Text) (qtype : ℕ) (response : List ℕ)
      (ttl_secs now now' later : ℕ)
      → response ≢ []
      → ttl_secs ≢ 0
      → to_lowercase asked ≡ to_lowercase name
      → later < now' + ttl_secs * second
      → (get M (insert M c name qtype response ttl_secs now now') asked qtype later).0
        ≡ some response
  unfolding insert get is_empty
  get-insert c name asked qtype response ttl_secs now now' later h k same unexpired =
      let key : Key = (to_lowercase name, qtype) in
      let entry = entry_of response ttl_secs now' in
      rw (same, get)
        (ground (arith, M.get-insert key key entry (make_room M c key now), M.same_iff key key))

  drop_first-keeps :
      (m : M.Map) (key : Key) (entry : Entry)
      → M.get m key ≡ some entry
      → M.first m ≢ some key
      → M.get (drop_first M m) key ≡ some entry
  unfolding drop_first
  drop_first-keeps m key entry e other = elim (Option-cases (M.first m)) [
    | inl none_left ↦ rw (none_left, drop_first) e
    | inr (victim, at) ↦ ground (arith, M.get-remove key victim m, M.same_iff victim key)
  ]

  make_room-keeps :
      (c : Cache M.Map) (new_key key : Key) (entry : Entry) (now : ℕ)
      → M.get c.map key ≡ some entry
      → now < entry.expires_at
      → M.first (M.retain (is_live now) c.map) ≢ some key
      → M.get (make_room M c new_key now) key ≡ some entry
  unfolding make_room evict_if_full
  make_room-keeps c new_key key entry now e live other =
      let kept = M.retain (is_live now) c.map in
      ground (arith, M.get-retain (is_live now) key c.map, drop_first-keeps kept key entry)

  -- An insertion keeps every live entry under another key, except at most the one that the
  -- iteration over the live entries meets first.
  pub insert-keeps :
      (c : Cache M.Map) (name : Text) (qtype : ℕ) (response : List ℕ) (ttl_secs now now' : ℕ)
      (key : Key) (entry : Entry)
      → M.get c.map key ≡ some entry
      → now < entry.expires_at
      → key ≢ (to_lowercase name, qtype)
      → M.first (M.retain (is_live now) c.map) ≢ some key
      → M.get (insert M c name qtype response ttl_secs now now').map key ≡ some entry
  unfolding insert
  insert-keeps c name qtype response ttl_secs now now' key entry e live other kept =
      let new_key : Key = (to_lowercase name, qtype) in
      ground (
        arith,
        M.get-insert key new_key (entry_of response ttl_secs now') (make_room M c new_key now),
        M.same_iff new_key key,
        make_room-keeps c new_key key entry now e live kept,
      )
