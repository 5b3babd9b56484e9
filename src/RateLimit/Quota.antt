-- ===== src/RateLimit/Quota.antt =====
-- How many queries of a client the limiter of src/ratelimit.rs lets through in a window, whatever
-- other clients send in between.
use mini_dns.Prelude.{
  ℕ, suc, ◌+◌, ◌-◌, ◌^◌, ◌≤◌, ◌<◌, ◌≡◌, ◌≢◌, min, Bool, true, false, ◌⊎◌, inl, inr, none, some,
  List, [], ◌∷◌, arith, leb, if◌then◌else◌, Bool-cases,
}
use mini_dns.Net.{IpAddr}
use mini_dns.DashMap.{DashMap}
use mini_dns.RateLimit.{Window, RateLimiter, or_insert, count_query, allow, answers}

abbrev pub granted : List Bool → ℕ
granted [] = 0
granted (b ∷ bs) = if b then suc (granted bs) else granted bs

module _ (M : DashMap IpAddr Window) (ip : IpAddr) where
  -- Every query of `ip` comes in the window that started at `start`.
  abbrev pub InWindow : (start window : ℕ) → List (IpAddr × ℕ) → Type 0
  InWindow start window [] = Unit
  InWindow start window ((client, now) ∷ queries) =
      (M.same ip client ≡ true → (start ≤ now) × (now < start + window))
      × InWindow start window queries

  -- The number of queries of `ip`.
  abbrev pub asked : List (IpAddr × ℕ) → ℕ
  asked [] = 0
  asked ((client, now) ∷ queries) = if M.same ip client then suc (asked queries) else asked queries

  abbrev pub Holds : RateLimiter M.Map → (start count : ℕ) → Type 0
  Holds r start count = M.get r.clients ip ≡ some (record { started_at = start; count = count })

  allow_same :
      (r : RateLimiter M.Map) (client : IpAddr) (start count now : ℕ)
      → M.same ip client ≡ true
      → r.max_per_window ≢ 0
      → Holds r start count
      → start ≤ now
      → now < start + r.window
      → count + 1 < 2 ^ 32
      → ((allow M r client now).0 ≡ leb (count + 1) r.max_per_window)
        × Holds (allow M r client now).1 start (count + 1)
        × ((allow M r client now).1.window ≡ r.window)
        × ((allow M r client now).1.max_per_window ≡ r.max_per_window)
  unfolding allow or_insert count_query
  allow_same r client start count now mine limited held after before small =
      let e : ip ≡ client = (M.same_iff ip client).0 mine in
      let held' : M.get r.clients client ≡ some (record { started_at = start; count = count }) =
        rw (← e) held in
      ground (
        arith,
        M.get-insert ip client (record { started_at = start; count = count + 1 }) r.clients,
        M.same_iff client ip,
      )

  allow_other :
      (r : RateLimiter M.Map) (client : IpAddr) (now : ℕ)
      → M.same ip client ≡ false
      → (M.get (allow M r client now).1.clients ip ≡ M.get r.clients ip)
        × ((allow M r client now).1.window ≡ r.window)
        × ((allow M r client now).1.max_per_window ≡ r.max_per_window)
  unfolding allow
  allow_other r client now other = ground (
    arith,
    M.get-insert ip client (count_query r.window (or_insert (M.get r.clients client) now) now)
        r.clients,
    M.same_iff ip client,
    M.same_iff client ip,
  )

  -- From a window with `count` queries in it, the limit leaves `limit - count`.
  granted-from :
      (queries : List (IpAddr × ℕ)) (r : RateLimiter M.Map) (start count window limit : ℕ)
      → r.window ≡ window
      → r.max_per_window ≡ limit
      → limit ≢ 0
      → Holds r start count
      → InWindow start window queries
      → count + asked queries < 2 ^ 32
      → granted (answers M ip queries r) ≡ min (asked queries) (limit - count)
  unfolding answers
  granted-from [] r start count window limit ew el limited held inside small = omega arith
  granted-from ((client, now) ∷ queries) r start count window limit ew el limited held inside
        small =
      let r' = (allow M r client now).1 in
      elim (Bool-cases (M.same ip client)) [
        | inl mine ↦ ground (
          arith,
          allow_same r client start count now mine,
          granted-from queries r' start (count + 1) window limit,
        )
        | inr other ↦ ground (
          arith,
          allow_other r client now other,
          granted-from queries r' start count window limit,
        )
      ]

  -- The client is not tracked, or its window has elapsed.
  abbrev pub IsFresh : RateLimiter M.Map → (now : ℕ) → Type 0
  IsFresh r now =
      (M.get r.clients ip ≡ none)
      ⊎ ((w : Window) × (M.get r.clients ip ≡ some w) × (w.started_at + r.window ≤ now))

  allow_fresh :
      (r : RateLimiter M.Map) (now : ℕ)
      → r.max_per_window ≢ 0
      → IsFresh r now
      → ((allow M r ip now).0 ≡ true)
        × Holds (allow M r ip now).1 now 1
        × ((allow M r ip now).1.window ≡ r.window)
        × ((allow M r ip now).1.max_per_window ≡ r.max_per_window)
  unfolding allow or_insert count_query
  allow_fresh r now limited fresh = ground (
    arith,
    M.get-insert ip ip (record { started_at = now; count = 1 }) r.clients,
    M.same_iff ip ip,
  )

  -- Of the queries that a client sends within one window, counted from its first query, a limiter
  -- that is enabled (a limit of 0 is none) lets through as many as the limit allows and no more,
  -- whatever other clients send in between; fewer than 2^32 queries are asked in all.
  pub granted-answers :
      (r : RateLimiter M.Map) (start : ℕ) (queries : List (IpAddr × ℕ))
      → r.max_per_window ≢ 0
      → IsFresh r start
      → InWindow start r.window queries
      → suc (asked queries) < 2 ^ 32
      → granted (answers M ip ((ip, start) ∷ queries) r)
        ≡ min (suc (asked queries)) r.max_per_window
  unfolding answers
  granted-answers r start queries limited fresh inside small =
      let (allowed, holds, ew, el) = allow_fresh r start limited fresh in
      ground (
        arith,
        allowed,
        holds,
        ew,
        el,
        M.same_iff ip ip,
        granted-from queries (allow M r ip start).1 start 1 r.window r.max_per_window,
      )
