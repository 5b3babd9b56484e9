-- ===== src/RateLimit/Cleanup.antt =====
-- `RateLimiter::cleanup` of src/ratelimit.rs forgets clients without a trace in later answers.
use mini_dns.Prelude.{
  ℕ, ◌+◌, ◌-◌, ◌≤◌, ◌<◌, ◌≡◌, refl, sym, ◌⊎◌, inl, inr, none, some, List, [], ◌∷◌, arith, ltb,
  Option-cases, Bool-cases,
}
use mini_dns.Net.{IpAddr}
use mini_dns.DashMap.{DashMap, keep_if}
use mini_dns.RateLimit.{Window, RateLimiter, or_insert, count_query, allow, cleanup, answers}

module _ (M : DashMap IpAddr Window) where
  -- The clients tracked are the same, but for some of the first whose windows have elapsed.
  abbrev pub AgreeFrom : (now : ℕ) → RateLimiter M.Map → RateLimiter M.Map → Type 0
  AgreeFrom now r s =
      (r.max_per_window ≡ s.max_per_window)
      × (r.window ≡ s.window)
      × ((ip : IpAddr)
          → (M.get r.clients ip ≡ M.get s.clients ip)
            ⊎ ((M.get s.clients ip ≡ none)
                × ((w : Window) × (M.get r.clients ip ≡ some w) × (w.started_at + r.window ≤ now))))

  abbrev pub FromThen : (now : ℕ) → List (IpAddr × ℕ) → Type 0
  FromThen now [] = Unit
  FromThen now ((client, t) ∷ queries) = (now ≤ t) × FromThen now queries

  cleanup-AgreeFrom :
      (r : RateLimiter M.Map) (now : ℕ) → 0 < r.window → AgreeFrom now r (cleanup M r now)
  unfolding cleanup
  cleanup-AgreeFrom r now open_for = (
    refl,
    refl,
    λ ip. elim (Option-cases (M.get r.clients ip)) [
      | inl e ↦ inl (ground (arith, kept ip))
      | inr (w, e) ↦ elim (Bool-cases (ltb (now - w.started_at) r.window)) [
        | inl within ↦ inl (ground (arith, kept ip))
        | inr elapsed ↦ inr (ground (arith, kept ip), (w, e, ground arith))
      ]
    ],
  )
    where
      kept :
          (ip : IpAddr)
          → M.get (M.retain (λ w. ltb (now - w.started_at) r.window) r.clients) ip
            ≡ keep_if (λ w. ltb (now - w.started_at) r.window) (M.get r.clients ip)
      kept ip = M.get-retain (λ w. ltb (now - w.started_at) r.window) ip r.clients

  -- The query puts the same window into both.
  same_count :
      (r s : RateLimiter M.Map) (client : IpAddr) (now t : ℕ)
      → AgreeFrom now r s
      → now ≤ t
      → count_query r.window (or_insert (M.get r.clients client) t) t
        ≡ count_query s.window (or_insert (M.get s.clients client) t) t
  unfolding count_query or_insert
  same_count r s client now t (em, ew, agree) h = ground (arith, agree client)

  allow-AgreeFrom :
      (r s : RateLimiter M.Map) (client : IpAddr) (now t : ℕ)
      → AgreeFrom now r s
      → now ≤ t
      → ((allow M r client t).0 ≡ (allow M s client t).0)
        × AgreeFrom now (allow M r client t).1 (allow M s client t).1
  unfolding allow
  allow-AgreeFrom r s client now t (em, ew, agree) h =
      let w = count_query r.window (or_insert (M.get r.clients client) t) t in
      let e = same_count r s client now t (em, ew, agree) h in
      (
        ground (arith, e),
        (
          ground arith,
          ground arith,
          λ ip. ground (
            arith,
            e,
            agree ip,
            M.get-insert ip client w r.clients,
            M.get-insert ip client w s.clients,
          ),
        ),
      )

  answers-AgreeFrom :
      (ip : IpAddr) (now : ℕ) (queries : List (IpAddr × ℕ)) (r s : RateLimiter M.Map)
      → AgreeFrom now r s
      → FromThen now queries
      → answers M ip queries r ≡ answers M ip queries s
  unfolding answers
  answers-AgreeFrom ip now [] r s agree h = refl
  answers-AgreeFrom ip now ((client, t) ∷ queries) r s agree h =
      let (same, agree') = allow-AgreeFrom r s client now t agree h.0 in
      ground (
        arith,
        same,
        answers-AgreeFrom ip now queries (allow M r client t).1 (allow M s client t).1 agree' h.1,
      )

  -- A cleanup changes no answer: to every schedule of queries at or after its time, the limiter
  -- answers each client as it would have without it.
  pub answers-cleanup :
      (r : RateLimiter M.Map) (ip : IpAddr) (now : ℕ) (queries : List (IpAddr × ℕ))
      → 0 < r.window
      → FromThen now queries
      → answers M ip queries (cleanup M r now) ≡ answers M ip queries r
  answers-cleanup r ip now queries open_for h =
      sym
        (answers-AgreeFrom ip now queries r (cleanup M r now) (cleanup-AgreeFrom r now open_for) h)
