-- ===== src/RateLimit.antt =====
-- src/ratelimit.rs: the fixed-window rate limiter. Times and the window are in nanoseconds; a
-- call's time is what `Instant::now()` reads in it. `count` is a u32, whose increment wraps in a
-- release build.
pub mod Quota
pub mod Cleanup
use mini_dns.Prelude.{
  ℕ, ◌+◌, ◌-◌, ◌%◌, ◌^◌, Bool, true, false, ◌&&◌, Option, none, some, List, [], ◌∷◌, ltb, leb, ◌==◌,
  if◌then◌else◌,
}
use mini_dns.Net.{IpAddr}
use mini_dns.DashMap.{DashMap}

pub record Window : Type 0 where
  pub started_at : ℕ
  pub count : ℕ

pub record RateLimiter (Map : Type 0) : Type 0 where
  pub max_per_window : ℕ
  pub window : ℕ
  pub clients : Map

-- `entry(ip).or_insert(…)`: the window that is held, or a new one.
unfoldable pub or_insert : Option Window → (now : ℕ) → Window
or_insert none now = record { started_at = now; count = 0 }
or_insert (some w) now = w

-- An elapsed window starts anew; then the query is counted. A time before the start of the window
-- has no duration since it, and resets nothing.
unfoldable pub count_query : (window : ℕ) → Window → (now : ℕ) → Window
count_query window w now =
    if leb w.started_at now && leb window (now - w.started_at)
    then record { started_at = now; count = 1 }
    else record w { count = (w.count + 1) % 2 ^ 32 }

module _ (M : DashMap IpAddr Window) where
  unfoldable pub new : ℕ → ℕ → RateLimiter M.Map
  new max_per_window window = record {
    max_per_window = max_per_window;
    window = window;
    clients = M.empty;
  }

  unfoldable pub allow : RateLimiter M.Map → IpAddr → (now : ℕ) → Bool × RateLimiter M.Map
  allow r ip now =
      let w = count_query r.window (or_insert (M.get r.clients ip) now) now in
      if r.max_per_window == 0
      then (true, r)
      else (leb w.count r.max_per_window, record r { clients = M.insert ip w r.clients })

  unfoldable pub cleanup : RateLimiter M.Map → (now : ℕ) → RateLimiter M.Map
  cleanup r now = record r { clients = M.retain (λ w. ltb (now - w.started_at) r.window) r.clients }

  -- The queries of a schedule, each from a client at a time, and the answers to those of `ip`.
  unfoldable pub answers : IpAddr → List (IpAddr × ℕ) → RateLimiter M.Map → List Bool
  answers ip [] r = []
  answers ip ((client, now) ∷ queries) r =
      let rest = answers ip queries (allow r client now).1 in
      if M.same ip client then (allow r client now).0 ∷ rest else rest
