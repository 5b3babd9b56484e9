-- ===== src/Metrics/Sharded.antt =====
-- The sharded counters of src/metrics.rs count like one counter each.
use mini_dns.Prelude.{ℕ, zero, suc, ◌+◌, ◌<◌, ◌≡◌, ◌≢◌, refl, List, [], ◌∷◌, arith, length}
use mini_dns.Metrics.{
  Counters, Counter, Metrics, load, fetch_add, bump_shard, bump, sum_shards, sum, u64,
}

load-fetch_add_self :
    (select : Counter) (c : Counters) → load select (fetch_add select c) ≡ u64 (load select c + 1)
unfolding load fetch_add
load-fetch_add_self Counter.total c = refl
load-fetch_add_self Counter.authoritative c = refl
load-fetch_add_self Counter.cache_hits c = refl
load-fetch_add_self Counter.forwarded c = refl
load-fetch_add_self Counter.coalesced c = refl
load-fetch_add_self Counter.rate_limited c = refl
load-fetch_add_self Counter.blocked c = refl
load-fetch_add_self Counter.errors c = refl

load-fetch_add_ne :
    (select other : Counter) (c : Counters)
    → select ≢ other
    → load select (fetch_add other c) ≡ load select c
unfolding load fetch_add
load-fetch_add_ne Counter.total Counter.total c h = absurd (h refl)
load-fetch_add_ne Counter.authoritative Counter.authoritative c h = absurd (h refl)
load-fetch_add_ne Counter.cache_hits Counter.cache_hits c h = absurd (h refl)
load-fetch_add_ne Counter.forwarded Counter.forwarded c h = absurd (h refl)
load-fetch_add_ne Counter.coalesced Counter.coalesced c h = absurd (h refl)
load-fetch_add_ne Counter.rate_limited Counter.rate_limited c h = absurd (h refl)
load-fetch_add_ne Counter.blocked Counter.blocked c h = absurd (h refl)
load-fetch_add_ne Counter.errors Counter.errors c h = absurd (h refl)
load-fetch_add_ne _ _ c h = refl

sum_shards-bump_self :
    (select : Counter) (shard : ℕ) (cs : List Counters)
    → shard < length cs
    → sum_shards select (bump_shard select shard cs) ≡ u64 (sum_shards select cs + 1)
unfolding sum_shards bump_shard
sum_shards-bump_self select shard [] h = absurd (omega arith)
sum_shards-bump_self select zero (c ∷ cs) h = omega (arith, load-fetch_add_self select c)
sum_shards-bump_self select (suc shard) (c ∷ cs) h =
    omega (arith, sum_shards-bump_self select shard cs (omega arith))

sum_shards-bump_ne :
    (select other : Counter) (shard : ℕ) (cs : List Counters)
    → select ≢ other
    → sum_shards select (bump_shard other shard cs) ≡ sum_shards select cs
unfolding sum_shards bump_shard
sum_shards-bump_ne select other shard [] h = refl
sum_shards-bump_ne select other zero (c ∷ cs) h = omega (arith, load-fetch_add_ne select other c h)
sum_shards-bump_ne select other (suc shard) (c ∷ cs) h =
    omega (arith, sum_shards-bump_ne select other shard cs h)

-- An increment on any of the shards raises the value read for its counter by one, wrapping at 2^64,
-- and leaves the value of every other counter.
pub sum-bump :
    (select other : Counter) (shard : ℕ) (m : Metrics)
    → shard < length m.shards
    → (sum select (bump select shard m) ≡ u64 (sum select m + 1))
      × (select ≢ other → sum select (bump other shard m) ≡ sum select m)
unfolding sum bump
sum-bump select other shard m h =
    (sum_shards-bump_self select shard m.shards h, sum_shards-bump_ne select other shard m.shards)
