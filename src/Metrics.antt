-- ===== src/Metrics.antt =====
-- src/metrics.rs: the counters, sharded over threads. A 64-bit counter wraps, and so does the sum over
-- the shards; the shard of the calling thread is an argument. The rendered texts are left out.
pub mod Sharded
use mini_dns.Prelude.{ℕ, zero, suc, ◌+◌, ◌%◌, ◌^◌, List, [], ◌∷◌, map, replicate, Bool, true, false}

pub record Counters : Type 0 where
  pub total : ℕ
  pub authoritative : ℕ
  pub cache_hits : ℕ
  pub forwarded : ℕ
  pub coalesced : ℕ
  pub rate_limited : ℕ
  pub blocked : ℕ
  pub errors : ℕ

-- The counter that a call of `bump` or `sum` selects.
pub data Counter : Type 0 where
  total authoritative cache_hits forwarded coalesced rate_limited blocked errors : Counter

abbrev pub shards_count : ℕ
shards_count = 32

pub record Metrics : Type 0 where
  pub shards : List Counters

abbrev pub no_counts : Counters
no_counts = record {
  total = 0;
  authoritative = 0;
  cache_hits = 0;
  forwarded = 0;
  coalesced = 0;
  rate_limited = 0;
  blocked = 0;
  errors = 0;
}

abbrev pub default : Metrics
default = record { shards = replicate shards_count no_counts }

unfoldable pub load : Counter → Counters → ℕ
load Counter.total c = c.total
load Counter.authoritative c = c.authoritative
load Counter.cache_hits c = c.cache_hits
load Counter.forwarded c = c.forwarded
load Counter.coalesced c = c.coalesced
load Counter.rate_limited c = c.rate_limited
load Counter.blocked c = c.blocked
load Counter.errors c = c.errors

abbrev pub u64 : ℕ → ℕ
u64 n = n % 2 ^ 64

-- `fetch_add(1)`.
unfoldable pub fetch_add : Counter → Counters → Counters
fetch_add Counter.total c = record c { total = u64 (c.total + 1) }
fetch_add Counter.authoritative c = record c { authoritative = u64 (c.authoritative + 1) }
fetch_add Counter.cache_hits c = record c { cache_hits = u64 (c.cache_hits + 1) }
fetch_add Counter.forwarded c = record c { forwarded = u64 (c.forwarded + 1) }
fetch_add Counter.coalesced c = record c { coalesced = u64 (c.coalesced + 1) }
fetch_add Counter.rate_limited c = record c { rate_limited = u64 (c.rate_limited + 1) }
fetch_add Counter.blocked c = record c { blocked = u64 (c.blocked + 1) }
fetch_add Counter.errors c = record c { errors = u64 (c.errors + 1) }

unfoldable pub bump_shard : Counter → ℕ → List Counters → List Counters
bump_shard select shard [] = []
bump_shard select zero (c ∷ cs) = fetch_add select c ∷ cs
bump_shard select (suc shard) (c ∷ cs) = c ∷ bump_shard select shard cs

unfoldable pub bump : Counter → ℕ → Metrics → Metrics
bump select shard m = record { shards = bump_shard select shard m.shards }

unfoldable pub sum_shards : Counter → List Counters → ℕ
sum_shards select [] = 0
sum_shards select (c ∷ cs) = u64 (load select c + sum_shards select cs)

unfoldable pub sum : Counter → Metrics → ℕ
sum select m = sum_shards select m.shards
