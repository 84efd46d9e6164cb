-- ===== src/RateLimit.antt =====
-- src/app/core/rate_limit.py: the limiter in memory. The dictionary of buckets is a function of the key, none where
-- it has no entry. A reading of `monotonic()` is a number of microseconds, and no test subtracts: `t <= now - w` is
-- `t + w <= now`. A window is given in the same unit.
mod Buckets
pub mod Exact
mod Tests
use edufurthersf_be.Prelude.{
  ℕ, ◌+◌, Bool, true, false, ◌||◌, Option, none, some, List, [], ◌∷◌, ◌++◌, length, leb, ltb,
  if◌then◌else◌,
}
use edufurthersf_be.Prelude.Text.{Text, text_eq}

abbrev pub Bucket : Type 0
Bucket = List ℕ

pub record InMemoryRateLimiter : Type 0 where
  pub requests : Text → Option Bucket
  pub next_sweep : ℕ

abbrev pub new_limiter : InMemoryRateLimiter
new_limiter = record { requests = λ key. none; next_sweep = 0 }

-- `bucket[-1] <= now - window_seconds`, of a bucket that is not empty, or the bucket is empty.
unfoldable pub is_idle : ℕ → ℕ → Bucket → Bool
is_idle window now [] = true
is_idle window now (t ∷ []) = leb (t + window) now
is_idle window now (t ∷ u ∷ bucket) = is_idle window now (u ∷ bucket)

-- The loop that takes from the left.
unfoldable pub trimmed : ℕ → ℕ → Bucket → Bucket
trimmed window now [] = []
trimmed window now (t ∷ bucket) =
    let rest = trimmed window now bucket in if leb (t + window) now then rest else t ∷ bucket

abbrev pub unless_idle : ℕ → ℕ → Option Bucket → Option Bucket
unless_idle window now none = none
unless_idle window now (some bucket) = if is_idle window now bucket then none else some bucket

unfoldable pub evict_expired : ℕ → ℕ → InMemoryRateLimiter → InMemoryRateLimiter
unfolding is_idle
evict_expired window now s = if ltb now s.next_sweep then s else record {
  requests = λ key. unless_idle window now (s.requests key);
  next_sweep = now + window;
}

-- `self._requests[key]` of a `defaultdict`.
abbrev pub or_empty : Option Bucket → Bucket
or_empty none = []
or_empty (some bucket) = bucket

abbrev pub bucket_of : Text → InMemoryRateLimiter → Bucket
bucket_of key s = or_empty (s.requests key)

abbrev pub with_bucket : Text → Bucket → InMemoryRateLimiter → InMemoryRateLimiter
with_bucket key bucket s = record s {
  requests = λ k. if text_eq key k then some bucket else s.requests k;
}

abbrev pub admit : Text → ℕ → ℕ → Bucket → InMemoryRateLimiter → Bool × InMemoryRateLimiter
admit key limit now bucket s =
    if leb limit (length bucket)
    then (false, with_bucket key bucket s)
    else (true, with_bucket key (bucket ++ now ∷ []) s)

unfoldable pub allow : Text → ℕ → ℕ → ℕ → InMemoryRateLimiter → Bool × InMemoryRateLimiter
unfolding trimmed evict_expired
allow key limit window now s =
    let swept = evict_expired window now s in
    admit key limit now (trimmed window now (bucket_of key swept)) swept
