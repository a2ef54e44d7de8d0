-- ===== src/RateLimit.antt =====
-- packages/security/src/rate-limit.ts: the in-memory limiter and its middleware.
pub mod Window
use secure_auth_x_pro.Prelude.{
  ℕ, zero, suc, ◌+◌, ◌-◌, ◌/◌, Bool, true, false, Option, none, some, List, [], ◌∷◌, String, leb,
  ltb, length, lookup, set_key, if◌then◌else◌,
}

-- A number that may be below zero; `negsuc n` is -(n + 1).
pub data ℤ : Type 0 where
  pos : ℕ → ℤ
  negsuc : ℕ → ℤ

pub record Bucket : Type 0 where
  pub count : ℕ
  pub reset_at : ℕ

abbrev pub Buckets : Type 0
Buckets = List (String × Bucket)

-- RateLimitResult
pub record RateLimitResult : Type 0 where
  pub success : Bool
  pub limit : ℕ
  pub remaining : ℤ
  pub reset_at : ℕ

-- The lazy sweep: expired buckets go, once there are more than 10,000.
unfoldable pub drop_expired : ℕ → Buckets → Buckets
drop_expired now [] = []
drop_expired now ((k, b) ∷ bs) =
    let rest = drop_expired now bs in if leb b.reset_at now then rest else (k, b) ∷ rest

abbrev pub sweep_above : ℕ
sweep_above = 10000

unfoldable pub sweep : ℕ → Buckets → Buckets
sweep now bs = let swept = drop_expired now bs in if ltb sweep_above (length bs) then swept else bs

-- `limit - 1`
abbrev pub less_one : ℕ → ℤ
less_one zero = negsuc 0
less_one (suc n) = pos n

-- `!bucket || bucket.resetAt <= now` is null; otherwise the bucket that counts.
abbrev pub current : Option Bucket → ℕ → Option Bucket
current none now = none
current (some b) now = if leb b.reset_at now then none else some b

-- InMemoryRateLimitStore.consume, at the time `now`
unfoldable pub consume : String → ℕ → ℕ → ℕ → Buckets → RateLimitResult × Buckets
unfolding sweep drop_expired
consume key window_ms limit now buckets =
    let bs = sweep now buckets in
    elim (current (lookup key bs) now) [
      | none ↦ (
        record {
          success = true;
          limit = limit;
          remaining = less_one limit;
          reset_at = now + window_ms;
        },
        set_key key (record { count = 1; reset_at = now + window_ms }) bs,
      )
      | some b ↦ (
        record {
          success = leb (b.count + 1) limit;
          limit = limit;
          remaining = pos (limit - (b.count + 1));
          reset_at = b.reset_at;
        },
        set_key key (record { count = b.count + 1; reset_at = b.reset_at }) bs,
      )
    ]

-- What createRateLimiter does with a request: the three headers, and whether it goes on or is
-- answered with 429.
pub record Verdict : Type 0 where
  pub ratelimit_limit : ℕ
  pub ratelimit_remaining : ℤ
  pub ratelimit_reset : ℕ
  pub status : Option ℕ

unfoldable pub limit_request : String → ℕ → ℕ → ℕ → Buckets → Verdict × Buckets
limit_request key window_ms limit now buckets =
    let (r, bs) = consume key window_ms limit now buckets in
    (
      record {
        ratelimit_limit = r.limit;
        ratelimit_remaining = r.remaining;
        ratelimit_reset = (r.reset_at + 999) / 1000;
        status = if r.success then none else some 429;
      },
      bs,
    )
