-- ===== src/RateLimit.antt =====
-- api/services/rate_limit_service.py: fixed-window throttling over the table `rate_limit_buckets`.
-- A key (a hash of an address or an IP) is a number, the clock's whole seconds are an argument.
-- Each call is one or two statements that commit by themselves, so the table comes back after a
-- refusal too.
pub mod Windows
pub mod Counting
mod Tests
use synapse_canvas.Base.{
  ℕ, ◌+◌, ◌-◌, ◌%◌, max, List, [], ◌∷◌, Bool, true, false, not, ◌&&◌, Option, none, some, ltb, leb,
  ◌==◌, if◌then◌else◌, keep, length,
}

-- A row; (key, window_start) is unique.
pub record Bucket : Type 0 where
  pub key : ℕ
  pub window_start : ℕ
  pub count : ℕ

-- `_window_bounds`: the start of the window that holds `now`, and the seconds left, at least 1.
unfoldable pub window_start_of : ℕ → ℕ → ℕ
window_start_of now window = now - now % window

unfoldable pub retry_after_of : ℕ → ℕ → ℕ
unfolding window_start_of
retry_after_of now window = max (window_start_of now window + window - now) 1

abbrev pub is_row : ℕ → ℕ → Bucket → Bool
is_row key start b = b.key == key && b.window_start == start

-- `INSERT … ON CONFLICT DO UPDATE`.
unfoldable pub upsert : ℕ → ℕ → List Bucket → List Bucket
upsert key start [] = record { key = key; window_start = start; count = 1 } ∷ []
upsert key start (b ∷ bs) =
    if is_row key start b then record b { count = b.count + 1 } ∷ bs else b ∷ upsert key start bs

unfoldable pub count_at : ℕ → ℕ → List Bucket → Option ℕ
count_at key start [] = none
count_at key start (b ∷ bs) = if is_row key start b then some b.count else count_at key start bs

abbrev pub is_older : ℕ → ℕ → Bucket → Bool
is_older key start b = b.key == key && ltb b.window_start start

-- The count, or RateLimitExceededError with its `retry_after_seconds`.
pub data Verdict : Type 0 where
  allowed : ℕ → Verdict
  exceeded : ℕ → Verdict

abbrev pub judge : ℕ → ℕ → Option ℕ → Verdict
judge limit retry none = allowed 0
judge limit retry (some n) = if ltb limit n then exceeded retry else allowed n

unfoldable pub enforce : ℕ → ℕ → ℕ → ℕ → List Bucket → List Bucket × Verdict
unfolding upsert count_at window_start_of retry_after_of
enforce now key limit window buckets =
    let start = window_start_of now window in
    let bumped = upsert key start buckets in
    (
      keep (λ b. not (is_older key start b)) bumped,
      judge limit (retry_after_of now window) (count_at key start bumped),
    )

-- `none` lets the caller go on.
abbrev pub judge_before : ℕ → ℕ → Option ℕ → Option ℕ
judge_before limit retry none = none
judge_before limit retry (some n) = if leb limit n then some retry else none

unfoldable pub ensure_under_limit : ℕ → ℕ → ℕ → ℕ → List Bucket → Option ℕ
unfolding count_at window_start_of retry_after_of
ensure_under_limit now key limit window buckets =
    judge_before limit (retry_after_of now window)
      (count_at key (window_start_of now window) buckets)

unfoldable pub reset : ℕ → List Bucket → List Bucket
reset key = keep (λ b. not (b.key == key))

unfoldable pub purge_expired_buckets : ℕ → List Bucket → List Bucket × ℕ
purge_expired_buckets older_than buckets =
    let kept = keep (λ b. not (ltb b.window_start older_than)) buckets in
    (kept, length buckets - length kept)
