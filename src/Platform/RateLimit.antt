-- ===== src/Platform/RateLimit.antt =====
-- The rate limiter (`check_rate_limit` of backend/app/core/rate_limit.py): a sliding window of sixty
-- seconds for each key. A time is what `time.monotonic()` returns, in whole seconds.
pub mod Window
use eminidatabase.Base.{
  ℕ, ◌+◌, ◌-◌, Bool, true, false, List, [], ◌∷◌, ◌++◌, ◌==◌, leb, length, if◌then◌else◌, max,
}
use eminidatabase.Base.Action.{Outcome, returned, raised}

-- `_buckets`, a `defaultdict`: the times of the requests that were let through, the oldest first.
abbrev pub Buckets : Type 0
Buckets = ℕ → List ℕ

abbrev pub put : ℕ → List ℕ → Buckets → Buckets
put key bucket buckets k = if k == key then bucket else buckets k

-- `while bucket and bucket[0] <= now - _WINDOW_SECONDS: bucket.popleft()`
abbrev pub pruned : ℕ → List ℕ → List ℕ
pruned now [] = []
pruned now (t ∷ bucket) = if leb (t + 60) now then pruned now bucket else t ∷ bucket

pub data Answer : Type 0 where
  allowed : Answer
  refused : (retry_after : ℕ) → Answer

-- `bucket[0]` of an empty bucket.
pub data IndexError : Type 0 where
  index_error : IndexError

abbrev pub retry_after : ℕ → List ℕ → Outcome IndexError Answer
retry_after now [] = raised index_error
retry_after now (t ∷ _) = returned (refused (max 1 (60 - (now - t) + 1)))

unfoldable pub check_rate_limit :
    (key limit now : ℕ) → Buckets → Outcome IndexError Answer × Buckets
check_rate_limit key limit now buckets =
    let bucket = pruned now (buckets key) in
    if leb limit (length bucket)
    then (retry_after now bucket, put key bucket buckets)
    else (returned allowed, put key (bucket ++ (now ∷ [])) buckets)
