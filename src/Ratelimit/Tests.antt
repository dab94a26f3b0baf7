-- ===== src/Ratelimit/Tests.antt =====
-- The limiter on examples: buckets of two units a microsecond with a burst of ten units.
use reroll_sync.Base.{ℕ, ◌+◌, ◌*◌, ◌≤◌, true, false, List, [], ◌∷◌, none}
use reroll_sync.Ratelimit.Bucket.{Bucket, make}
use reroll_sync.Ratelimit.Bucket.Rate.{Call, takes, drains, penalizes, total, elapsed, total_make}
use reroll_sync.Ratelimit.Hierarchy.Global.{
  Request, granted_total, elapsed as request_time, granted_total_bounded,
}

abbrev calls : List (ℕ × Call)
calls = (1, takes 8) ∷ (2, takes 6) ∷ (0, drains) ∷ (3, penalizes 5) ∷ (1, takes 1) ∷ []

total_make_example : total 0 calls (make 2 10 0) ≤ 10 + elapsed calls * 2
total_make_example = total_make 2 10 0 calls

abbrev spent : Bucket
spent = record { rate = 2; burst = 10; tokens = 1; last_refill = 100; penalty_deadline = none }

abbrev full : Bucket
full = record { rate = 2; burst = 10; tokens = 10; last_refill = 100; penalty_deadline = none }

abbrev requests : List Request
requests =
    record { gap = 1; n = 8; idle = true; child = spent }
    ∷ record { gap = 2; n = 6; idle = false; child = full }
    ∷ []

granted_total_bounded_example :
    granted_total 100 requests (make 2 10 100) ≤ 10 + request_time requests * 2
granted_total_bounded_example = granted_total_bounded 2 10 100 requests
