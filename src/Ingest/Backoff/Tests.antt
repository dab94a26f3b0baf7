-- ===== src/Ingest/Backoff/Tests.antt =====
-- A project that had failed, with a budget of two attempts.
use reroll_sync.Base.{ℕ, ◌<◌, ◌≡◌, true, false, List, [], ◌∷◌, ltb}
use reroll_sync.Db.{Timestamp}
use reroll_sync.Ingest.Backoff.{Backoff, attempts, is_quarantined, is_eligible, record_success}
use reroll_sync.Ingest.Backoff.Budget.{fail_all, fail_all-record_success}

abbrev backoff : Backoff
backoff = record {
  max_attempts = 2;
  entries = record { project = "demo"; tries = 3; next_attempt_at = 90 } ∷ [];
  quarantined = "demo" ∷ [];
}

abbrev fails : List (Timestamp × ℕ)
fails = (10, 500000) ∷ (20, 500000) ∷ (30, 1000000) ∷ []

fail_all-record_success_example :
    let clear = record_success "demo" backoff in
    let b' = fail_all "demo" fails clear in
    (is_eligible "demo" 40 clear ≡ true)
    × (attempts "demo" b' ≡ 3)
    × (is_quarantined "demo" b' ≡ ltb 2 3)
    × (2 < 3 → is_eligible "demo" 40 b' ≡ false)
fail_all-record_success_example = fail_all-record_success "demo" fails 40 backoff
