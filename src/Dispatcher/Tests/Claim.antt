-- ===== src/Dispatcher/Tests/Claim.antt =====
-- Claims of the fetch stage.
use mathlib.Core.List.{Memᴰ}
use reroll_sync.Base.{◌≡◌, refl, Bool, true, false, [], ◌∷◌, arith, none, All, String}
use reroll_sync.Schema.{need_metadata}
use reroll_sync.Db.{Wheel, fetch}
use reroll_sync.Sql.{select, count}
use reroll_sync.Dispatcher.Outcome.{queue_state}
use reroll_sync.Dispatcher.Claim.{
  Queue, claim, claim_rows, contains, ids, is_claimable, is_deferred, defers, past_cursor,
  order_rows,
}
use reroll_sync.Dispatcher.Claim.Pages.{IsDue}
use reroll_sync.Dispatcher.Claim.Exclusive.{claim-IsDue, claim_complete}
use reroll_sync.Dispatcher.Claim.InFlight.{claims, releases, step, run, claim_exclusive}
use reroll_sync.Dispatcher.Apply.{StageState}
use reroll_sync.Dispatcher.Tests.{wheel, tables}

-- one project, so that the order of their names does not matter
abbrev no_lt : String → String → Bool
no_lt s t = false

abbrev idle : Queue
idle = record { cursor = none; in_flight = [] }

claim-IsDue_example :
    All
      (λ (w : Wheel). (w.state ≡ queue_state fetch) × IsDue fetch 20 tables w)
      (claim_rows no_lt fetch none [] 20 5 tables)
claim-IsDue_example = claim-IsDue no_lt fetch 5 20 tables idle

abbrev idle_stage : StageState
idle_stage = record {
  queue = idle;
  counts = record { ok_count = 0; skip_count = 0; retry_outcomes = 0; rate_limited_count = 0 };
  retry_count = 0;
  quarantine_count = 0;
  last_completion = none;
  throughput_ema = 0;
}

claim_exclusive_example :
    let later =
      run no_lt fetch
        (step no_lt fetch idle_stage (claims 5 20 tables))
        (claims 9 30 tables ∷ releases 1 ∷ []) in
    contains 2 (ids (claim no_lt fetch 9 40 tables later.queue).0) ≡ false
unfolding claim claim_rows select order_rows is_claimable is_deferred defers past_cursor
claim_exclusive_example =
    claim_exclusive no_lt fetch 2 5 9 20 40 tables tables idle_stage
      (claims 9 30 tables ∷ releases 1 ∷ []) refl (tt, ((λ e. omega (arith, e)), tt))

claim_complete_example : contains 2 (ids (claim no_lt fetch 5 20 tables idle).0) ≡ true
unfolding count
claim_complete_example =
    claim_complete no_lt fetch 5 20 tables idle refl (omega arith) (wheel 2 need_metadata)
      (Memᴰ.tail (Memᴰ.head refl)) refl (ground arith) refl
