-- ===== src/Campaign/Preview.antt =====
-- dispatcher.py: `preview_selector` and `Dispatcher.metrics`, which only read.
use Prim.Native.Nat.{◌-◌}
use reroll_sync.Base.{
  ℕ, Bool, ◌&&◌, List, [], ◌∷◌, ◌++◌, length, min, Option, none, some, String, text_eq, map,
}
use reroll_sync.Schema.{WheelState, state_eq, skipped}
use reroll_sync.Sql.{select, count}
use reroll_sync.Db.{Db, Timestamp, Stage, Wheel, SkipRow, RepodataRow}
use reroll_sync.Dispatcher.Outcome.{queue_state}
use reroll_sync.Dispatcher.Apply.{Counts, StageState}
use reroll_sync.Campaign.Selector.{
  Selector, reroll_version_below, state_selector, project_selector, skipped_only,
}
use reroll_sync.Campaign.Reprocess.{is_live, is_stale_row, is_joined_skip, distinct}

pub record SelectorPreview : Type 0 where
  pub wheel_count : ℕ
  pub skips_to_clear_count : ℕ

-- `_project_count_query`
abbrev pub project_count : String → Db → ℕ
project_count project db = count (λ w. text_eq w.project project && is_live w) db.wheels

-- `_state_count_query`
abbrev pub state_count : WheelState → Db → ℕ
state_count state db = count (λ w. state_eq w.state state && is_live w) db.wheels

-- `_reroll_version_wheel_count_query`: a UNION has each id once
unfoldable pub version_wheel_count : (String → String → Bool) → String → Db → ℕ
version_wheel_count text_lt version db = length (
    distinct [] (
      map (λ (r : RepodataRow). r.wheel_id)
        (select (is_stale_row text_lt version db) db.wheel_repodata)
      ++ map (λ (r : SkipRow). r.wheel_id) (select (is_joined_skip text_lt version db) db.skips)))

-- `_reroll_version_skips_row_count_query`
abbrev pub version_skip_count : (String → String → Bool) → String → Db → ℕ
version_skip_count text_lt version db = count (is_joined_skip text_lt version db) db.skips

-- `preview_selector`
unfoldable pub preview_selector : (String → String → Bool) → Selector → Db → SelectorPreview
unfolding version_wheel_count
preview_selector text_lt (project_selector project) db = record {
  wheel_count = project_count project db;
  skips_to_clear_count = 0;
}
preview_selector text_lt (state_selector state) db = record {
  wheel_count = state_count state db;
  skips_to_clear_count = 0;
}
preview_selector text_lt skipped_only db = record {
  wheel_count = state_count skipped db;
  skips_to_clear_count = 0;
}
preview_selector text_lt (reroll_version_below version) db = record {
  wheel_count = version_wheel_count text_lt version db;
  skips_to_clear_count = version_skip_count text_lt version db;
}

-- `StageMetrics`. The age is the clock less the oldest `updated_at`, cut off at 0.
pub record StageMetrics : Type 0 where
  pub queue_depth : ℕ
  pub in_flight : ℕ
  pub oldest_pending_age : Option ℕ
  pub throughput_ema : ℕ
  pub outcome_counts : Counts
  pub retry_count : ℕ
  pub quarantine_count : ℕ

-- `MIN(updated_at)`
abbrev pub oldest : List Wheel → Option Timestamp
oldest [] = none
oldest (w ∷ ws) = elim (oldest ws) [ none ↦ some w.updated_at | some t ↦ some (min w.updated_at t) ]

abbrev pub age_at : Timestamp → Option Timestamp → Option ℕ
age_at now none = none
age_at now (some t) = some (now - t)

-- `metrics`
unfoldable pub metrics : Stage → Timestamp → Db → StageState → StageMetrics
metrics stage now db s =
    let queued = select (λ w. state_eq w.state (queue_state stage)) db.wheels in
    record {
      queue_depth = length queued;
      in_flight = length s.queue.in_flight;
      oldest_pending_age = age_at now (oldest queued);
      throughput_ema = s.throughput_ema;
      outcome_counts = s.counts;
      retry_count = s.retry_count;
      quarantine_count = s.quarantine_count;
    }
