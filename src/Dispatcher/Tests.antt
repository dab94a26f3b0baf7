-- ===== src/Dispatcher/Tests.antt =====
-- Test data: one wheel of the convert stage, and one wheel that has failed before.
mod Apply
mod Ops
mod Claim
use mathlib.Core.List.{Memᴰ}
use reroll_sync.Base.{
  ℕ, zero, suc, ◌+◌, ◌*◌, ◌≤◌, ◌<◌, ◌≡◌, ◌≢◌, ◌↔◌, ◌∙◌, refl, sym, ap, Bool, true, false, not, ◌&&◌,
  ◌||◌, List, [], ◌∷◌, ◌++◌, arith, length, max, min, sum_by, sum_by-append, length-append, Option,
  none, some, append_assoc, append-nil, ◌⊎◌, inl, inr, get_elem?, All, All-append, Option-cases,
  List-cases, Bool-cases, if◌then◌else◌, ltb, leb, ◌==◌, String, ◌≢◌,
}
use reroll_sync.Schema.{
  WheelState, need_metadata, need_convert, ready, skipped, quarantined, is_allowed,
}
use reroll_sync.Db.{
  Db, empty, Conn, Wheel, WorkRow, RepodataRow, SkipRow, Stage, convert, fetch, Timestamp, ok, err,
  Result, DbError, illegal_transition, repodata_key, integrity_error,
}
use reroll_sync.Sql.{find, select, update}
use reroll_sync.Dispatcher.Outcome.{
  QueueItem, Ok, Skip, Retry, RateLimited, Outcome, of_ok, of_skip, of_retry, of_rate_limited,
  ConvertOk, convert_ok, adapt_convert_outcome, blob_link_writer, queue_state, compute_backoff,
  base_backoff, max_backoff, validate_transition,
}
use reroll_sync.Dispatcher.Ops.{
  done, set_state, ok_op, skip_op, retry_op, was_quarantined, was_retried, attempts,
}
use reroll_sync.Dispatcher.Ops.Rows.{wheel_at, work_at, skip_at}
use reroll_sync.Dispatcher.Ops.Effects.{ok_op-effect, skip_op-effect, IsPayload}
use reroll_sync.Dispatcher.Ops.Attempts.{retry_op_retries, retry_op_quarantines}
use reroll_sync.Dispatcher.Claim.{
  Queue, claim, claim_rows, contains, ids, is_claimable, is_deferred, defers, past_cursor,
}
use reroll_sync.Dispatcher.Claim.Pages.{IsDue}
use reroll_sync.Dispatcher.Claim.Exclusive.{claim_sound, claim-IsDue, claim_complete}
use reroll_sync.Dispatcher.Apply.{Dispatcher, StageState, Counts, apply_outcome, write_outcome}
use reroll_sync.Dispatcher.Apply.Payloads.{blob_link_writer-IsPayload}
use reroll_sync.Dispatcher.Apply.Steps.{apply_outcome-release, apply_outcome-failed}
use reroll_sync.Dispatcher.Apply.Legal.{Legal, apply_outcome-Legal}
use reroll_sync.Dispatcher.Apply.Converted.{apply_outcome_converts}

abbrev pub wheel : ℕ → WheelState → Wheel
wheel id state = record {
  id = id;
  filename = "demo.whl";
  project = "demo";
  conda_name = none;
  state = state;
  lane = 0;
  url = "https://demo";
  wheel_sha256 = none;
  metadata_sha256 = none;
  size = none;
  upload_time = none;
  requires_python = none;
  yanked = false;
  yanked_reason = none;
  blob_sha256 = none;
  serial = 3;
  change_seq = 4;
  deleted_at = none;
  updated_at = 0;
}

abbrev pub failed_row : WorkRow
failed_row = record {
  wheel_id = 2;
  stage = fetch;
  attempts = 8;
  next_attempt_at = 10;
  last_error = none;
  quarantined_at = none;
}

abbrev pub tables : Db
tables = record empty {
  wheels = wheel 1 need_convert ∷ wheel 2 need_metadata ∷ [];
  work = failed_row ∷ [];
}

abbrev pub conn : Conn
conn = record { db = tables; seq = 7 }

abbrev pub converting : QueueItem
converting = record { id = 1; project = "demo"; lane = 0; state = need_convert }

abbrev pub fetching : QueueItem
fetching = record { id = 2; project = "demo"; lane = 0; state = need_metadata }

abbrev pub stage_state : StageState
stage_state = record {
  queue = record { cursor = none; in_flight = 1 ∷ 2 ∷ [] };
  counts = record { ok_count = 0; skip_count = 0; retry_outcomes = 0; rate_limited_count = 0 };
  retry_count = 0;
  quarantine_count = 0;
  last_completion = none;
  throughput_ema = 0;
}

-- a limiter that counts its penalties
abbrev pub penalize : String → ℕ → ℕ → Option ℕ
penalize child seconds n = some (suc n)

abbrev pub dispatcher : Dispatcher ℕ
dispatcher = record {
  reroll_version = "1.0";
  max_attempts = 8;
  limiter = some 0;
  stages = λ s. stage_state;
}

abbrev pub linked : Ok
linked = record { next_state = need_convert; write = blob_link_writer "bb" }

abbrev pub refusal : Skip
refusal = record {
  reason = "unsupported";
  subcategory = "tag";
  details = "no";
  permanent = false;
  reroll_version = some "1.0";
}

abbrev pub failure : Retry
failure = record { reason = "transient"; details = "timeout" }

abbrev pub converted : ConvertOk
converted = record {
  records = "records";
  resolutions = "names";
  conda_name = "demo";
  requires_prerelease = false;
}
