-- ===== src/Dispatcher/Outcome.antt =====
-- dispatcher.py: the outcomes that a stage reports, the delay before a retry, the guard on
-- transitions, and the payload that a finished conversion writes.
use Prim.Native.Nat.{◌*◌, ◌/◌, ◌^◌, min}
use reroll_sync.Base.{ℕ, zero, suc, String, Bool, Option, some, if◌then◌else◌}
use reroll_sync.Schema.{WheelState, need_metadata, need_convert, ready, is_allowed}
use reroll_sync.Sql.{update, upsert}
use reroll_sync.Db.{
  Stage, fetch, convert, Write, Result, ok, err, illegal_transition, has_id, repodata_key, execute,
  execute_insert, ◌>>◌,
}

-- `_QUEUE_STATE`
abbrev pub queue_state : Stage → WheelState
queue_state fetch = need_metadata
queue_state convert = need_convert

pub record QueueItem : Type 0 where
  pub id : ℕ
  pub project : String
  pub lane : ℕ
  pub state : WheelState

-- `StagePayloadWriter`
abbrev pub StagePayloadWriter : Type 0
StagePayloadWriter = ℕ → Write (Unit {0})

pub record Ok : Type 0 where
  pub next_state : WheelState
  pub write : StagePayloadWriter

pub record Skip : Type 0 where
  pub reason : String
  pub subcategory : String
  pub details : String
  pub permanent : Bool
  pub reroll_version : Option String

pub record Retry : Type 0 where
  pub reason : String
  pub details : String

pub record RateLimited : Type 0 where
  pub child : String
  pub seconds : ℕ

pub data Outcome : Type 0 where
  of_ok : Ok → Outcome
  of_skip : Skip → Outcome
  of_retry : Retry → Outcome
  of_rate_limited : RateLimited → Outcome

-- One second, in the microseconds of `Timestamp`.
abbrev pub second : ℕ
second = 1000000

abbrev pub base_backoff : ℕ
base_backoff = 30 * second

abbrev pub max_backoff : ℕ
max_backoff = 6 * 3600 * second

-- `2 ** (attempts - 1)` times `base`; for no attempt at all Python's power is one half.
unfoldable pub raw_backoff : ℕ → ℕ → ℕ
raw_backoff base zero = base / 2
raw_backoff base (suc n) = base * 2 ^ n

-- `compute_backoff` in microseconds, rounded down. `jitter` is the generator's draw from
-- `uniform(0.5, 1.5)` in millionths.
unfoldable pub compute_backoff : ℕ → ℕ → ℕ → ℕ → ℕ
unfolding raw_backoff
compute_backoff base cap attempts jitter = min (raw_backoff base attempts) cap * jitter / 1000000

-- `_validate_transition`
unfoldable pub validate_transition : WheelState → WheelState → Result (Unit {0})
validate_transition current next_state =
    if is_allowed current next_state then ok tt else err (illegal_transition current next_state)

-- `ConvertOk`, with the records and resolutions as the texts that are stored
pub record ConvertOk : Type 0 where
  pub records : String
  pub resolutions : String
  pub conda_name : String
  pub requires_prerelease : Bool

pub data ConvertOutcome : Type 0 where
  convert_ok : ConvertOk → ConvertOutcome
  convert_skip : Skip → ConvertOutcome
  convert_retry : Retry → ConvertOutcome

-- `_convert_ok_writer`
unfoldable pub convert_ok_writer : ConvertOk → String → StagePayloadWriter
convert_ok_writer outcome version wheel_id = do
  execute_insert wheel_id (λ db. record db {
    wheel_repodata =
        upsert (repodata_key wheel_id)
          (λ r. record r {
            repodata = outcome.records;
            name_conv = some outcome.resolutions;
            requires_prerelease = outcome.requires_prerelease;
            reroll_version = version;
          })
          (record {
            wheel_id = wheel_id;
            repodata = outcome.records;
            name_conv = some outcome.resolutions;
            requires_prerelease = outcome.requires_prerelease;
            reroll_version = version;
          })
          db.wheel_repodata;
  })
  execute (λ db. record db {
    wheels =
        update (has_id wheel_id) (λ w. record w { conda_name = some outcome.conda_name }) db.wheels;
  })

-- `adapt_convert_outcome`
unfoldable pub adapt_convert_outcome : String → ConvertOutcome → Outcome
adapt_convert_outcome version (convert_ok o) =
    of_ok (record { next_state = ready; write = convert_ok_writer o version })
adapt_convert_outcome version (convert_skip s) = of_skip s
adapt_convert_outcome version (convert_retry r) = of_retry r

-- `_blob_link_writer` of fetch.py
unfoldable pub blob_link_writer : String → StagePayloadWriter
blob_link_writer sha256 wheel_id = execute (λ db. record db {
  wheels = update (has_id wheel_id) (λ w. record w { blob_sha256 = some sha256 }) db.wheels;
})
