-- ===== src/Fetch/One.antt =====
-- fetch.py: `fetch_one`, `adapt_fetch_outcome` and `dispatch_fetch_item`. The texts of messages, the
-- old corpus of `_bridge_lookup` and `zlib` are parameters.
pub mod Honest
use Prim.Native.String.{◌++◌ as str_append}
use reroll_sync.Base.{
  ℕ, zero, suc, ◌+◌, ◌*◌, ◌≤◌, ◌<◌, ◌≡◌, ◌≢◌, ◌↔◌, ◌∙◌, refl, sym, ap, Bool, true, false, not, ◌&&◌,
  ◌||◌, List, [], ◌∷◌, ◌++◌, arith, length, max, min, sum_by, sum_by-append, length-append, Option,
  none, some, append_assoc, append-nil, ◌⊎◌, inl, inr, get_elem?, All, All-append, Option-cases,
  List-cases, Bool-cases, if◌then◌else◌, ltb, leb, ◌==◌, String, text_eq, is_none,
}
use reroll_sync.Schema.{WheelState}
use reroll_sync.Db.{Conn, Stage, fetch, Timestamp, Result}
use reroll_sync.Archive.Format.{Bytes}
use reroll_sync.Dispatcher.Outcome.{
  QueueItem, Retry, RateLimited, Outcome, of_retry, of_rate_limited,
}
use reroll_sync.Dispatcher.Ops.{Applied}
use reroll_sync.Dispatcher.Apply.{Dispatcher, apply_outcome}
use reroll_sync.Fetch.Client.{
  Http, PypiError, transient_error, rate_limited, not_found, protocol_error, hash_mismatch, Reply,
  replied, raised, crashed, fetch_metadata,
}

pub record FetchItem : Type 0 where
  pub id : ℕ
  pub project : String
  pub lane : ℕ
  pub state : WheelState
  pub filename : String
  pub url : String
  pub metadata_sha256 : Option String
  pub has_metadata : Bool

pub record FetchSkip : Type 0 where
  pub reason : String
  pub subcategory : String
  pub details : String
  pub permanent : Bool
  pub reroll_version : Option String

pub data FetchOutcome : Type 0 where
  fetch_ok : Bytes → String → FetchOutcome
  fetch_skip : FetchSkip → FetchOutcome
  fetch_retry : Retry → FetchOutcome
  fetch_rate_limited : String → Option ℕ → FetchOutcome

-- What the old corpus answers: `no_row` also where there is no database or it cannot be opened;
-- `locked` is the exception of the query.
pub data Stored : Type 0 where
  no_row locked : Stored
  found : Bytes → Stored

-- The old corpus: `stored` is `z_body` by digest; `decompress` is `zlib.decompress`, `none` its error.
pub record Bridge : Type 0 where
  pub stored : String → Stored
  pub decompress : Bytes → Option Bytes

-- The texts of the messages.
pub record Messages : Type 0 where
  pub programming_error : FetchItem → String
  pub mismatch : String → String → String

-- How `_bridge_lookup` ends: `failing` is an exception.
pub data Bridged : Type 0 where
  miss failing : Bridged
  hit : Bytes → Bridged

abbrev matching : (Bytes → String) → String → Option Bytes → Bridged
matching sha256 expected none = failing
matching sha256 expected (some bytes) = if text_eq (sha256 bytes) expected then hit bytes else miss

abbrev unpacked : (Bytes → String) → Bridge → String → Stored → Bridged
unpacked sha256 b expected no_row = miss
unpacked sha256 b expected locked = failing
unpacked sha256 b expected (found z) = matching sha256 expected (b.decompress z)

-- `_bridge_lookup`
unfoldable pub bridge_lookup : (Bytes → String) → Bridge → Option String → Bridged
bridge_lookup sha256 b none = miss
bridge_lookup sha256 b (some expected) = unpacked sha256 b expected (b.stored expected)

abbrev pub not_a_reroll_error : String
not_a_reroll_error = "reroll-sync"

module _ (http : Http) (bridge : Bridge) (messages : Messages) where
  abbrev host_or_empty : Option String → String
  host_or_empty none = ""
  host_or_empty (some h) = h

  -- the `except` clauses of `fetch_one`, which no other exception meets
  abbrev pub answered : String → Reply Bytes → Option FetchOutcome
  answered url (replied bytes) = some (fetch_ok bytes (http.sha256 bytes))
  answered url crashed = none
  answered url (raised (not_found text)) = some (
      fetch_skip (record {
        reason = "metadata_missing";
        subcategory = "PyPINotFound";
        details = text;
        permanent = true;
        reroll_version = none;
      }))
  answered url (raised (hash_mismatch expected actual)) = some (
      fetch_skip (record {
        reason = "metadata_hash_mismatch";
        subcategory = "MetadataHashMismatch";
        details = messages.mismatch expected actual;
        permanent = false;
        reroll_version = some not_a_reroll_error;
      }))
  answered url (raised (transient_error text)) =
      some (fetch_retry (record { reason = "pypi_transient_error"; details = text }))
  answered url (raised (protocol_error text)) =
      some (fetch_retry (record { reason = "pypi_transient_error"; details = text }))
  answered url (raised (rate_limited retry_after)) =
      some (fetch_rate_limited (host_or_empty (http.host url)) retry_after)

  abbrev pub bridged_or : Bridged → Option FetchOutcome → Option FetchOutcome
  bridged_or (hit bytes) other = some (fetch_ok bytes (http.sha256 bytes))
  bridged_or miss other = other
  bridged_or failing other = none

  -- `fetch_one`: `none` is an exception that it passes through
  unfoldable pub fetch_one : Option Bool → ℕ → Timestamp → FetchItem → Option FetchOutcome
  unfolding bridge_lookup fetch_metadata
  fetch_one acquired attempt now wheel =
      let url = str_append wheel.url ".metadata" in
      if is_none wheel.metadata_sha256 && not wheel.has_metadata
      then some (
          fetch_retry (record {
            reason = "missing_metadata_hash_and_flag";
            details = messages.programming_error wheel;
          }))
      else bridged_or (bridge_lookup http.sha256 bridge wheel.metadata_sha256)
          (answered url (fetch_metadata http acquired url attempt now wheel.metadata_sha256))

abbrev seconds_or_zero : Option ℕ → ℕ
seconds_or_zero none = 0
seconds_or_zero (some n) = n

-- `adapt_fetch_outcome`: `none` is its `TypeError`
unfoldable pub adapt_fetch_outcome : FetchOutcome → Option Outcome
adapt_fetch_outcome (fetch_ok bytes sha256) = none
adapt_fetch_outcome (fetch_skip s) =
    some (of_retry (record { reason = s.reason; details = s.details }))
adapt_fetch_outcome (fetch_retry r) = some (of_retry r)
adapt_fetch_outcome (fetch_rate_limited child retry_after) =
    some (of_rate_limited (record { child = child; seconds = seconds_or_zero retry_after }))

-- `_as_queue_item`
abbrev pub as_queue_item : FetchItem → QueueItem
as_queue_item i = record { id = i.id; project = i.project; lane = i.lane; state = i.state }

-- What `dispatch_fetch_item` does with an outcome: a success goes to `enqueue`; `unsupported` is the
-- `TypeError` of the adapter, and `unhandled` an exception that `fetch_one` passes through.
pub data Routed (L : Type 0) : Type 0 where
  enqueued : FetchItem → Bytes → String → Routed L
  applied : Result Applied → Dispatcher L × Conn → Routed L
  unsupported : Routed L
  unhandled : Routed L

module _ {L : Type 0} (penalize : String → ℕ → L → Option L) where
  abbrev pub apply_adapted :
      FetchItem → Option Outcome → Timestamp → Timestamp → ℕ → Dispatcher L × Conn → Routed L
  apply_adapted item none now finished_at jitter s = unsupported
  apply_adapted item (some o) now finished_at jitter s =
      let (r, s') = apply_outcome penalize fetch (as_queue_item item) o now finished_at jitter s in
      applied r s'

  abbrev pub routed :
      FetchItem → Option FetchOutcome → Timestamp → Timestamp → ℕ → Dispatcher L × Conn → Routed L
  routed item none now finished_at jitter s = unhandled
  routed item (some (fetch_ok bytes sha256)) now finished_at jitter s = enqueued item bytes sha256
  routed item (some o) now finished_at jitter s =
      apply_adapted item (adapt_fetch_outcome o) now finished_at jitter s

  -- `dispatch_fetch_item`
  unfoldable pub dispatch_fetch_item :
      Http
      → Bridge
      → Messages
      → Option Bool
      → ℕ
      → FetchItem
      → Timestamp
      → Timestamp
      → ℕ
      → Dispatcher L × Conn
      → Routed L
  unfolding fetch_one adapt_fetch_outcome
  dispatch_fetch_item http bridge messages acquired attempt item now finished_at jitter s =
      routed item (fetch_one http bridge messages acquired attempt now item) now finished_at jitter
        s
