-- ===== src/Fetch/Tests.antt =====
-- A wheel that is fetched, archived and, after a crash, recovered.
use reroll_sync.Base.{
  Option, ℕ, ◌≤◌, ◌≡◌, refl, Bool, true, false, ◌||◌, [], ◌∷◌, length, none, some, inl, ◌==◌,
  String, any,
}
use reroll_sync.Schema.{need_metadata, is_allowed}
use reroll_sync.Sql.{select, find}
use reroll_sync.Db.{Conn, Wheel, BlobRow, empty as empty_db}
use reroll_sync.Archive.Format.{BlobLocation}
use reroll_sync.Archive.Segment.{add, open_segment, should_seal}
use reroll_sync.Archive.Store.{location_for, has_sha, open_writer, add_blob}
use reroll_sync.Archive.Tests.{toy, toy_sha256, one}
use reroll_sync.Dispatcher.Ops.{ok_op}
use reroll_sync.Dispatcher.Outcome.{blob_link_writer}
use reroll_sync.Dispatcher.Apply.{Dispatcher, StageState, apply_outcome}
use reroll_sync.Fetch.Queue.{get, release}
use reroll_sync.Fetch.Client.{Http, Response, fetch_metadata, fits, max_metadata_bytes}
use reroll_sync.Fetch.Client.Checked.{MatchesHash, fetch_metadata-MatchesHash}
use reroll_sync.Fetch.One.{FetchItem, no_row, Bridge, Messages, fetch_one}
use reroll_sync.Fetch.One.Honest.{IsHonest, fetch_one-IsHonest}
use reroll_sync.Fetch.Handoff.{HandoffItem, Handoff, Clocks, archive_item, process_one}
use reroll_sync.Fetch.Handoff.Links.{HasBlob, process_one-frees, archive_item-links}
use reroll_sync.Fetch.Recover.{recover_unsealed_segment}
use reroll_sync.Fetch.Recover.Linked.{IsLinked, recover_unsealed_segment-IsLinked}
use reroll_sync.Fetch.Recover.Gone.{recover_unsealed_segment-gone}

abbrev response : Response
response = record {
  status = 200;
  retry_after = none;
  lower_text = [];
  chunks = one ∷ [] ∷ [];
  broken = none;
}

abbrev http : Http
http = record {
  host = λ url. some "files";
  get = λ url n. inl response;
  sha256 = toy_sha256;
  to_float = λ t. none;
  to_date = λ t. none;
  message = λ n. "status";
}

fetch_metadata-MatchesHash_example :
    (some true ≡ some true)
    × ((r : Response) × (http.get "u" 0 ≡ inl r)
        × ((r.status == 304 || fits 200 300 r.status) ≡ true)
        × (r.broken ≡ none))
    × (length one ≤ max_metadata_bytes)
    × MatchesHash http (some "a") one
unfolding fetch_metadata
fetch_metadata-MatchesHash_example =
    fetch_metadata-MatchesHash http (some true) "u" 0 9 (some "a") one refl

abbrev bridge : Bridge
bridge = record { stored = λ s. no_row; decompress = λ z. some z }

abbrev messages : Messages
messages = record { programming_error = λ w. "no hash"; mismatch = λ e a. "mismatch" }

abbrev item : FetchItem
item = record {
  id = 2;
  project = "demo";
  lane = 0;
  state = need_metadata;
  filename = "demo.whl";
  url = "https://files/demo.whl";
  metadata_sha256 = some "a";
  has_metadata = true;
}

fetch_one-IsHonest_example :
    IsHonest http (some "a") (fetch_one http bridge messages (some true) 0 9 item)
fetch_one-IsHonest_example = fetch_one-IsHonest http bridge messages (some true) 0 9 item

abbrev wheel : Wheel
wheel = record {
  id = 2;
  filename = "demo.whl";
  project = "demo";
  conda_name = none;
  state = need_metadata;
  lane = 0;
  url = "https://files/demo.whl";
  wheel_sha256 = none;
  metadata_sha256 = some "a";
  size = none;
  upload_time = none;
  requires_python = none;
  yanked = false;
  yanked_reason = none;
  blob_sha256 = some "b";
  serial = 3;
  change_seq = 4;
  deleted_at = none;
  updated_at = 0;
}

abbrev row : BlobRow
row = record { sha256 = "b"; segment_id = 3; block_no = 0; offset = 0; length = 2 }

abbrev conn : Conn
conn = record { db = record empty_db { wheels = wheel ∷ []; blobs = row ∷ [] }; seq = 4 }

abbrev stage_state : StageState
stage_state = record {
  queue = record { cursor = none; in_flight = 2 ∷ [] };
  counts = record { ok_count = 0; skip_count = 0; retry_outcomes = 0; rate_limited_count = 0 };
  retry_count = 0;
  quarantine_count = 0;
  last_completion = none;
  throughput_ema = 0;
}

abbrev dispatcher : Dispatcher ℕ
dispatcher = record {
  reroll_version = "1.0";
  max_attempts = 8;
  limiter = none;
  stages = λ s. stage_state;
}

abbrev penalize : String → ℕ → ℕ → Option ℕ
penalize child seconds n = some n

abbrev handed : HandoffItem
handed = record {
  queue_item = record { id = 2; project = "demo"; lane = 0; state = need_metadata };
  filename = "demo.whl";
  content = one;
  sha256 = "a";
}

abbrev handoff : Handoff ℕ
handoff = record {
  queue = record {
    budget_bytes = 9;
    items = handed ∷ [];
    charged = 1;
    released = 0;
    closed = false;
  };
  store = record { open_files = []; sealed_files = []; current = none };
  dispatcher = dispatcher;
  conn = conn;
  archived = [];
}

abbrev clocks : Clocks
clocks = record { monotonic = 1; wall = 2; now = 3; finished_at = 4; jitter = 5 }

process_one-frees_example :
    (process_one toy penalize clocks handoff).1.queue ≡ release 1 (get handoff.queue).1
unfolding get
process_one-frees_example = process_one-frees toy penalize clocks handed handoff refl

archive_item-links_example :
    let db = (archive_item toy penalize clocks handed handoff).1.conn.db in
    HasBlob toy penalize clocks 2 "a" db × ((l : BlobLocation) × (location_for "a" db ≡ some l))
unfolding archive_item add_blob add find open_writer open_segment should_seal apply_outcome
    is_allowed ok_op blob_link_writer
archive_item-links_example = archive_item-links toy penalize clocks handed handoff wheel refl refl

abbrev text_lt : String → String → Bool
text_lt s t = false

recover_unsealed_segment-IsLinked_example :
    IsLinked (recover_unsealed_segment text_lt 3 500 conn).1.db
recover_unsealed_segment-IsLinked_example =
    recover_unsealed_segment-IsLinked text_lt 3 500 conn (refl, tt)

recover_unsealed_segment-gone_example :
    let blobs = (recover_unsealed_segment text_lt 3 500 conn).1.db.blobs in
    let here = any (has_sha "b") (select (λ r. r.segment_id == 3) conn.db.blobs) in
    (here ≡ true → find (has_sha "b") blobs ≡ none)
    × (here ≡ false → find (has_sha "b") blobs ≡ find (has_sha "b") conn.db.blobs)
recover_unsealed_segment-gone_example = recover_unsealed_segment-gone text_lt 3 499 conn "b"
