-- ===== src/Lib.antt =====
-- Verification of reroll-sync, the daemon that mirrors the metadata of PyPI's wheels and converts
-- it into repodata.
--
-- The program is a pipeline around one sqlite database. The ingester compares PyPI's index with the
-- tables and writes what changed; the fetch stage downloads the metadata of each wheel in
-- NEED_METADATA and hands it, through a queue bounded by bytes, to the thread that archives it; the
-- convert stage turns it into repodata. The state column of a wheel is the queue: the dispatcher
-- claims wheels by their state, and turns the outcome that a stage reports into one write. All
-- writes go through one writer thread. Stage loops, a circuit breaker, a disk guard and a
-- hierarchical rate limiter decide when a stage may run.
--
-- Paths are from the root of the repository. Below each, the module that models it:
--   src/reroll_sync/schema.py: Schema has `WheelState` and `ALLOWED_TRANSITIONS`; Schema.Diagram has
--     the diagram of docs/pipeline.md as a relation; Db has the tables as lists of rows, a record
--     for each `Table`.
--   src/reroll_sync/writer.py: Db has `Writer.next_seq` and the type of a `WriteOp.apply`, an action
--     on the tables and the sequence counter that returns or raises; Writer has `_apply_op`,
--     `_commit_batch` and `submit_and_wait`; Writer.Loop `start`, `submit` and `stop`; Writer.Turn
--     one turn of the loop of `_run`, with `_resolve`, `_discard_pending` and `_fail_fatally`.
--   src/reroll_sync/dispatcher.py: Dispatcher.Outcome has the outcomes, `compute_backoff` and
--     `_validate_transition`; Dispatcher.Ops the operations of `_ok_op`, `_skip_op` and `_retry_op`;
--     Dispatcher.Claim `claim` with its query; Dispatcher.Apply the object and `apply_outcome`;
--     Campaign.Selector the selectors, Campaign.Reprocess the queries and the operation of
--     `reprocess`, Campaign.Reprocess.Rounds its chunks, Campaign.Preview `preview_selector` and
--     `metrics`.
--   src/reroll_sync/daemon/unquarantine.py: Campaign.Unquarantine.
--   src/reroll_sync/fsck.py: Fsck.Scan has `_chunked_scan` and `_run_row_check`, Fsck.Checks the
--     queries, `_ROW_CHECKS`, the loop of `run` and `FsckReport.ok`.
--   src/reroll_sync/ingest.py: Ingest.Diff has `_plan_new_wheel` and `_diff_common`; Ingest.Plan the
--     plan of `sync_project`; Ingest.Write the two write operations; Ingest.Stale `_stale_projects`;
--     Ingest.Backoff `ProjectBackoff`.
--   src/reroll_sync/convert.py: Convert has `convert` and `_outcome_from_records`.
--   src/reroll_sync/pypi_client.py: Fetch.Client has `fetch_metadata` and what it calls.
--   src/reroll_sync/fetch.py: Fetch.One has `fetch_one`, `adapt_fetch_outcome` and
--     `dispatch_fetch_item`; Fetch.Queue `ByteBudgetedQueue`; Fetch.Handoff `ArchiveHandoff`;
--     Fetch.Recover `recover_unsealed_segment`; Dispatcher.Outcome `_blob_link_writer`.
--   src/reroll_sync/archive/: Archive.Format has format.py and location.py, Archive.Segment
--     `SegmentWriter` of writer.py, Archive.Reader the reading of reader.py without its caches,
--     Archive.Reader.Cache `SegmentReader` with them, Archive.Store `ArchiveStore` of store.py,
--     Archive.Verify `verify_archive` of verify.py with `iter_records` and `footer_records`.
--   src/reroll_sync/ratelimit.py: Ratelimit.Bucket has `TokenBucket`, Ratelimit.Hierarchy
--     `HierarchicalLimiter`.
--   src/reroll_sync/daemon/circuit_breaker.py: Breaker. src/reroll_sync/daemon/disk_guard.py:
--     DiskGuard. src/reroll_sync/daemon/stage_loop.py: StageLoop.
-- Base has what the modules share, and Sql the statements on one table.
--
-- Conventions. A method that reads the clock takes the reading as an argument. Timestamps count
-- microseconds; the token buckets count tokens in units of which a rate of one token a minute
-- refills one in a microsecond, so their floats are exact integers here. A draw of the random
-- generator is an argument. A method that waits on a condition variable is modelled by the passes
-- of its loop, whose times the environment chooses. A lock makes a method one step; threads
-- interleave by steps. Sqlite's order on text and Python's random generator, which are no code of
-- the repository, are parameters.
--
-- Bytes are lists of numbers, and a file is its bytes; sha256, crc32, zstd and msgpack are the
-- operations of a `Codec`, and `IsCodec` says what the code relies on: that decompression undoes
-- compression, that msgpack reads back what it wrote, and the size of a checksum. httpx, the date
-- parser and the lookup in the old corpus are parameters in the same way.
--
-- Bounds and fuel. The loop that tombstones the wheels of a project that is gone runs on fuel, and
-- so do the rounds of the campaigns. Every turn but the last marks at least one wheel, so one turn
-- more than there are wheels to be marked is enough. A scan of fsck gets one round more than it has
-- rows. All other loops recur on their list.
--
-- Not modelled: the index and project pages of the HTTP client, the command line, the metrics and
-- health reports, the control socket, logging, and the wiring of the service, which do input and
-- output around the parts above; fsck's checks of sealed segments and sequence numbers, the source of
-- bulk conversions, and the writer's guard against transaction statements, which are left for later; and sqlite itself beyond the statements
-- used, with no limits on the size of integers.
mod Base
mod Sql
pub mod Schema
pub mod Db
pub mod Writer
pub mod Dispatcher
pub mod Breaker
pub mod DiskGuard
pub mod Ratelimit
pub mod Fetch
pub mod StageLoop
pub mod Ingest
pub mod Convert
pub mod Archive
pub mod Campaign
pub mod Fsck
