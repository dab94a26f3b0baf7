-- ===== src/Dispatcher/Apply/Payloads.antt =====
-- The two payloads of the pipeline and the contract of `StagePayloadWriter`.
use reroll_sync.Base.{ℕ, ◌≡◌, refl, String, Option, none, some, arith, ==_refl}
use reroll_sync.Sql.{find}
use reroll_sync.Sql.Laws.{find-update, find-upsert}
use reroll_sync.Db.{Conn, Wheel, RepodataRow, has_id, repodata_key, execute_insert}
use reroll_sync.Dispatcher.Outcome.{ConvertOk, blob_link_writer, convert_ok_writer}
use reroll_sync.Dispatcher.Ops.Rows.{wheel_at, has_wheel-at}
use reroll_sync.Dispatcher.Ops.Effects.{IsPayload}

-- the row that the upsert of `_convert_ok_writer` leaves, by the row that was there
module _ (i : ℕ) (outcome : ConvertOk) (version : String) where
  abbrev converted_row : Option RepodataRow → RepodataRow
  converted_row none = record {
    wheel_id = i;
    repodata = outcome.records;
    name_conv = some outcome.resolutions;
    requires_prerelease = outcome.requires_prerelease;
    reroll_version = version;
  }
  converted_row (some r) = record r {
    repodata = outcome.records;
    name_conv = some outcome.resolutions;
    requires_prerelease = outcome.requires_prerelease;
    reroll_version = version;
  }

module _ (i : ℕ) (c : Conn) (w : Wheel) (there : wheel_at i c.db ≡ some w) where
  -- linking a blob to a wheel
  pub blob_link_writer-row :
      (sha256 : String)
      → wheel_at i (blob_link_writer sha256 i c).1.db
        ≡ some (record w { blob_sha256 = some sha256 })
  unfolding blob_link_writer
  blob_link_writer-row sha256 =
      rw
        (find-update (has_id i) (λ w. record w { blob_sha256 = some sha256 }) (λ x e. e)
          c.db.wheels)
        (rw there)

  pub convert_ok_writer-row :
      (outcome : ConvertOk) (version : String)
      → wheel_at i (convert_ok_writer outcome version i c).1.db
        ≡ some (record w { conda_name = some outcome.conda_name })
  unfolding convert_ok_writer execute_insert
  convert_ok_writer-row outcome version = rw (has_wheel-at i c.db there) (
      rw
        (find-update (has_id i) (λ w. record w { conda_name = some outcome.conda_name }) (λ x e. e)
          c.db.wheels)
        (rw there))

  -- the `wheel_repodata` row of a converted wheel
  pub convert_ok_writer-repodata :
      (outcome : ConvertOk) (version : String)
      → (r : RepodataRow) × (find
            (repodata_key i)
            (convert_ok_writer outcome version i c).1.db.wheel_repodata
          ≡ some r)
        × (r.repodata ≡ outcome.records)
        × (r.reroll_version ≡ version)
        × (r.requires_prerelease ≡ outcome.requires_prerelease)
  unfolding convert_ok_writer execute_insert
  convert_ok_writer-repodata outcome version = rw (has_wheel-at i c.db there) (
    converted_row i outcome version (find (repodata_key i) c.db.wheel_repodata),
    find-upsert (repodata_key i) _ (converted_row i outcome version none) (λ x e. e) (==_refl i)
        c.db.wheel_repodata,
    ground arith,
    ground arith,
    ground arith,
  )

module _ (i : ℕ) (c : Conn) (w : Wheel) (there : wheel_at i c.db ≡ some w) where
  pub blob_link_writer-IsPayload : (sha256 : String) → IsPayload (blob_link_writer sha256) i c
  unfolding blob_link_writer
  blob_link_writer-IsPayload sha256 = record {
    succeeds = refl;
    keeps_seq = refl;
    keeps_state = λ v e.
        (record v { blob_sha256 = some sha256 }, blob_link_writer-row i c v e sha256, refl, refl);
  }

  pub convert_ok_writer-IsPayload :
      (outcome : ConvertOk) (version : String) → IsPayload (convert_ok_writer outcome version) i c
  unfolding convert_ok_writer execute_insert
  convert_ok_writer-IsPayload outcome version = record {
    succeeds = rw (has_wheel-at i c.db there);
    keeps_seq = rw (has_wheel-at i c.db there);
    keeps_state = λ v e. (
      record v { conda_name = some outcome.conda_name },
      convert_ok_writer-row i c v e outcome version,
      refl,
      refl,
    );
  }
