-- ===== src/Dispatcher/Tests/Ops.antt =====
-- The failures of a wheel on a budget of one.
use reroll_sync.Base.{◌≡◌, refl, some, [], ◌∷◌}
use reroll_sync.Schema.{need_metadata, quarantined, is_allowed}
use reroll_sync.Db.{Conn, Wheel, fetch, empty}
use reroll_sync.Sql.{find}
use reroll_sync.Dispatcher.Ops.{attempts}
use reroll_sync.Dispatcher.Ops.Rows.{wheel_at}
use reroll_sync.Dispatcher.Ops.Retries.{retried, retry_all, retry_all_quarantines}
use reroll_sync.Dispatcher.Tests.{wheel, fetching, failure}

abbrev fresh : Conn
fresh = record { db = record empty { wheels = wheel 2 need_metadata ∷ [] }; seq = 7 }

retry_all_quarantines_example :
    let one_failed = retry_all fetch fetching 1 "1.0" ((failure, 20, 500000) ∷ []) fresh in
    (wheel_at 2 one_failed.db ≡ some (wheel 2 need_metadata))
    × ((v : Wheel) × (wheel_at 2
            (retried fetch fetching 1 "1.0" (failure, 90, 500000) one_failed).db
          ≡ some v)
        × (v.state ≡ quarantined))
unfolding find attempts is_allowed
retry_all_quarantines_example =
    retry_all_quarantines fetch fetching 1 "1.0" ((failure, 20, 500000) ∷ []) failure 90 500000
      fresh (wheel 2 need_metadata) refl refl refl refl
