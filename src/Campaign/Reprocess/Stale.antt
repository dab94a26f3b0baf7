-- ===== src/Campaign/Reprocess/Stale.antt =====
-- `reprocess` on a version: what a chunk does to the stale rows of `wheel_repodata` and `skips`.
use reroll_sync.Base.{
  ℕ, suc, ◌≡◌, ◌∙◌, refl, ap, Bool, false, ◌&&◌, List, [], ◌∷◌, arith, ◌==◌, String, any,
}
use reroll_sync.Sql.{update, count, delete}
use reroll_sync.Db.{Db, Conn, Timestamp, Wheel, RepodataRow, SkipRow, ok, has_id}
use reroll_sync.Writer.{submit_and_wait}
use reroll_sync.Dispatcher.Claim.{contains}
use reroll_sync.Campaign.Selector.{reroll_version_below}
use reroll_sync.Campaign.Reprocess.{
  is_live, restarted, restart_one, restart_all, reprocess_chunk_op, joins, is_stale_skip,
  is_stale_row, is_joined_skip,
}
use reroll_sync.Campaign.Reprocess.Chunk.{is_left, left_after}

live_update :
    (i id seq : ℕ) (now : Timestamp) (ws : List Wheel)
    → (i == id) ≡ false
    → any (λ w. has_id i w && is_live w) (update (has_id id) (restarted seq now) ws)
      ≡ any (λ w. has_id i w && is_live w) ws
unfolding update
live_update i id seq now [] h = refl
live_update i id seq now (w ∷ ws) h = ground (arith, live_update i id seq now ws)

joins_restart :
    (i : ℕ) (ids : List ℕ) (now : Timestamp) (c : Conn)
    → contains i ids ≡ false
    → joins (restart_all ids now c).1.db i ≡ joins c.db i
unfolding restart_all restart_one
joins_restart i [] now c h = refl
joins_restart i (id ∷ ids) now c h =
    joins_restart i ids now (restart_one id now c).1 (ground arith)
    ∙ live_update i id (suc c.seq) now c.db.wheels (ground arith)

restart_keeps :
    (ids : List ℕ) (now : Timestamp) (c : Conn)
    → ((restart_all ids now c).1.db.wheel_repodata ≡ c.db.wheel_repodata)
      × ((restart_all ids now c).1.db.skips ≡ c.db.skips)
unfolding restart_all restart_one
restart_keeps [] now c = (refl, refl)
restart_keeps (id ∷ ids) now c = restart_keeps ids now (restart_one id now c).1

abbrev pub repodata_key : RepodataRow → ℕ
repodata_key r = r.wheel_id

abbrev pub skip_key : SkipRow → ℕ
skip_key r = r.wheel_id

module _ (text_lt : String → String → Bool) (version : String) where
  -- the rows that are left to do in each phase
  abbrev pub stale_rows : Db → ℕ
  stale_rows db = count (is_stale_row text_lt version db) db.wheel_repodata

  abbrev pub stale_skips : Db → ℕ
  stale_skips db = count (is_joined_skip text_lt version db) db.skips

  pub chunk_runs :
      (ids : List ℕ) (now : Timestamp) (c : Conn)
      → (n : ℕ) × (c' : Conn) × (submit_and_wait
            (reprocess_chunk_op text_lt ids (reroll_version_below version) now)
            c
          ≡ (ok n, c'))
        × (stale_rows c'.db
            ≡ count
                (is_left repodata_key (is_stale_row text_lt version c.db) ids)
                c.db.wheel_repodata)
        × (stale_skips c'.db
            ≡ count (is_left skip_key (is_joined_skip text_lt version c.db) ids) c.db.skips)
  unfolding submit_and_wait reprocess_chunk_op
  chunk_runs ids now c =
      let db : Db = record c.db {
        wheel_repodata = delete (λ r. contains r.wheel_id ids) c.db.wheel_repodata;
        skips = delete (λ r. is_stale_skip text_lt version r && contains r.wheel_id ids) c.db.skips;
        work = delete (λ r. contains r.wheel_id ids) c.db.work;
      } in
      let c0 : Conn = record c { db = db } in
      let same = λ (i : ℕ). joins_restart i ids now c0 in
      let (rows, skips) = restart_keeps ids now c0 in
      (
        (restart_all ids now c0).0,
        (restart_all ids now c0).1,
        refl,
        ap (count (is_stale_row text_lt version (restart_all ids now c0).1.db)) rows
            ∙ left_after repodata_key (is_stale_row text_lt version c.db)
                (is_stale_row text_lt version (restart_all ids now c0).1.db)
                (λ r. contains r.wheel_id ids) ids (λ r h. h) (λ r h k. absurd (cc))
                (λ r h. ap (λ b. text_lt r.reroll_version version && b) (same r.wheel_id h))
                c.db.wheel_repodata,
        ap (count (is_joined_skip text_lt version (restart_all ids now c0).1.db)) skips
            ∙ left_after skip_key (is_joined_skip text_lt version c.db)
                (is_joined_skip text_lt version (restart_all ids now c0).1.db)
                (λ r. is_stale_skip text_lt version r && contains r.wheel_id ids) ids
                (λ r h. ground arith) (λ r h k. ground arith)
                (λ r h. ap (λ b. is_stale_skip text_lt version r && b) (same r.wheel_id h))
                c.db.skips,
      )
