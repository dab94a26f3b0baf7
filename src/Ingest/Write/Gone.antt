-- ===== src/Ingest/Write/Gone.antt =====
-- The loop that turns the wheels of a project that is gone into tombstones.
use reroll_sync.Base.{
  ℕ, zero, suc, ◌+◌, ◌≤◌, ◌<◌, ◌≡◌, refl, true, false, List, [], ◌∷◌, arith, length, none, some,
  ◌⊎◌, inl, inr, List-cases, String, take,
}
use reroll_sync.Schema.{deleted}
use reroll_sync.Sql.{select, update, count, find}
use reroll_sync.Sql.Laws.{find-delete}
use reroll_sync.Db.{Db, Conn, Wheel, Timestamp, ok, has_id, next_seq, pure}
use reroll_sync.Db.Laws.{bind_ok}
use reroll_sync.Ingest.Write.{
  tombstone, write_vanished, is_live_of, wheel_ids, gone_chunk, go_on, gone_loop, delete_index,
  gone_op, ApplyResult, is_index,
}

-- the wheels of the project that are not yet tombstones
abbrev pub live : String → Db → ℕ
live name db = count (is_live_of name) db.wheels

module _ (name : String) (now seq : ℕ) where
  abbrev dead : Wheel → Wheel
  dead w = record w { deleted_at = some now; state = deleted; change_seq = seq; updated_at = now }

  dead_not_live : (w : Wheel) → is_live_of name (dead w) ≡ false
  dead_not_live w = ground arith

  count-dead :
      (id : ℕ) (ws : List Wheel)
      → count (is_live_of name) (update (has_id id) dead ws) ≤ count (is_live_of name) ws
  unfolding count update
  count-dead id [] = omega arith
  count-dead id (w ∷ ws) = ground (arith, count-dead id ws, dead_not_live w)

  -- a live wheel whose id is meant is one less
  count-first :
      (ws : List Wheel) (w : Wheel) (rest : List Wheel)
      → select (is_live_of name) ws ≡ w ∷ rest
      → count (is_live_of name) (update (has_id w.id) dead ws) < count (is_live_of name) ws
  unfolding count update select
  count-first [] w rest h = ground arith
  count-first (v ∷ ws) w rest h =
      ground (arith, h, count-first ws w rest, count-dead w.id ws, dead_not_live v)

write_vanished_ok :
    (now : Timestamp) (ids : List ℕ) (c : Conn) → (write_vanished now ids c).0 ≡ ok (length ids)
unfolding write_vanished next_seq
write_vanished_ok now [] c = refl
write_vanished_ok now (id ∷ ids) c = ground (
  arith,
  write_vanished_ok now ids (record { db = tombstone (suc c.seq) now id c.db; seq = suc c.seq }),
)

live-write_vanished :
    (name : String) (now : Timestamp) (ids : List ℕ) (c : Conn)
    → live name (write_vanished now ids c).1.db ≤ live name c.db
unfolding write_vanished next_seq tombstone
live-write_vanished name now [] c = omega arith
live-write_vanished name now (id ∷ ids) c =
    let c' : Conn = record { db = tombstone (suc c.seq) now id c.db; seq = suc c.seq } in
    ground (
      arith,
      write_vanished_ok now ids c',
      live-write_vanished name now ids c',
      count-dead name now (suc c.seq) id c.db.wheels,
    )

select_none :
    (name : String) (ws : List Wheel)
    → select (is_live_of name) ws ≡ []
    → count (is_live_of name) ws ≡ 0
unfolding select count
select_none name [] h = refl
select_none name (w ∷ ws) h = ground (arith, select_none name ws)

write_vanished_first :
    (name : String) (now : Timestamp) (w : Wheel) (rest : List Wheel) (ids : List ℕ) (c : Conn)
    → select (is_live_of name) c.db.wheels ≡ w ∷ rest
    → live name (write_vanished now (w.id ∷ ids) c).1.db < live name c.db
unfolding write_vanished next_seq tombstone
write_vanished_first name now w rest ids c e =
    let c' : Conn = record { db = tombstone (suc c.seq) now w.id c.db; seq = suc c.seq } in
    ground (
      arith,
      write_vanished_ok now ids c',
      live-write_vanished name now ids c',
      count-first name now (suc c.seq) c.db.wheels w rest e,
    )

-- a turn ends with no live wheel left, or with fewer than before
gone_chunk_step :
    (name : String) (chunk : ℕ) (now : Timestamp) (c : Conn)
    → let (r, c') = gone_chunk name (suc chunk) now c in
      ((r ≡ ok 0) × (live name c'.db ≡ 0))
      ⊎ ((n : ℕ) × (r ≡ ok (suc n)) × (live name c'.db < live name c.db))
unfolding gone_chunk write_vanished
gone_chunk_step name chunk now c = elim (List-cases (select (is_live_of name) c.db.wheels)) [
  | inl e ↦ inl (rw e refl, rw e (select_none name c.db.wheels e))
  | inr (w, rest, e) ↦
      let ids = wheel_ids (take chunk rest) in
      inr (
        length ids,
        rw e (write_vanished_ok now (w.id ∷ ids) c),
        rw e (write_vanished_first name now w rest ids c e),
      )
]

-- the loop ends with no live wheel, on more fuel than there are live wheels
gone_loop_clears :
    (fuel : ℕ) (name : String) (chunk : ℕ) (now : Timestamp) (c : Conn)
    → live name c.db < fuel
    → let (r, c') = gone_loop fuel name (suc chunk) now c in
      ((n : ℕ) × (r ≡ ok n)) × (live name c'.db ≡ 0)
unfolding gone_loop
gone_loop_clears zero name chunk now c h = ground arith
gone_loop_clears (suc fuel) name chunk now c h =
    let more = λ (n : ℕ). go_on n (gone_loop fuel name (suc chunk) now) in
    elim (gone_chunk_step name chunk now c) [
      | inl (e, z) ↦ rw (bind_ok (gone_chunk name (suc chunk) now) more c 0 e) ((0, refl), z)
      | inr (n, e, lt) ↦
          let c' = (gone_chunk name (suc chunk) now c).1 in
          let ((m, e'), z) = gone_loop_clears fuel name chunk now c' (omega (arith, h, lt)) in
          let again = gone_loop fuel name (suc chunk) now in
          rw (bind_ok (gone_chunk name (suc chunk) now) more c (suc n) e)
            (rw (bind_ok again (λ rest. pure (suc n + rest)) c' m e') ((suc n + m, refl), z))
    ]

-- A project that PyPI has deleted: the operation succeeds, and when it ends no wheel of the project
-- is without a tombstone and its row of the index is gone. One more turn of the loop than there are
-- wheels to mark is enough, for chunks of any size but zero.
pub gone_op_clears :
    (fuel : ℕ) (name : String) (chunk : ℕ) (now : Timestamp) (c : Conn)
    → live name c.db < fuel
    → let (r, c') = gone_op fuel name (suc chunk) now c in
      ((a : ApplyResult) × (r ≡ ok a) × (a.project_gone ≡ true))
      × (live name c'.db ≡ 0)
      × (find (is_index name) c'.db.pypi_index ≡ none)
unfolding gone_op delete_index
gone_op_clears fuel name chunk now c h =
    let loop = gone_loop fuel name (suc chunk) now in
    let ((m, e), z) = gone_loop_clears fuel name chunk now c h in
    rw (bind_ok loop _ c m e)
      ((_, refl, refl), z, find-delete (is_index name) (loop c).1.db.pypi_index)
