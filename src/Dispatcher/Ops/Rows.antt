-- ===== src/Dispatcher/Ops/Rows.antt =====
-- What one statement of an operation does to the row of one wheel.
use reroll_sync.Base.{
  ℕ, ◌≡◌, ◌≢◌, refl, ◌∙◌, ap, inl, inr, Bool, true, Option, none, some, List, [], ◌∷◌, arith, any,
  Bool-cases, ◌==◌, is_some,
}
use reroll_sync.Schema.{WheelState}
use reroll_sync.Sql.{update, find}
use reroll_sync.Sql.Laws.{find-update, find-update_ne, find-delete, find-upsert}
use reroll_sync.Db.{
  Db, Stage, Timestamp, Wheel, WorkRow, SkipRow, has_id, has_wheel, work_key, skip_key,
}
use reroll_sync.Db.Laws.{stage_eq_refl}
use reroll_sync.Dispatcher.Ops.{
  set_state, delete_work, upsert_skip, upsert_quarantine, upsert_retry,
}

abbrev pub wheel_at : ℕ → Db → Option Wheel
wheel_at i db = find (has_id i) db.wheels

abbrev pub work_at : ℕ → Stage → Db → Option WorkRow
work_at i s db = find (work_key i s) db.work

abbrev pub skip_at : ℕ → Stage → Db → Option SkipRow
skip_at i s db = find (skip_key i s) db.skips

pub work_key_self : (r : WorkRow) → work_key r.wheel_id r.stage r ≡ true
work_key_self r = ground (arith, stage_eq_refl r.stage)

pub skip_key_self : (r : SkipRow) → skip_key r.wheel_id r.stage r ≡ true
skip_key_self r = ground (arith, stage_eq_refl r.stage)

any-find {ℓ} : {A : Type ℓ} (p : A → Bool) (xs : List A) → any p xs ≡ is_some (find p xs)
unfolding find
any-find p [] = refl
any-find p (x ∷ xs) = ground (arith, any-find p xs)

pub has_wheel-at : (i : ℕ) (db : Db) {w : Wheel} → wheel_at i db ≡ some w → has_wheel i db ≡ true
unfolding has_wheel
has_wheel-at i db h = any-find (has_id i) db.wheels ∙ ap is_some h

-- The key of a row that a key selected.
pub id-wheel_at : (i : ℕ) (ws : List Wheel) (w : Wheel) → find (has_id i) ws ≡ some w → w.id ≡ i
unfolding find
id-wheel_at i [] w h = ground arith
id-wheel_at i (x ∷ xs) w h = elim (Bool-cases (x.id == i)) [
  | inl e ↦ ground (arith)
  | inr e ↦ id-wheel_at i xs w (ground arith)
]

module _ (i : ℕ) (state : WheelState) (seq : ℕ) (now : Timestamp) (db : Db) where
  pub wheel_at-set_state_self :
      {w : Wheel}
      → wheel_at i db ≡ some w
      → wheel_at i (set_state i state seq now db)
        ≡ some (record w { state = state; change_seq = seq; updated_at = now })
  unfolding set_state
  wheel_at-set_state_self h =
      rw
        (find-update (has_id i)
          (λ w. record w { state = state; change_seq = seq; updated_at = now }) (λ x e. e)
          db.wheels)
        (rw h)

  pub wheel_at-set_state_ne :
      (j : ℕ) → i ≢ j → wheel_at j (set_state i state seq now db) ≡ wheel_at j db
  unfolding set_state
  wheel_at-set_state_ne j ne =
      find-update_ne (has_id j) (has_id i)
        (λ w. record w { state = state; change_seq = seq; updated_at = now }) (λ x h. ground arith)
        (λ x h. ground arith) db.wheels

  pub has_wheel-set_state : (j : ℕ) → has_wheel j (set_state i state seq now db) ≡ has_wheel j db
  unfolding has_wheel set_state update
  has_wheel-set_state j = go db.wheels
    where
      go :
          (ws : List Wheel)
          → any (has_id j) (
              update
                (has_id i)
                (λ w. record w { state = state; change_seq = seq; updated_at = now })
                ws)
            ≡ any (has_id j) ws
      go [] = refl
      go (w ∷ ws) = elim (Bool-cases (w.id == i)) [ inl e ↦ rw (e, go ws) | inr e ↦ rw (e, go ws) ]

module _ (i : ℕ) (s : Stage) (db : Db) where
  pub work_at-delete_work : work_at i s (delete_work i s db) ≡ none
  unfolding delete_work
  work_at-delete_work = find-delete (work_key i s) db.work

module _ (row : WorkRow) where
  -- the row that an upsert leaves, by the row that was there
  abbrev pub merged : Option WorkRow → WorkRow
  merged none = row
  merged (some r) = record r {
    attempts = row.attempts;
    next_attempt_at = row.next_attempt_at;
    last_error = row.last_error;
    quarantined_at = row.quarantined_at;
  }

  abbrev pub rescheduled : Option WorkRow → WorkRow
  rescheduled none = row
  rescheduled (some r) = record r {
    attempts = row.attempts;
    next_attempt_at = row.next_attempt_at;
    last_error = row.last_error;
  }

module _ (row : WorkRow) (db : Db) where
  pub work_at-upsert_quarantine :
      work_at row.wheel_id row.stage (upsert_quarantine row db)
      ≡ some (merged row (work_at row.wheel_id row.stage db))
  unfolding upsert_quarantine
  work_at-upsert_quarantine =
      find-upsert (work_key row.wheel_id row.stage) _ row (λ x h. h) (work_key_self row) db.work

  pub work_at-upsert_retry :
      work_at row.wheel_id row.stage (upsert_retry row db)
      ≡ some (rescheduled row (work_at row.wheel_id row.stage db))
  unfolding upsert_retry
  work_at-upsert_retry =
      find-upsert (work_key row.wheel_id row.stage) _ row (λ x h. h) (work_key_self row) db.work

abbrev pub attributed : SkipRow → Option SkipRow → SkipRow
attributed row none = row
attributed row (some r) = record r {
  reason = row.reason;
  permanent = row.permanent;
  reroll_version = row.reroll_version;
  created_at = row.created_at;
}

module _ (row : SkipRow) (db : Db) where
  pub skip_at-upsert_skip :
      skip_at row.wheel_id row.stage (upsert_skip row db)
      ≡ some (attributed row (skip_at row.wheel_id row.stage db))
  unfolding upsert_skip
  skip_at-upsert_skip =
      find-upsert (skip_key row.wheel_id row.stage) _ row (λ x h. h) (skip_key_self row) db.skips

-- The other tables do not matter to a foreign key.
module _ (i : ℕ) (db : Db) where
  pub has_wheel-upsert_skip : (row : SkipRow) → has_wheel i (upsert_skip row db) ≡ has_wheel i db
  unfolding has_wheel upsert_skip
  has_wheel-upsert_skip row = refl

  pub has_wheel-upsert_quarantine :
      (row : WorkRow) → has_wheel i (upsert_quarantine row db) ≡ has_wheel i db
  unfolding has_wheel upsert_quarantine
  has_wheel-upsert_quarantine row = refl
