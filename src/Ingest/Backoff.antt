-- ===== src/Ingest/Backoff.antt =====
-- ingest.py: `ProjectBackoff`. Its two dictionaries always have the same keys, so they are one list
-- of entries; a draw of the generator is the `jitter` of `compute_backoff`.
pub mod Budget
mod Tests
use reroll_sync.Base.{
  ℕ, zero, suc, ◌+◌, ◌*◌, ◌≤◌, ◌<◌, ◌≡◌, ◌≢◌, ◌↔◌, ◌∙◌, refl, sym, ap, Bool, true, false, not, ◌&&◌,
  ◌||◌, List, [], ◌∷◌, ◌++◌, arith, length, max, min, sum_by, sum_by-append, length-append, Option,
  none, some, append_assoc, append-nil, ◌⊎◌, inl, inr, get_elem?, All, All-append, Option-cases,
  List-cases, Bool-cases, if◌then◌else◌, ltb, leb, ◌==◌, String, text_eq, any,
}
use reroll_sync.Sql.{find, upsert, delete}
use reroll_sync.Db.{Timestamp}
use reroll_sync.Dispatcher.Outcome.{compute_backoff, base_backoff, max_backoff}

pub record Entry : Type 0 where
  pub project : String
  pub tries : ℕ
  pub next_attempt_at : Timestamp

pub record Backoff : Type 0 where
  pub max_attempts : ℕ
  pub entries : List Entry
  pub quarantined : List String

abbrev pub is_entry : String → Entry → Bool
is_entry project e = text_eq e.project project

abbrev pub is_named : String → String → Bool
is_named project name = text_eq name project

abbrev pub tries_of : Option Entry → ℕ
tries_of none = 0
tries_of (some e) = e.tries

-- `attempts`
unfoldable pub attempts : String → Backoff → ℕ
attempts project b = tries_of (find (is_entry project) b.entries)

-- `project in self._quarantined`
unfoldable pub is_quarantined : String → Backoff → Bool
is_quarantined project b = any (is_named project) b.quarantined

-- `record_failure`: the time that it returns, and the new state
unfoldable pub record_failure : String → Timestamp → ℕ → Backoff → Timestamp × Backoff
unfolding attempts is_quarantined
record_failure project now jitter b =
    let tries = attempts project b + 1 in
    let newly = ltb b.max_attempts tries && not (is_quarantined project b) in
    let next_at = now + compute_backoff base_backoff max_backoff tries jitter in
    (
      next_at,
      record b {
        entries =
            upsert (is_entry project) (λ e. record e { tries = tries; next_attempt_at = next_at })
              (record { project = project; tries = tries; next_attempt_at = next_at }) b.entries;
        quarantined = if newly then project ∷ b.quarantined else b.quarantined;
      },
    )

-- `record_success`
unfoldable pub record_success : String → Backoff → Backoff
record_success project b = record b {
  entries = delete (is_entry project) b.entries;
  quarantined = delete (is_named project) b.quarantined;
}

abbrev pub is_due : Timestamp → Option Entry → Bool
is_due now none = true
is_due now (some e) = leb e.next_attempt_at now

-- `is_eligible`
unfoldable pub is_eligible : String → Timestamp → Backoff → Bool
unfolding is_quarantined
is_eligible project now b =
    if is_quarantined project b then false else is_due now (find (is_entry project) b.entries)
