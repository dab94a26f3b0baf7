-- ===== src/Ingest/Backoff/Budget.antt =====
-- The failures of a project, counted against its budget.
use reroll_sync.Base.{
  ℕ, suc, ◌+◌, ◌<◌, ◌≡◌, ◌∙◌, refl, true, false, ◌||◌, List, [], ◌∷◌, arith, length, none, ltb,
  String, text_eq_refl, any,
}
use reroll_sync.Sql.{find, delete}
use reroll_sync.Sql.Laws.{find-upsert, find-delete}
use reroll_sync.Db.{Timestamp}
use reroll_sync.Dispatcher.Outcome.{compute_backoff, base_backoff, max_backoff}
use reroll_sync.Ingest.Backoff.{
  Backoff, is_entry, is_named, tries_of, attempts, is_quarantined, record_failure, record_success,
  is_eligible,
}

-- failures of one project at the given times, with the draws of the generator
unfoldable pub fail_all : String → List (Timestamp × ℕ) → Backoff → Backoff
fail_all project [] b = b
fail_all project ((now, jitter) ∷ rest) b =
    fail_all project rest (record_failure project now jitter b).1

-- what the budget says of the quarantine
abbrev pub IsBudgeted : String → Backoff → Type 0
IsBudgeted project b = is_quarantined project b ≡ ltb b.max_attempts (attempts project b)

attempts-record_failure :
    (project : String) (now : Timestamp) (jitter : ℕ) (b : Backoff)
    → attempts project (record_failure project now jitter b).1 ≡ suc (attempts project b)
unfolding attempts record_failure
attempts-record_failure project now jitter b =
    let tries = tries_of (find (is_entry project) b.entries) + 1 in
    let next_at = now + compute_backoff base_backoff max_backoff tries jitter in
    rw
      (find-upsert (is_entry project) (λ e. record e { tries = tries; next_attempt_at = next_at })
        (record { project = project; tries = tries; next_attempt_at = next_at }) (λ x h. h)
        (text_eq_refl project) b.entries)
      (ground arith)

is_quarantined-record_failure :
    (project : String) (now : Timestamp) (jitter : ℕ) (b : Backoff)
    → is_quarantined project (record_failure project now jitter b).1
      ≡ (ltb b.max_attempts (attempts project b + 1) || is_quarantined project b)
unfolding is_quarantined record_failure
is_quarantined-record_failure project now jitter b = ground (arith, text_eq_refl project)

max-record_failure :
    (project : String) (now : Timestamp) (jitter : ℕ) (b : Backoff)
    → (record_failure project now jitter b).1.max_attempts ≡ b.max_attempts
unfolding record_failure
max-record_failure project now jitter b = refl

record_failure-IsBudgeted :
    (project : String) (now : Timestamp) (jitter : ℕ) (b : Backoff)
    → IsBudgeted project b
    → IsBudgeted project (record_failure project now jitter b).1
record_failure-IsBudgeted project now jitter b h =
    rw (attempts-record_failure project now jitter b, max-record_failure project now jitter b)
      (ground (arith, h, is_quarantined-record_failure project now jitter b))

fail_all-IsBudgeted :
    (project : String) (fails : List (Timestamp × ℕ)) (b : Backoff)
    → IsBudgeted project b
    → IsBudgeted project (fail_all project fails b)
      × (attempts project (fail_all project fails b) ≡ attempts project b + length fails)
      × ((fail_all project fails b).max_attempts ≡ b.max_attempts)
unfolding fail_all
fail_all-IsBudgeted project [] b h = (h, omega arith, refl)
fail_all-IsBudgeted project ((now, jitter) ∷ rest) b h =
    let b' = (record_failure project now jitter b).1 in
    let ih =
      fail_all-IsBudgeted project rest b' (record_failure-IsBudgeted project now jitter b h) in
    (
      ih.0,
      omega (arith, ih.1, attempts-record_failure project now jitter b),
      ih.2 ∙ max-record_failure project now jitter b,
    )

any-delete_name :
    (project : String) (names : List String)
    → any (is_named project) (delete (is_named project) names) ≡ false
unfolding delete
any-delete_name project [] = refl
any-delete_name project (n ∷ ns) = ground (arith, any-delete_name project ns)

record_success_clears :
    (project : String) (b : Backoff)
    → (attempts project (record_success project b) ≡ 0)
      × (is_quarantined project (record_success project b) ≡ false)
      × (find (is_entry project) (record_success project b).entries ≡ none)
unfolding attempts is_quarantined record_success
record_success_clears project b = (
  rw (find-delete (is_entry project) b.entries) refl,
  any-delete_name project b.quarantined,
  find-delete (is_entry project) b.entries,
)

max-record_success :
    (project : String) (b : Backoff) → (record_success project b).max_attempts ≡ b.max_attempts
unfolding record_success
max-record_success project b = refl

eligible_when_clear :
    (project : String) (now : Timestamp) (b : Backoff)
    → is_quarantined project b ≡ false
    → find (is_entry project) b.entries ≡ none
    → is_eligible project now b ≡ true
unfolding is_eligible
eligible_when_clear project now b q e = ground (arith, q, e)

refused_in_quarantine :
    (project : String) (now : Timestamp) (b : Backoff)
    → is_quarantined project b ≡ true
    → is_eligible project now b ≡ false
unfolding is_eligible
refused_in_quarantine project now b q = ground (arith, q)

-- After a success a project may be attempted at any time. From then on its failures are counted,
-- and it is quarantined, and never eligible, exactly when they are more than the budget.
pub fail_all-record_success :
    (project : String) (fails : List (Timestamp × ℕ)) (now : Timestamp) (b : Backoff)
    → let clear = record_success project b in
      let b' = fail_all project fails clear in
      (is_eligible project now clear ≡ true)
      × (attempts project b' ≡ length fails)
      × (is_quarantined project b' ≡ ltb b.max_attempts (length fails))
      × (b.max_attempts < length fails → is_eligible project now b' ≡ false)
fail_all-record_success project fails now b =
    let clear = record_success project b in
    let b' = fail_all project fails clear in
    let (zero_tries, free, no_entry) = record_success_clears project b in
    let start : IsBudgeted project clear = ground (arith, zero_tries, free) in
    let (budgeted, counted, same) = fail_all-IsBudgeted project fails clear start in
    let kept = max-record_success project b in
    let number : attempts project b' ≡ length fails = omega (arith, zero_tries, counted) in
    let parked : is_quarantined project b' ≡ ltb b.max_attempts (length fails) =
      ground (arith, budgeted, number, same, kept) in
    (
      eligible_when_clear project now clear free no_entry,
      number,
      parked,
      λ past. refused_in_quarantine project now b' (ground (arith, parked, past)),
    )
