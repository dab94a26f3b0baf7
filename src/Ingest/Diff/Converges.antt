-- ===== src/Ingest/Diff/Converges.antt =====
-- A row before and after its difference from the page is written.
use reroll_sync.Base.{
  ◌≡◌, subst, ◌↔◌, ◌∙◌, refl, sym, true, false, ◌&&◌, List, [], ◌∷◌, arith, none, some, inl, inr,
  Option-cases, ◌==◌, opt_eq, opt_eq_refl, text_eq, text_eq_refl, ==_refl,
}
use reroll_sync.Schema.{no_metadata, state_eq}
use reroll_sync.Schema.Diagram.{state_eq_iff}
use reroll_sync.Db.{Wheel, Timestamp}
use reroll_sync.Ingest.Diff.{
  ProjectFile, Change, assign, assign_all, diff_common, diff_by, column_changes, next_state,
  initial_state, is_mismatch, same_yanked, resurrect, changed,
}
use reroll_sync.Ingest.Diff.Columns.{updated, assign-column_changes}

-- the row after the UPDATE of its columns
unfoldable pub refresh : Wheel → ProjectFile → Wheel
refresh w file = elim (diff_common w file) [ none ↦ w | some c ↦ assign_all c.changes w ]

-- The row says what the page says, and nothing is left to fetch anew.
pub record Agrees (w : Wheel) (file : ProjectFile) : Type 0 where
  pub live : w.deleted_at ≡ none
  pub same_url : w.url ≡ file.url
  pub same_wheel_sha256 : w.wheel_sha256 ≡ file.wheel_sha256
  pub same_metadata_sha256 : w.metadata_sha256 ≡ file.metadata_sha256
  pub same_size : w.size ≡ file.size
  pub same_upload_time : w.upload_time ≡ file.upload_time
  pub same_requires_python : w.requires_python ≡ file.requires_python
  pub same_yank : w.yanked ≡ file.yanked
  pub same_yanked_reason : w.yanked_reason ≡ file.yanked_reason
  pub no_mismatch : is_mismatch w.blob_sha256 file.metadata_sha256 ≡ false
  pub no_sidecar_left : (state_eq w.state no_metadata && file.has_metadata) ≡ false

changed_state :
    (w : Wheel) (file : ProjectFile) (cs : List Change)
    → (elim (changed w file cs) [ none ↦ w | some c ↦ assign_all c.changes w ]) ≡ assign_all cs w
unfolding assign_all
changed_state w file [] = refl
changed_state w file (c ∷ cs) = refl

updated-Agrees :
    (w : Wheel) (file : ProjectFile) → w.deleted_at ≡ none → Agrees (updated w file) file
unfolding next_state
updated-Agrees w file live = record {
  live = live;
  same_url = refl;
  same_wheel_sha256 = refl;
  same_metadata_sha256 = refl;
  same_size = refl;
  same_upload_time = refl;
  same_requires_python = refl;
  same_yank = refl;
  same_yanked_reason = refl;
  no_mismatch = ground arith;
  no_sidecar_left = ground arith;
}

diff_live :
    (w : Wheel) (file : ProjectFile)
    → w.deleted_at ≡ none
    → diff_common w file ≡ changed w file (column_changes w file)
unfolding diff_common
diff_live w file e =
    subst (λ d. diff_by d w file ≡ changed w file (column_changes w file)) (sym e) refl

refresh_live :
    (w : Wheel) (file : ProjectFile) → w.deleted_at ≡ none → refresh w file ≡ updated w file
unfolding refresh next_state
refresh_live w file e =
    rw (refresh, diff_live w file e)
      (changed_state w file (column_changes w file) ∙ assign-column_changes w file)

resurrected-Agrees : (w : Wheel) (file : ProjectFile) → Agrees (assign_all (resurrect file) w) file
unfolding assign_all assign initial_state
resurrected-Agrees w file = record {
  live = refl;
  same_url = refl;
  same_wheel_sha256 = refl;
  same_metadata_sha256 = refl;
  same_size = refl;
  same_upload_time = refl;
  same_requires_python = refl;
  same_yank = refl;
  same_yanked_reason = refl;
  no_mismatch = refl;
  no_sidecar_left = ground arith;
}

refresh_dead :
    (w : Wheel) (file : ProjectFile) (at : Timestamp)
    → w.deleted_at ≡ some at
    → refresh w file ≡ assign_all (resurrect file) w
unfolding refresh diff_common
refresh_dead w file at e = rw e refl

column_changes-Agrees :
    (w : Wheel) (file : ProjectFile) → Agrees w file → column_changes w file ≡ []
unfolding column_changes next_state
column_changes-Agrees w file g =
    let url : text_eq w.url file.url ≡ true = rw g.same_url (text_eq_refl file.url) in
    let sha : opt_eq text_eq w.wheel_sha256 file.wheel_sha256 ≡ true =
      rw g.same_wheel_sha256 (opt_eq_refl text_eq text_eq_refl file.wheel_sha256) in
    let meta : opt_eq text_eq w.metadata_sha256 file.metadata_sha256 ≡ true =
      rw g.same_metadata_sha256 (opt_eq_refl text_eq text_eq_refl file.metadata_sha256) in
    let size : opt_eq (λ a b. a == b) w.size file.size ≡ true =
      rw g.same_size (opt_eq_refl (λ a b. a == b) ==_refl file.size) in
    let time : opt_eq text_eq w.upload_time file.upload_time ≡ true =
      rw g.same_upload_time (opt_eq_refl text_eq text_eq_refl file.upload_time) in
    let python : opt_eq text_eq w.requires_python file.requires_python ≡ true =
      rw g.same_requires_python (opt_eq_refl text_eq text_eq_refl file.requires_python) in
    let yank : same_yanked w file ≡ true =
      rw (g.same_yank, g.same_yanked_reason)
        (ground (arith, opt_eq_refl text_eq text_eq_refl file.yanked_reason)) in
    rw (yank, meta, g.no_mismatch, url, sha, size, time, python)
      (ground (arith, g.no_sidecar_left, state_eq_iff w.state w.state))

-- After the changes are written, the row says what the page says: every column of the page, no
-- tombstone, no archived hash that the page contradicts, and no missing sidecar that the page has.
pub refresh-Agrees : (w : Wheel) (file : ProjectFile) → Agrees (refresh w file) file
refresh-Agrees w file = elim (Option-cases w.deleted_at) [
  | inl e ↦ rw (refresh_live w file e) (updated-Agrees w file e)
  | inr (at, e) ↦ rw (refresh_dead w file at e) (resurrected-Agrees w file)
]

refresh-none : (w : Wheel) (file : ProjectFile) → diff_common w file ≡ none → refresh w file ≡ w
unfolding refresh
refresh-none w file h = rw (refresh, h) refl

diff_none : (w : Wheel) (file : ProjectFile) → Agrees w file → diff_common w file ≡ none
diff_none w file g = rw (diff_live w file g.live) (rw (column_changes-Agrees w file g) refl)

-- There is nothing to write exactly when the row says what the page says.
pub diff_common-Agrees :
    (w : Wheel) (file : ProjectFile) → (diff_common w file ≡ none) ↔ Agrees w file
diff_common-Agrees w file = (
  λ h. subst (λ u. Agrees u file) (refresh-none w file h) (refresh-Agrees w file),
  λ g. diff_none w file g,
)
