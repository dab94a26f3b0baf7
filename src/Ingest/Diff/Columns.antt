-- ===== src/Ingest/Diff/Columns.antt =====
-- What the list of column changes makes of the row.
use reroll_sync.Base.{
  ℕ, ◌≡◌, subst, refl, sym, ap, Bool, true, false, not, List, [], ◌∷◌, ◌++◌, arith, Option, none,
  some, if◌then◌else◌, ◌==◌, String, opt_eq, text_eq, text_eq_iff, ==_iff,
}
use reroll_sync.Schema.{WheelState, state_eq}
use reroll_sync.Schema.Diagram.{state_eq_iff}
use reroll_sync.Db.{Wheel}
use reroll_sync.Ingest.Diff.{
  ProjectFile, Change, assign, assign_all, column_changes, next_state, is_mismatch, unless,
  same_yanked, set_url, set_wheel_sha256, set_metadata_sha256, set_size, set_upload_time,
  set_requires_python, set_yanked, set_yanked_reason, set_blob_sha256, set_conda_name, set_state,
}

assign_all-append :
    (xs ys : List Change) (w : Wheel) → assign_all (xs ++ ys) w ≡ assign_all ys (assign_all xs w)
unfolding assign_all
assign_all-append [] ys w = refl
assign_all-append (x ∷ xs) ys w = assign_all-append xs ys (assign x w)

opt_text_eq : (s t : Option String) → opt_eq text_eq s t ≡ true → s ≡ t
opt_text_eq none none h = refl
opt_text_eq (some s) (some t) h = ap some ((text_eq_iff s t).0 h)
opt_text_eq none (some t) h = ground arith
opt_text_eq (some s) none h = ground arith

opt_size_eq : (s t : Option ℕ) → opt_eq (λ a b. a == b) s t ≡ true → s ≡ t
opt_size_eq none none h = refl
opt_size_eq (some s) (some t) h = ap some ((==_iff s t).0 h)
opt_size_eq none (some t) h = ground arith
opt_size_eq (some s) none h = ground arith

-- a conditional assignment that is left out only where it changes nothing
step :
    (b : Bool) (c : Change) (w : Wheel)
    → (b ≡ true → assign c w ≡ w)
    → assign_all (unless b (c ∷ [])) w ≡ assign c w
unfolding assign_all
step true c w h = sym (h refl)
step false c w h = refl

both_step :
    (b : Bool) (c d : Change) (w : Wheel)
    → (b ≡ true → assign d (assign c w) ≡ w)
    → assign_all (unless b (c ∷ d ∷ [])) w ≡ assign d (assign c w)
unfolding assign_all
both_step true c d w h = sym (h refl)
both_step false c d w h = refl

text_step :
    (f : String → Change) (get : Wheel → String) (v : String) (w : Wheel)
    → (assign (f (get w)) w ≡ w)
    → assign_all (unless (text_eq (get w) v) (f v ∷ [])) w ≡ assign (f v) w
text_step f get v w h =
    step (text_eq (get w) v) (f v) w
      (λ e. subst (λ u. assign (f u) w ≡ w) ((text_eq_iff (get w) v).0 e) h)

opt_step :
    (f : Option String → Change) (get : Wheel → Option String) (v : Option String) (w : Wheel)
    → (assign (f (get w)) w ≡ w)
    → assign_all (unless (opt_eq text_eq (get w) v) (f v ∷ [])) w ≡ assign (f v) w
opt_step f get v w h =
    step (opt_eq text_eq (get w) v) (f v) w
      (λ e. subst (λ u. assign (f u) w ≡ w) (opt_text_eq (get w) v e) h)

size_step :
    (v : Option ℕ) (w : Wheel)
    → assign_all (unless (opt_eq (λ a b. a == b) w.size v) (set_size v ∷ [])) w
      ≡ assign (set_size v) w
unfolding assign
size_step v w =
    step (opt_eq (λ a b. a == b) w.size v) (set_size v) w
      (λ e. subst (λ u. record w { size = u } ≡ w) (opt_size_eq w.size v e) refl)

state_step :
    (s : WheelState) (w : Wheel)
    → assign_all (unless (state_eq s w.state) (set_state s ∷ [])) w ≡ assign (set_state s) w
unfolding assign
state_step s w =
    step (state_eq s w.state) (set_state s) w
      (λ e. subst (λ u. record w { state = u } ≡ w) (sym ((state_eq_iff s w.state).0 e)) refl)

same_yanked_eq :
    (w : Wheel) (file : ProjectFile)
    → same_yanked w file ≡ true
    → (w.yanked ≡ file.yanked) × (w.yanked_reason ≡ file.yanked_reason)
same_yanked_eq w file e = ground (arith, opt_text_eq w.yanked_reason file.yanked_reason)

yank_step :
    (w : Wheel) (file : ProjectFile)
    → assign_all
        (unless
          (same_yanked w file)
          (set_yanked file.yanked ∷ set_yanked_reason file.yanked_reason ∷ []))
        w
      ≡ record w { yanked = file.yanked; yanked_reason = file.yanked_reason }
unfolding assign
yank_step w file =
    both_step (same_yanked w file) (set_yanked file.yanked) (set_yanked_reason file.yanked_reason) w
      (λ e. let (a, b) = same_yanked_eq w file e in rw⁻¹ a (rw⁻¹ b refl))

mismatch_step :
    (w : Wheel) (file : ProjectFile) (b : Bool)
    → assign_all (unless (not b) (set_blob_sha256 none ∷ set_conda_name none ∷ [])) w ≡ record w {
      blob_sha256 = if b then none else w.blob_sha256;
      conda_name = if b then none else w.conda_name;
    }
unfolding assign_all assign
mismatch_step w file true = refl
mismatch_step w file false = refl

-- the row that the column changes leave
abbrev pub updated : Wheel → ProjectFile → Wheel
updated w file =
    let b = is_mismatch w.blob_sha256 file.metadata_sha256 in
    record w {
      yanked = file.yanked;
      yanked_reason = file.yanked_reason;
      metadata_sha256 = file.metadata_sha256;
      blob_sha256 = if b then none else w.blob_sha256;
      conda_name = if b then none else w.conda_name;
      url = file.url;
      wheel_sha256 = file.wheel_sha256;
      size = file.size;
      upload_time = file.upload_time;
      requires_python = file.requires_python;
      state = next_state w file;
    }

pub assign-column_changes :
    (w : Wheel) (file : ProjectFile) → assign_all (column_changes w file) w ≡ updated w file
unfolding column_changes assign
assign-column_changes w file =
    let b = is_mismatch w.blob_sha256 file.metadata_sha256 in
    let w1 = record w { yanked = file.yanked; yanked_reason = file.yanked_reason } in
    let w2 = record w1 { metadata_sha256 = file.metadata_sha256 } in
    let w3 = record w2 {
      blob_sha256 = if b then none else w.blob_sha256;
      conda_name = if b then none else w.conda_name;
    } in
    let w4 = record w3 { url = file.url } in
    let w5 = record w4 { wheel_sha256 = file.wheel_sha256 } in
    let w6 = record w5 { size = file.size } in
    let w7 = record w6 { upload_time = file.upload_time } in
    let w8 = record w7 { requires_python = file.requires_python } in
    simp (
      assign_all-append,
      yank_step w file,
      opt_step set_metadata_sha256 (λ u. u.metadata_sha256) file.metadata_sha256 w1 refl,
      mismatch_step w2 file b,
      text_step set_url (λ u. u.url) file.url w3 refl,
      opt_step set_wheel_sha256 (λ u. u.wheel_sha256) file.wheel_sha256 w4 refl,
      size_step file.size w5,
      opt_step set_upload_time (λ u. u.upload_time) file.upload_time w6 refl,
      opt_step set_requires_python (λ u. u.requires_python) file.requires_python w7 refl,
      state_step (next_state w file) w8,
    )
