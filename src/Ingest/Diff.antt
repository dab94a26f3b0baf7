-- ===== src/Ingest/Diff.antt =====
-- ingest.py: `_plan_new_wheel` and `_diff_common`, with `ProjectFile` of pypi_client.py. The
-- dictionary `changes` is the list of its assignments, one for each key, in the order in which they
-- are made; `assign` is one column of the SET clause.
pub mod Columns
pub mod Converges
use reroll_sync.Base.{
  ℕ, zero, suc, ◌+◌, ◌*◌, ◌≤◌, ◌<◌, ◌≡◌, ◌≢◌, ◌↔◌, ◌∙◌, refl, sym, ap, Bool, true, false, not, ◌&&◌,
  ◌||◌, List, [], ◌∷◌, ◌++◌, arith, length, max, min, sum_by, sum_by-append, length-append, Option,
  none, some, append_assoc, append-nil, ◌⊎◌, inl, inr, get_elem?, All, All-append, Option-cases,
  List-cases, Bool-cases, if◌then◌else◌, ltb, leb, ◌==◌, String, opt_eq, is_some, text_eq, any,
}
use reroll_sync.Schema.{WheelState, need_metadata, no_metadata, need_convert, state_eq}
use reroll_sync.Db.{Wheel, Timestamp}

pub record ProjectFile : Type 0 where
  pub filename : String
  pub url : String
  pub wheel_sha256 : Option String
  pub metadata_sha256 : Option String
  pub has_metadata : Bool
  pub size : Option ℕ
  pub upload_time : Option String
  pub requires_python : Option String
  pub yanked : Bool
  pub yanked_reason : Option String

pub record NewWheel : Type 0 where
  pub filename : String
  pub url : String
  pub wheel_sha256 : Option String
  pub metadata_sha256 : Option String
  pub size : Option ℕ
  pub upload_time : Option String
  pub requires_python : Option String
  pub yanked : Bool
  pub yanked_reason : Option String
  pub state : WheelState
  pub blob_sha256 : Option String
  pub unlinked_blob_filename : Option String

-- `WheelState.NEED_METADATA if file.has_metadata else WheelState.NO_METADATA`
unfoldable pub initial_state : ProjectFile → WheelState
initial_state file = if file.has_metadata then need_metadata else no_metadata

abbrev pub first_state : Option String → ProjectFile → WheelState
first_state (some sha256) file = need_convert
first_state none file = if file.has_metadata then need_metadata else no_metadata

abbrev pub unlinked_filename : Option String → ProjectFile → Option String
unlinked_filename (some sha256) file = some file.filename
unlinked_filename none file = none

-- `_plan_new_wheel`
unfoldable pub plan_new_wheel : ProjectFile → Option String → NewWheel
plan_new_wheel file unlinked_sha256 = record {
  filename = file.filename;
  url = file.url;
  wheel_sha256 = file.wheel_sha256;
  metadata_sha256 = file.metadata_sha256;
  size = file.size;
  upload_time = file.upload_time;
  requires_python = file.requires_python;
  yanked = file.yanked;
  yanked_reason = file.yanked_reason;
  state = first_state unlinked_sha256 file;
  blob_sha256 = unlinked_sha256;
  unlinked_blob_filename = unlinked_filename unlinked_sha256 file;
}

-- One entry of `changes`.
pub data Change : Type 0 where
  set_deleted_at : Option Timestamp → Change
  set_state : WheelState → Change
  set_url : String → Change
  set_wheel_sha256 : Option String → Change
  set_metadata_sha256 : Option String → Change
  set_size : Option ℕ → Change
  set_upload_time : Option String → Change
  set_requires_python : Option String → Change
  set_yanked : Bool → Change
  set_yanked_reason : Option String → Change
  set_blob_sha256 : Option String → Change
  set_conda_name : Option String → Change

unfoldable pub assign : Change → Wheel → Wheel
assign (set_deleted_at v) w = record w { deleted_at = v }
assign (set_state v) w = record w { state = v }
assign (set_url v) w = record w { url = v }
assign (set_wheel_sha256 v) w = record w { wheel_sha256 = v }
assign (set_metadata_sha256 v) w = record w { metadata_sha256 = v }
assign (set_size v) w = record w { size = v }
assign (set_upload_time v) w = record w { upload_time = v }
assign (set_requires_python v) w = record w { requires_python = v }
assign (set_yanked v) w = record w { yanked = v }
assign (set_yanked_reason v) w = record w { yanked_reason = v }
assign (set_blob_sha256 v) w = record w { blob_sha256 = v }
assign (set_conda_name v) w = record w { conda_name = v }

unfoldable pub assign_all : List Change → Wheel → Wheel
assign_all [] w = w
assign_all (c ∷ cs) w = assign_all cs (assign c w)

pub record ChangedWheel : Type 0 where
  pub wheel_id : ℕ
  pub changes : List Change
  pub delete_no_sidecar_skip : Bool
  pub delete_repodata : Bool

abbrev pub eq_text? : Option String → Option String → Bool
eq_text? = opt_eq text_eq

abbrev pub eq_size? : Option ℕ → Option ℕ → Bool
eq_size? = opt_eq (λ a b. a == b)

abbrev pub eq_bool : Bool → Bool → Bool
eq_bool true b = b
eq_bool false b = not b

abbrev pub same_yanked : Wheel → ProjectFile → Bool
same_yanked local file =
    eq_bool local.yanked file.yanked && eq_text? local.yanked_reason file.yanked_reason

-- whether both hashes are known and differ
abbrev pub is_mismatch : Option String → Option String → Bool
is_mismatch (some blob) (some published) = not (text_eq published blob)
is_mismatch _ _ = false

abbrev pub unless : Bool → List Change → List Change
unless true cs = []
unless false cs = cs

-- the first branch of `_diff_common`: a tombstoned row is back
abbrev pub resurrect : ProjectFile → List Change
resurrect file =
    set_deleted_at none
    ∷ set_state (initial_state file)
    ∷ set_url file.url
    ∷ set_wheel_sha256 file.wheel_sha256
    ∷ set_metadata_sha256 file.metadata_sha256
    ∷ set_size file.size
    ∷ set_upload_time file.upload_time
    ∷ set_requires_python file.requires_python
    ∷ set_yanked file.yanked
    ∷ set_yanked_reason file.yanked_reason
    ∷ set_blob_sha256 none
    ∷ []

-- `new_state` at the end of the function
unfoldable pub next_state : Wheel → ProjectFile → WheelState
next_state local file =
    if is_mismatch local.blob_sha256 file.metadata_sha256
    then need_metadata
    else (if state_eq local.state no_metadata && file.has_metadata
        then need_metadata
        else local.state)

-- `changes` at the end of the function
unfoldable pub column_changes : Wheel → ProjectFile → List Change
unfolding next_state
column_changes local file =
    unless (same_yanked local file)
      (set_yanked file.yanked ∷ set_yanked_reason file.yanked_reason ∷ [])
    ++ (unless (eq_text? local.metadata_sha256 file.metadata_sha256)
          (set_metadata_sha256 file.metadata_sha256 ∷ [])
        ++ (unless (not (is_mismatch local.blob_sha256 file.metadata_sha256))
              (set_blob_sha256 none ∷ set_conda_name none ∷ [])
            ++ (unless (text_eq local.url file.url) (set_url file.url ∷ [])
                ++ (unless (eq_text? local.wheel_sha256 file.wheel_sha256)
                      (set_wheel_sha256 file.wheel_sha256 ∷ [])
                    ++ (unless (eq_size? local.size file.size) (set_size file.size ∷ [])
                        ++ (unless (eq_text? local.upload_time file.upload_time)
                              (set_upload_time file.upload_time ∷ [])
                            ++ (unless (eq_text? local.requires_python file.requires_python)
                                  (set_requires_python file.requires_python ∷ [])
                                ++ unless (state_eq (next_state local file) local.state)
                                    (set_state (next_state local file) ∷ []))))))))

abbrev pub changed : Wheel → ProjectFile → List Change → Option ChangedWheel
changed local file [] = none
changed local file (c ∷ cs) = some (record {
  wheel_id = local.id;
  changes = c ∷ cs;
  delete_no_sidecar_skip = state_eq local.state no_metadata && file.has_metadata;
  delete_repodata = is_mismatch local.blob_sha256 file.metadata_sha256;
})

-- `_diff_common`, on the row that `local` was read from; `diff_by` has its two branches
abbrev pub diff_by : Option Timestamp → Wheel → ProjectFile → Option ChangedWheel
diff_by none local file = changed local file (column_changes local file)
diff_by (some at) local file = some (record {
  wheel_id = local.id;
  changes = resurrect file;
  delete_no_sidecar_skip = false;
  delete_repodata = false;
})

unfoldable pub diff_common : Wheel → ProjectFile → Option ChangedWheel
diff_common local file = diff_by local.deleted_at local file
