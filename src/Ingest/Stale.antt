-- ===== src/Ingest/Stale.antt =====
-- ingest.py: `_stale_projects`. `projects` are the names and serials of the simple index; the
-- local map is the table `pypi_index`, whose names are a primary key.
use reroll_sync.Base.{
  ℕ, ◌≡◌, refl, Bool, true, false, List, [], ◌∷◌, arith, Option, none, some, All, if◌then◌else◌,
  ltb, String,
}
use reroll_sync.Sql.{find}
use reroll_sync.Db.{IndexRow}
use reroll_sync.Ingest.Write.{is_index}

-- absent locally, or behind
abbrev pub is_behind : ℕ → Option IndexRow → Bool
is_behind serial none = true
is_behind serial (some r) = ltb r.serial serial

unfoldable pub stale_projects : List (String × ℕ) → List IndexRow → List String
stale_projects [] rows = []
stale_projects ((name, serial) ∷ projects) rows =
    let rest = stale_projects projects rows in
    if is_behind serial (find (is_index name) rows) then name ∷ rest else rest

-- Once every project of the index is stored at the serial that the index gives, or a later one,
-- none is stale.
pub stale_projects_none :
    (projects : List (String × ℕ)) (rows : List IndexRow)
    → All (λ p. is_behind p.1 (find (is_index p.0) rows) ≡ false) projects
    → stale_projects projects rows ≡ []
unfolding stale_projects
stale_projects_none [] rows h = refl
stale_projects_none ((name, serial) ∷ projects) rows h =
    ground (arith, h.0, stale_projects_none projects rows h.1)
