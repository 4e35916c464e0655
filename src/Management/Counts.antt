-- ===== src/Management/Counts.antt =====
-- The progress of the table of host/management_model.cpp counts its rows, whatever results it is given.
use ps2_driveforge.Base.{
  ℕ, ◌+◌, ◌≤◌, ◌<◌, ◌≡◌, ◌≢◌, refl, sym, ◌∙◌, subst, List, [], ◌∷◌, ◌++◌, length, length-append,
  true, false, not, ◌&&◌, ◌==◌, Option, some, All, arith, Option-cases, Bool-cases, inl, inr,
}
use ps2_driveforge.Hdl.Game.{GameResult}
use ps2_driveforge.Catalog.{PartitionCatalogEntry, PartitionCatalog}
use ps2_driveforge.Management.{
  EnrichmentState, not_applicable, pending, ready, error, ManagementRow, ManagementProgress,
  ManagementModel, empty_model, find_row, emplace, is_hdl_kind, make_row, add_row, add_rows,
  make_model, state_at, update_at, uncount, count_result, settle, update_row, apply_hdl_result,
  apply_results,
}
use ps2_driveforge.Management.Rows.{
  is_pending, is_ready, is_failed, rows_in, settled, rows_in-append, state_at-append, state_at-last,
  length-update_at, settled_apart, settled_pending, rows_in-update_at, state_at-update_at,
  one_state, state-le,
}

-- a row of the map is a row of a game
abbrev IsPlace : List ManagementRow → ℕ × ℕ → Type 0
IsPlace rows (lba, i) = (i < length rows) × (state_at i rows ≢ not_applicable)

pub record IsConsistent (m : ManagementModel) : Type 0 where
  pub pending_rows : m.progress.pending_hdl ≡ rows_in is_pending m.rows
  pub ready_rows : m.progress.ready_hdl ≡ rows_in is_ready m.rows
  pub failed_rows : m.progress.failed_hdl ≡ rows_in is_failed m.rows
  pub total :
      m.progress.total_hdl ≡ m.progress.pending_hdl + m.progress.ready_hdl + m.progress.failed_hdl
  pub places : All (IsPlace m.rows) m.hdl_rows_by_lba

IsPlace-append :
    (rows : List ManagementRow) (row : ManagementRow) (places : List (ℕ × ℕ))
    → All (IsPlace rows) places
    → All (IsPlace (rows ++ row ∷ [])) places
IsPlace-append rows row [] h = tt
IsPlace-append rows row ((lba, i) ∷ places) h = (
  (
    omega (arith, length-append rows (row ∷ []), h.0.0),
    λ e. h.0.1 (sym (state_at-append i rows row h.0.0) ∙ e),
  ),
  IsPlace-append rows row places h.1,
)

IsPlace-update_at :
    (result : GameResult) (i : ℕ) (rows : List ManagementRow) (places : List (ℕ × ℕ))
    → All (IsPlace rows) places
    → All (IsPlace (update_at i (settle result) rows)) places
IsPlace-update_at result i rows [] h = tt
IsPlace-update_at result i rows ((lba, j) ∷ places) h = (
  (
    omega (arith, length-update_at i (settle result) rows, h.0.0),
    state_at-update_at result i j rows h.0.1,
  ),
  IsPlace-update_at result i rows places h.1,
)

IsPlace-emplace :
    (rows : List ManagementRow) (lba i : ℕ) (places : List (ℕ × ℕ))
    → IsPlace rows (lba, i)
    → All (IsPlace rows) places
    → All (IsPlace rows) (emplace lba i places)
unfolding emplace
IsPlace-emplace rows lba i places new h = elim (Option-cases (find_row lba places)) [
  | inl free ↦ rw (free, emplace) (new, h)
  | inr (j, taken) ↦ rw (taken, emplace) h
]

some_same : {i j : ℕ} → ◌≡◌ {A = Option ℕ} (some i) (some j) → i ≡ j
some_same e = cc e

place_of :
    (rows : List ManagementRow) (lba i : ℕ) (places : List (ℕ × ℕ))
    → All (IsPlace rows) places
    → find_row lba places ≡ some i
    → (i < length rows) × (state_at i rows ≢ not_applicable)
unfolding find_row
place_of rows lba i [] h = λ found. cc found
place_of rows lba i ((l, j) ∷ places) h = elim (Bool-cases (l == lba)) [
  | inl here ↦
      rw (here, find_row)
        λ found.
          subst (λ k. (k < length rows) × (state_at k rows ≢ not_applicable)) (some_same found) h.0
  | inr other ↦ rw (other, find_row) λ found. place_of rows lba i places h.1 found
]

-- the counters after a row has moved from one state to another
abbrev IsCount :
    ManagementProgress → ManagementProgress → EnrichmentState → EnrichmentState → Type 0
IsCount before after old new =
    (after.pending_hdl + is_pending old ≡ before.pending_hdl + is_pending new)
    × (after.ready_hdl + is_ready old ≡ before.ready_hdl + is_ready new)
    × (after.failed_hdl + is_failed old ≡ before.failed_hdl + is_failed new)
    × (after.total_hdl ≡ before.total_hdl)

moved :
    (result : GameResult) (p : ManagementProgress) (old : EnrichmentState)
    → old ≢ not_applicable
    → is_pending old ≤ p.pending_hdl
    → is_ready old ≤ p.ready_hdl
    → is_failed old ≤ p.failed_hdl
    → IsCount p (count_result result (uncount old p)) old (settled result.ok)
unfolding count_result uncount
moved result p not_applicable h a b c = absurd (h refl)
moved result p pending h a b c = ground arith
moved result p ready h a b c = ground arith
moved result p error h a b c = ground arith

update_row-IsConsistent :
    (m : ManagementModel) (result : GameResult) (i : ℕ)
    → i < length m.rows
    → state_at i m.rows ≢ not_applicable
    → IsConsistent m
    → IsConsistent (update_row m result i)
unfolding update_row
update_row-IsConsistent m result i inside game c =
    let old = state_at i m.rows in
    let pending_rows = c.pending_rows in
    let ready_rows = c.ready_rows in
    let failed_rows = c.failed_rows in
    let total = c.total in
    let (a, b, f, t) =
      moved result m.progress old game (omega (arith, state-le is_pending i m.rows inside))
        (omega (arith, state-le is_ready i m.rows inside))
        (omega (arith, state-le is_failed i m.rows inside)) in
    record {
      pending_rows = omega (arith, rows_in-update_at is_pending result i m.rows inside);
      ready_rows = omega (arith, rows_in-update_at is_ready result i m.rows inside);
      failed_rows = omega (arith, rows_in-update_at is_failed result i m.rows inside);
      total =
          omega
            (arith, one_state old game, one_state (settled result.ok) (settled_apart result.ok));
      places = IsPlace-update_at result i m.rows m.hdl_rows_by_lba c.places;
    }

add_hdl-IsConsistent :
    (m : ManagementModel) (partition : PartitionCatalogEntry)
    → IsConsistent m
    → not partition.is_sub && is_hdl_kind partition.kind ≡ true
    → IsConsistent (add_row m partition)
unfolding add_row
add_hdl-IsConsistent m partition c game =
    let row = make_row partition pending in
    let pending_rows = c.pending_rows in
    let ready_rows = c.ready_rows in
    let failed_rows = c.failed_rows in
    let total = c.total in
    rw (game, add_row)
      (record {
        pending_rows = omega (arith, rows_in-append is_pending m.rows row);
        ready_rows = omega (arith, rows_in-append is_ready m.rows row);
        failed_rows = omega (arith, rows_in-append is_failed m.rows row);
        total = omega arith;
        places =
            IsPlace-emplace (m.rows ++ row ∷ []) partition.start_lba (length m.rows)
              m.hdl_rows_by_lba
              (
                omega (arith, length-append m.rows (row ∷ [])),
                λ e. settled_pending (sym (state_at-last m.rows row) ∙ e),
              )
              (IsPlace-append m.rows row m.hdl_rows_by_lba c.places);
      })

add_other-IsConsistent :
    (m : ManagementModel) (partition : PartitionCatalogEntry)
    → IsConsistent m
    → not partition.is_sub && is_hdl_kind partition.kind ≡ false
    → IsConsistent (add_row m partition)
unfolding add_row
add_other-IsConsistent m partition c other =
    let row = make_row partition not_applicable in
    let pending_rows = c.pending_rows in
    let ready_rows = c.ready_rows in
    let failed_rows = c.failed_rows in
    rw (other, add_row)
      (record {
        pending_rows = omega (arith, rows_in-append is_pending m.rows row);
        ready_rows = omega (arith, rows_in-append is_ready m.rows row);
        failed_rows = omega (arith, rows_in-append is_failed m.rows row);
        total = c.total;
        places = IsPlace-append m.rows row m.hdl_rows_by_lba c.places;
      })

pub add_row-IsConsistent :
    (m : ManagementModel) (partition : PartitionCatalogEntry)
    → IsConsistent m
    → IsConsistent (add_row m partition)
add_row-IsConsistent m partition c =
    elim (Bool-cases (not partition.is_sub && is_hdl_kind partition.kind)) [
      | inl game ↦ add_hdl-IsConsistent m partition c game
      | inr other ↦ add_other-IsConsistent m partition c other
    ]

add_rows-IsConsistent :
    (m : ManagementModel) (partitions : List PartitionCatalogEntry)
    → IsConsistent m
    → IsConsistent (add_rows m partitions)
unfolding add_rows
add_rows-IsConsistent m [] c = c
add_rows-IsConsistent m (partition ∷ rest) c =
    add_rows-IsConsistent (add_row m partition) rest (add_row-IsConsistent m partition c)

pub make_model-IsConsistent : (catalog : PartitionCatalog) → IsConsistent (make_model catalog)
unfolding make_model rows_in
make_model-IsConsistent catalog = add_rows-IsConsistent empty_model catalog.entries (record {
  pending_rows = refl;
  ready_rows = refl;
  failed_rows = refl;
  total = refl;
  places = tt;
})

pub apply-IsConsistent :
    (m : ManagementModel) (result : GameResult)
    → IsConsistent m
    → IsConsistent (apply_hdl_result m result).1
unfolding apply_hdl_result
apply-IsConsistent m result c =
    elim (Option-cases (find_row result.game.start_lba m.hdl_rows_by_lba)) [
      | inl unknown ↦ rw (unknown, apply_hdl_result) c
      | inr (i, found) ↦
          let (inside, game) =
            place_of m.rows result.game.start_lba i m.hdl_rows_by_lba c.places found in
          rw (found, apply_hdl_result) (update_row-IsConsistent m result i inside game c)
    ]

apply_results_lem :
    (m : ManagementModel) (results : List GameResult)
    → IsConsistent m
    → IsConsistent (apply_results m results)
unfolding apply_results
apply_results_lem m [] c = c
apply_results_lem m (result ∷ rest) c =
    apply_results_lem (apply_hdl_result m result).1 rest (apply-IsConsistent m result c)

-- Whatever results the table of a catalog is given, of games that it holds or not, once or again, in
-- any order: the counters of pending, ready and failed games are the numbers of rows in these states,
-- the total is their sum, and each entry of the map names a row of a game.
pub apply_results-IsConsistent :
    (catalog : PartitionCatalog) (results : List GameResult)
    → IsConsistent (apply_results (make_model catalog) results)
apply_results-IsConsistent catalog results =
    apply_results_lem (make_model catalog) results (make_model-IsConsistent catalog)
