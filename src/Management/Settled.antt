-- ===== src/Management/Settled.antt =====
-- No game of the table of host/management_model.cpp stays pending once each has a result.
use ps2_driveforge.Base.{
  ℕ, suc, ◌≡◌, ◌≢◌, inl, inr, refl, ap, ap₂, sym, ◌∙◌, subst, List, [], ◌∷◌, length, true, false,
  not, ◌&&◌, none, some, All, arith, Option-cases, Bool-cases,
}
use ps2_driveforge.Hdl.Game.{GameResult}
use ps2_driveforge.Catalog.{PartitionCatalogEntry, PartitionCatalog}
use ps2_driveforge.Management.{
  not_applicable, pending, ManagementRow, ManagementModel, empty_model, find_row, emplace,
  is_hdl_kind, make_row, add_row, add_rows, make_model, state_at, update_row, apply_hdl_result,
  apply_results,
}
use ps2_driveforge.Management.Rows.{is_pending, rows_in}
use ps2_driveforge.Management.Counts.{apply_results-IsConsistent}
use ps2_driveforge.Management.Starts.{
  hdl_starts, IsDistinct, has_result, lba_at, IsIndexed, appended, updated, lba_at-update_at,
  find_row-front, find_row-behind, same_index, not_pending, unanswered, known,
}

module _ (P : ℕ → Type 0) where
  add_hdl-IsIndexed :
      (m : ManagementModel) (p : PartitionCatalogEntry)
      → IsIndexed P m
      → not p.is_sub && is_hdl_kind p.kind ≡ true
      → find_row p.start_lba m.hdl_rows_by_lba ≡ none
      → P p.start_lba
      → IsIndexed P (add_row m p)
  unfolding add_row emplace
  add_hdl-IsIndexed m p indexed game free holds =
      rw (game, add_row, free, emplace)
        λ i h. elim (appended i m.rows (make_row p pending) h) [
          | inl (before, same) ↦
              let (found, holds_before) = indexed i before in
              (
                ap (λ l. find_row l ((p.start_lba, length m.rows) ∷ m.hdl_rows_by_lba)) same
                    ∙ find_row-behind (lba_at i m.rows) p.start_lba (length m.rows)
                        m.hdl_rows_by_lba
                        (known (lba_at i m.rows) p.start_lba i m.hdl_rows_by_lba found free)
                    ∙ found,
                subst P (sym same) holds_before,
              )
          | inr (last, state, start) ↦ (
            ap (λ l. find_row l ((p.start_lba, length m.rows) ∷ m.hdl_rows_by_lba)) start
                ∙ find_row-front p.start_lba (length m.rows) m.hdl_rows_by_lba
                ∙ ap some (sym last),
            subst P (sym start) holds,
          )
        ]

  add_other-IsIndexed :
      (m : ManagementModel) (p : PartitionCatalogEntry)
      → IsIndexed P m
      → not p.is_sub && is_hdl_kind p.kind ≡ false
      → IsIndexed P (add_row m p)
  unfolding add_row
  add_other-IsIndexed m p indexed other =
      rw (other, add_row)
        λ i h. elim (appended i m.rows (make_row p not_applicable) h) [
          | inl (before, same) ↦
              subst (λ l. (find_row l m.hdl_rows_by_lba ≡ some i) × P l) (sym same)
                (indexed i before)
          | inr (last, state, start) ↦ absurd (cc state)
        ]

  -- the starts of the games still to be added are new to the map
  abbrev IsNew : ManagementModel → List ℕ → Type 0
  IsNew m = All (λ (lba : ℕ). find_row lba m.hdl_rows_by_lba ≡ none)

  still-IsNew :
      (m : ManagementModel) (p : PartitionCatalogEntry) (starts : List ℕ)
      → find_row p.start_lba m.hdl_rows_by_lba ≡ none
      → not p.is_sub && is_hdl_kind p.kind ≡ true
      → All (λ (b : ℕ). b ≢ p.start_lba) starts
      → IsNew m starts
      → IsNew (add_row m p) starts
  unfolding add_row emplace
  still-IsNew m p [] free game apart new = tt
  still-IsNew m p (lba ∷ starts) free game apart new = (
    rw (game, add_row, free, emplace)
        (find_row-behind lba p.start_lba (length m.rows) m.hdl_rows_by_lba apart.0 ∙ new.0),
    still-IsNew m p starts free game apart.1 new.1,
  )

  same_map :
      (m : ManagementModel) (p : PartitionCatalogEntry) (starts : List ℕ)
      → not p.is_sub && is_hdl_kind p.kind ≡ false
      → IsNew m starts
      → IsNew (add_row m p) starts
  unfolding add_row
  same_map m p starts other = rw (other, add_row) λ new. new

  add_rows-IsIndexed :
      (partitions : List PartitionCatalogEntry) (m : ManagementModel)
      → IsIndexed P m
      → IsNew m (hdl_starts partitions)
      → IsDistinct (hdl_starts partitions)
      → All P (hdl_starts partitions)
      → IsIndexed P (add_rows m partitions)
  unfolding add_rows hdl_starts
  add_rows-IsIndexed [] m indexed = λ new apart holds. indexed
  add_rows-IsIndexed (p ∷ rest) m indexed = elim (Bool-cases (not p.is_sub && is_hdl_kind p.kind)) [
    | inl game ↦
        rw (game, hdl_starts)
          λ new apart holds.
            add_rows-IsIndexed rest (add_row m p) (add_hdl-IsIndexed m p indexed game new.0 holds.0)
              (still-IsNew m p (hdl_starts rest) new.0 game apart.0 new.1) apart.1 holds.1
    | inr other ↦
        rw (other, hdl_starts)
          λ new apart holds.
            add_rows-IsIndexed rest (add_row m p) (add_other-IsIndexed m p indexed other)
              (same_map m p (hdl_starts rest) other new) apart holds
  ]

  -- a row is pending only where it was, and where no result was for its start
  apply-pending :
      (m : ManagementModel) (result : GameResult) (i : ℕ)
      → IsIndexed P m
      → state_at i (apply_hdl_result m result).1.rows ≡ pending
      → (state_at i m.rows ≡ pending) × (result.game.start_lba ≢ lba_at i m.rows)
  unfolding apply_hdl_result update_row
  apply-pending m result i indexed =
      elim (Option-cases (find_row result.game.start_lba m.hdl_rows_by_lba)) [
        | inl unknown ↦
            rw (unknown, apply_hdl_result)
              λ h. (
                h,
                λ e.
                    known (lba_at i m.rows) result.game.start_lba i m.hdl_rows_by_lba
                      (indexed i h).0 unknown (sym e),
              )
        | inr (j, found) ↦
            rw (found, apply_hdl_result)
              λ h.
                let (before, other) = updated result i j m.rows h in
                (
                  before,
                  λ e. other (
                      same_index (
                        sym (indexed i before).0
                        ∙ ap (λ l. find_row l m.hdl_rows_by_lba) (sym e)
                        ∙ found)),
                )
      ]

  apply-lba_at :
      (m : ManagementModel) (result : GameResult) (i : ℕ)
      → lba_at i (apply_hdl_result m result).1.rows ≡ lba_at i m.rows
  unfolding apply_hdl_result update_row
  apply-lba_at m result i = elim (Option-cases (find_row result.game.start_lba m.hdl_rows_by_lba)) [
    | inl unknown ↦ rw (unknown, apply_hdl_result) refl
    | inr (j, found) ↦ rw (found, apply_hdl_result) (lba_at-update_at result i j m.rows)
  ]

  apply-map :
      (m : ManagementModel) (result : GameResult)
      → (apply_hdl_result m result).1.hdl_rows_by_lba ≡ m.hdl_rows_by_lba
  unfolding apply_hdl_result update_row
  apply-map m result = elim (Option-cases (find_row result.game.start_lba m.hdl_rows_by_lba)) [
    | inl unknown ↦ rw (unknown, apply_hdl_result) refl
    | inr (j, found) ↦ rw (found, apply_hdl_result) refl
  ]

  apply-IsIndexed :
      (m : ManagementModel) (result : GameResult)
      → IsIndexed P m
      → IsIndexed P (apply_hdl_result m result).1
  apply-IsIndexed m result indexed i h =
      let (before, other) = apply-pending m result i indexed h in
      let (found, holds) = indexed i before in
      (
        ap₂ find_row (apply-lba_at m result i) (apply-map m result) ∙ found,
        subst P (sym (apply-lba_at m result i)) holds,
      )

  apply_results-pending :
      (results : List GameResult) (m : ManagementModel) (i : ℕ)
      → IsIndexed P m
      → state_at i (apply_results m results).rows ≡ pending
      → (state_at i m.rows ≡ pending)
        × P (lba_at i m.rows)
        × (has_result results (lba_at i m.rows) ≡ false)
  unfolding apply_results
  apply_results-pending [] m i indexed h = (h, (indexed i h).1, refl)
  apply_results-pending (result ∷ rest) m i indexed h =
      let next = (apply_hdl_result m result).1 in
      let (state, holds, later) =
        apply_results-pending rest next i (apply-IsIndexed m result indexed) h in
      let start = apply-lba_at m result i in
      let (before, other) = apply-pending m result i indexed state in
      (
        before,
        subst P start holds,
        unanswered result rest (lba_at i m.rows) other
            (subst (λ lba. has_result rest lba ≡ false) start later),
      )

none_pending :
    (rows : List ManagementRow)
    → ((i : ℕ) → state_at i rows ≢ pending)
    → rows_in is_pending rows ≡ 0
unfolding rows_in state_at
none_pending [] h = refl
none_pending (row ∷ rows) h =
    omega (arith, not_pending row.hdl_state (h 0), none_pending rows (λ i. h (suc i)))

all_settled :
    (rows : List ManagementRow)
    → ((i : ℕ) → state_at i rows ≢ pending)
    → All (λ (row : ManagementRow). row.hdl_state ≢ pending) rows
unfolding state_at
all_settled [] h = tt
all_settled (row ∷ rows) h = (h 0, all_settled rows (λ i. h (suc i)))

no_starts : (starts : List ℕ) → All (λ (lba : ℕ). find_row lba [] ≡ none) starts
unfolding find_row
no_starts [] = tt
no_starts (lba ∷ starts) = (refl, no_starts starts)

nothing_pending : (P : ℕ → Type 0) → IsIndexed P empty_model
unfolding state_at
nothing_pending P i h = absurd (cc h)

-- Once each game of a catalog has a result, in whatever order, with others between them and some twice,
-- no row of the table is pending, and the counter of pending games is 0; where the games have starts of
-- their own.
pub apply_results-settled :
    (catalog : PartitionCatalog) (results : List GameResult)
    → IsDistinct (hdl_starts catalog.entries)
    → All (λ (lba : ℕ). has_result results lba ≡ true) (hdl_starts catalog.entries)
    → All
        (λ (row : ManagementRow). row.hdl_state ≢ pending)
        (apply_results (make_model catalog) results).rows
      × ((apply_results (make_model catalog) results).progress.pending_hdl ≡ 0)
unfolding make_model
apply_results-settled catalog results apart answered =
    let P = λ (lba : ℕ). has_result results lba ≡ true in
    let starts = hdl_starts catalog.entries in
    let rows = (apply_results (make_model catalog) results).rows in
    let indexed =
      add_rows-IsIndexed P catalog.entries empty_model (nothing_pending P) (no_starts starts) apart
        answered in
    let none_left : (i : ℕ) → state_at i rows ≢ pending = λ i h.
      let (state, answer, missing) =
        apply_results-pending P results (make_model catalog) i indexed h in
      cc (sym answer ∙ missing) in
    (
      all_settled rows none_left,
      (apply_results-IsConsistent catalog results).pending_rows ∙ none_pending rows none_left,
    )
