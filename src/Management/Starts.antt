-- ===== src/Management/Starts.antt =====
-- The starts of the games of the table of host/management_model.cpp, and the map from them to the rows.
use ps2_driveforge.Base.{
  ℕ, zero, suc, ◌≡◌, ◌≢◌, ◌⊎◌, inl, inr, refl, ap, sym, ◌∙◌, List, [], ◌∷◌, ◌++◌, length, Bool,
  true, false, not, ◌&&◌, ◌||◌, ◌==◌, Option, none, some, if◌then◌else◌, All, arith,
}
use ps2_driveforge.Hdl.Game.{GameResult}
use ps2_driveforge.Catalog.{PartitionCatalogEntry}
use ps2_driveforge.Management.{
  EnrichmentState, not_applicable, pending, ready, error, ManagementRow, ManagementModel, find_row,
  is_hdl_kind, state_at, update_at, settle,
}
use ps2_driveforge.Management.Rows.{is_pending, settled, settle-state}

-- the starts of the games of a catalog
unfoldable pub hdl_starts : List PartitionCatalogEntry → List ℕ
hdl_starts [] = []
hdl_starts (p ∷ rest) =
    let starts = hdl_starts rest in
    if not p.is_sub && is_hdl_kind p.kind then p.start_lba ∷ starts else starts

abbrev pub IsDistinct : List ℕ → Type 0
IsDistinct [] = Unit
IsDistinct (a ∷ rest) = All (λ (b : ℕ). b ≢ a) rest × IsDistinct rest

-- one of the results is for this start
abbrev pub has_result : List GameResult → ℕ → Bool
has_result [] lba = false
has_result (result ∷ rest) lba = result.game.start_lba == lba || has_result rest lba

abbrev pub lba_at : ℕ → List ManagementRow → ℕ
lba_at i [] = 0
lba_at zero (row ∷ rows) = row.partition.start_lba
lba_at (suc i) (row ∷ rows) = lba_at i rows

pub appended :
    (i : ℕ) (rows : List ManagementRow) (row : ManagementRow)
    → state_at i (rows ++ row ∷ []) ≡ pending
    → ((state_at i rows ≡ pending) × (lba_at i (rows ++ row ∷ []) ≡ lba_at i rows))
      ⊎ ((i ≡ length rows)
          × (row.hdl_state ≡ pending)
          × (lba_at i (rows ++ row ∷ []) ≡ row.partition.start_lba))
unfolding state_at
appended zero [] row h = inr (refl, h, refl)
appended (suc i) [] row h = absurd (cc h)
appended zero (r ∷ rows) row h = inl (h, refl)
appended (suc i) (r ∷ rows) row h = elim (appended i rows row h) [
  | inl before ↦ inl before
  | inr (last, state, start) ↦ inr (ap suc last, state, start)
]

pub settled_pending : (good : Bool) → settled good ≢ pending
settled_pending true e = cc e
settled_pending false e = cc e

pub updated :
    (result : GameResult) (i j : ℕ) (rows : List ManagementRow)
    → state_at i (update_at j (settle result) rows) ≡ pending
    → (state_at i rows ≡ pending) × (i ≢ j)
unfolding state_at update_at
updated result i j [] h = absurd (cc h)
updated result zero zero (row ∷ rows) h =
    absurd (settled_pending result.ok (sym (settle-state result row) ∙ h))
updated result (suc i) zero (row ∷ rows) h = (h, λ e. absurd (omega (arith, e)))
updated result zero (suc j) (row ∷ rows) h = (h, λ e. absurd (omega (arith, e)))
updated result (suc i) (suc j) (row ∷ rows) h =
    let (before, other) = updated result i j rows h in (before, λ e. other (omega (arith, e)))

pub either :
    (good : Bool) (x y : ManagementRow) (p : PartitionCatalogEntry)
    → x.partition ≡ p
    → y.partition ≡ p
    → (if good then x else y).partition ≡ p
either true x y p h k = h
either false x y p h k = k

pub settle-partition :
    (result : GameResult) (row : ManagementRow) → (settle result row).partition ≡ row.partition
unfolding settle
settle-partition result row = either result.ok _ _ row.partition refl refl

pub lba_at-update_at :
    (result : GameResult) (i j : ℕ) (rows : List ManagementRow)
    → lba_at i (update_at j (settle result) rows) ≡ lba_at i rows
unfolding update_at
lba_at-update_at result i j [] = refl
lba_at-update_at result zero zero (row ∷ rows) = ap (λ p. p.start_lba) (settle-partition result row)
lba_at-update_at result (suc i) zero (row ∷ rows) = refl
lba_at-update_at result zero (suc j) (row ∷ rows) = refl
lba_at-update_at result (suc i) (suc j) (row ∷ rows) = lba_at-update_at result i j rows

-- the map leads to each row that is pending, and its start has a property
abbrev pub IsIndexed : (ℕ → Type 0) → ManagementModel → Type 0
IsIndexed P m =
    (i : ℕ)
    → state_at i m.rows ≡ pending
    → (find_row (lba_at i m.rows) m.hdl_rows_by_lba ≡ some i) × P (lba_at i m.rows)

pub find_row-front : (lba i : ℕ) (rows : List (ℕ × ℕ)) → find_row lba ((lba, i) ∷ rows) ≡ some i
unfolding find_row
find_row-front lba i rows = ground arith

pub find_row-behind :
    (lba start i : ℕ) (rows : List (ℕ × ℕ))
    → lba ≢ start
    → find_row lba ((start, i) ∷ rows) ≡ find_row lba rows
unfolding find_row
find_row-behind lba start i rows h = ground arith

pub same_index : {i j : ℕ} → ◌≡◌ {A = Option ℕ} (some i) (some j) → i ≡ j
same_index e = cc e

pub not_pending : (state : EnrichmentState) → state ≢ pending → is_pending state ≡ 0
not_pending not_applicable h = refl
not_pending pending h = absurd (h refl)
not_pending ready h = refl
not_pending error h = refl

pub unanswered :
    (result : GameResult) (rest : List GameResult) (lba : ℕ)
    → result.game.start_lba ≢ lba
    → has_result rest lba ≡ false
    → has_result (result ∷ rest) lba ≡ false
unanswered result rest lba h k = ground arith

-- a start that the map knows is not a new one
pub known :
    (lba start i : ℕ) (rows : List (ℕ × ℕ))
    → find_row lba rows ≡ some i
    → find_row start rows ≡ none
    → lba ≢ start
known lba start i rows found free e = absurd (cc (sym found ∙ ap (λ l. find_row l rows) e ∙ free))
