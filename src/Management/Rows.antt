-- ===== src/Management/Rows.antt =====
-- The rows of the table of host/management_model.cpp, their states, and a row that takes another one.
use ps2_driveforge.Base.{
  ℕ, zero, suc, ◌+◌, ◌≤◌, ◌<◌, ◌≡◌, ◌≢◌, refl, ap, sym, ◌∙◌, List, [], ◌∷◌, ◌++◌, length, Bool,
  true, false, if◌then◌else◌, arith,
}
use ps2_driveforge.Hdl.Game.{GameResult}
use ps2_driveforge.Management.{
  EnrichmentState, not_applicable, pending, ready, error, ManagementRow, state_at, update_at,
  settle,
}

-- 1 for the state itself
abbrev pub is_pending : EnrichmentState → ℕ
is_pending not_applicable = 0
is_pending pending = 1
is_pending ready = 0
is_pending error = 0

abbrev pub is_ready : EnrichmentState → ℕ
is_ready not_applicable = 0
is_ready pending = 0
is_ready ready = 1
is_ready error = 0

abbrev pub is_failed : EnrichmentState → ℕ
is_failed not_applicable = 0
is_failed pending = 0
is_failed ready = 0
is_failed error = 1

-- the rows of a state
unfoldable pub rows_in : (EnrichmentState → ℕ) → List ManagementRow → ℕ
rows_in test [] = 0
rows_in test (row ∷ rows) = test row.hdl_state + rows_in test rows

pub rows_in-append :
    (test : EnrichmentState → ℕ) (rows : List ManagementRow) (row : ManagementRow)
    → rows_in test (rows ++ row ∷ []) ≡ rows_in test rows + test row.hdl_state
unfolding rows_in
rows_in-append test [] row = omega arith
rows_in-append test (r ∷ rows) row = omega (arith, rows_in-append test rows row)

pub state_at-append :
    (i : ℕ) (rows : List ManagementRow) (row : ManagementRow)
    → i < length rows
    → state_at i (rows ++ row ∷ []) ≡ state_at i rows
unfolding state_at
state_at-append i [] row h = absurd (omega arith)
state_at-append zero (r ∷ rows) row h = refl
state_at-append (suc i) (r ∷ rows) row h = state_at-append i rows row (omega arith)

pub state_at-last :
    (rows : List ManagementRow) (row : ManagementRow)
    → state_at (length rows) (rows ++ row ∷ []) ≡ row.hdl_state
unfolding state_at
state_at-last [] row = refl
state_at-last (r ∷ rows) row = state_at-last rows row

pub length-update_at :
    (i : ℕ) (f : ManagementRow → ManagementRow) (rows : List ManagementRow)
    → length (update_at i f rows) ≡ length rows
unfolding update_at
length-update_at i f [] = refl
length-update_at zero f (row ∷ rows) = refl
length-update_at (suc i) f (row ∷ rows) = ap suc (length-update_at i f rows)

abbrev pub settled : Bool → EnrichmentState
settled good = if good then ready else error

pub settled_apart : (good : Bool) → settled good ≢ not_applicable
settled_apart true e = cc e
settled_apart false e = cc e

pub settled_pending : pending ≢ not_applicable
settled_pending e = cc e

pub settle-state :
    (result : GameResult) (row : ManagementRow) → (settle result row).hdl_state ≡ settled result.ok
unfolding settle
settle-state result row = ground arith

-- a row that takes another state
pub rows_in-update_at :
    (test : EnrichmentState → ℕ) (result : GameResult) (i : ℕ) (rows : List ManagementRow)
    → i < length rows
    → rows_in test (update_at i (settle result) rows) + test (state_at i rows)
      ≡ rows_in test rows + test (settled result.ok)
unfolding rows_in update_at state_at
rows_in-update_at test result i [] h = absurd (omega arith)
rows_in-update_at test result zero (row ∷ rows) h = omega (arith, ap test (settle-state result row))
rows_in-update_at test result (suc i) (row ∷ rows) h =
    omega (arith, rows_in-update_at test result i rows (omega arith))

pub state_at-update_at :
    (result : GameResult) (i j : ℕ) (rows : List ManagementRow)
    → state_at j rows ≢ not_applicable
    → state_at j (update_at i (settle result) rows) ≢ not_applicable
unfolding state_at update_at
state_at-update_at result i j [] h = h
state_at-update_at result zero zero (row ∷ rows) h =
    λ e. absurd (settled_apart result.ok (sym (settle-state result row) ∙ e))
state_at-update_at result zero (suc j) (row ∷ rows) h = h
state_at-update_at result (suc i) zero (row ∷ rows) h = h
state_at-update_at result (suc i) (suc j) (row ∷ rows) h = state_at-update_at result i j rows h

pub one_state :
    (state : EnrichmentState)
    → state ≢ not_applicable
    → is_pending state + is_ready state + is_failed state ≡ 1
one_state not_applicable h = absurd (h refl)
one_state pending h = refl
one_state ready h = refl
one_state error h = refl

pub state-le :
    (test : EnrichmentState → ℕ) (i : ℕ) (rows : List ManagementRow)
    → i < length rows
    → test (state_at i rows) ≤ rows_in test rows
unfolding rows_in state_at
state-le test i [] h = absurd (omega arith)
state-le test zero (row ∷ rows) h = omega arith
state-le test (suc i) (row ∷ rows) h = omega (arith, state-le test i rows (omega arith))
