-- ===== src/Session/Steps.antt =====
-- The operations of a session as steps, in any order.
use ps2_driveforge.Base.{ℕ, List}
use ps2_driveforge.Session.State.{Session, clear_caches, reset_stats, scan_session}
use ps2_driveforge.Session.Browse.{browse}
use ps2_driveforge.Session.Files.{stat, read_file}

module _ (begin : List (List ℕ) → ℕ) where
  -- an operation of a session, and a row of them
  pub data Step : Session → Session → Type 0 where
    scanned : (s : Session) (max_headers : ℕ) → Step s (scan_session max_headers s)
    browsed : (s : Session) (id path : List ℕ) → Step s (browse begin s id path).1
    statted : (s : Session) (id path : List ℕ) → Step s (stat begin s id path).1
    read :
        (s : Session) (id path : List ℕ) (offset size : ℕ)
        → Step s (read_file begin s id path offset size).1
    cleared : (s : Session) → Step s (clear_caches s)
    counters_reset : (s : Session) → Step s (reset_stats s)

  pub data Run (s : Session) : Session → Type 0 where
    here : Run s s
    next : {t u : Session} → Run s t → Step t u → Run s u
