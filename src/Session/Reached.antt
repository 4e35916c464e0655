-- ===== src/Session/Reached.antt =====
-- The sessions that calls lead to from a scan: as long as no call names a partition with a unit separator,
-- the caches hold what the disk gives.
use ps2_driveforge.Base.{ℕ, refl, List}
use ps2_driveforge.Device.{Device}
use ps2_driveforge.Apa.Scan.{ScanResult, scan}
use ps2_driveforge.Session.State.{Session, clear_caches, reset_stats, scan_session}
use ps2_driveforge.Session.Browse.{browse}
use ps2_driveforge.Session.Files.{stat, read_file}
use ps2_driveforge.Session.Keys.{NoUnit}
use ps2_driveforge.Session.Coherent.{IsCoherent}
use ps2_driveforge.Session.Children.{HasNames}
use ps2_driveforge.Session.Exact.{browse-exact}
use ps2_driveforge.Session.ExactFiles.{stat-exact, read_file-exact}

module _ (begin : List (List ℕ) → ℕ) where
  -- a call between two scans
  pub data Call : Session → Session → Type 0 where
    browsed : (s : Session) (id path : List ℕ) → NoUnit id → Call s (browse begin s id path).1
    statted : (s : Session) (id path : List ℕ) → NoUnit id → Call s (stat begin s id path).1
    read :
        (s : Session) (id path : List ℕ) (offset size : ℕ)
        → NoUnit id
        → Call s (read_file begin s id path offset size).1
    cleared : (s : Session) → Call s (clear_caches s)
    counters_reset : (s : Session) → Call s (reset_stats s)

  pub data Calls (s : Session) : Session → Type 0 where
    here : Calls s s
    next : {t u : Session} → Calls s t → Call t u → Calls s u

-- A scan leaves caches with nothing in them, which is right for its result.
pub scan_session-IsCoherent :
    (max_headers : ℕ) (s : Session)
    → IsCoherent s.device (scan s.device max_headers) (scan_session max_headers s)
unfolding scan_session clear_caches
scan_session-IsCoherent max_headers s = record {
  same_device = refl;
  same_scan = refl;
  probes = tt;
  browses = tt;
  stats = tt;
  nodes = tt;
}

module _ (device : Device) (scanned : ScanResult) (begin : List (List ℕ) → ℕ)
    (names : HasNames device scanned) where
  Call-IsCoherent :
      {s t : Session} → Call begin s t → IsCoherent device scanned s → IsCoherent device scanned t
  unfolding clear_caches reset_stats
  Call-IsCoherent (browsed s id path no_unit) c =
      (browse-exact device scanned begin s id path names no_unit c).1
  Call-IsCoherent (statted s id path no_unit) c =
      (stat-exact device scanned begin s id path no_unit c).1
  Call-IsCoherent (read s id path offset size no_unit) c =
      (read_file-exact device scanned begin s id path offset size no_unit c).1
  Call-IsCoherent (cleared s) c = record {
    same_device = c.same_device;
    same_scan = c.same_scan;
    probes = tt;
    browses = tt;
    stats = tt;
    nodes = tt;
  }
  Call-IsCoherent (counters_reset s) c = record {
    same_device = c.same_device;
    same_scan = c.same_scan;
    probes = c.probes;
    browses = c.browses;
    stats = c.stats;
    nodes = c.nodes;
  }

  -- The caches stay right through any row of calls that name no partition with a unit separator, where
  -- the names of every directory tell its entries apart.
  pub Calls-IsCoherent :
      {s t : Session} → IsCoherent device scanned s → Calls begin s t → IsCoherent device scanned t
  Calls-IsCoherent c here = c
  Calls-IsCoherent c (next calls call) = Call-IsCoherent call (Calls-IsCoherent c calls)
