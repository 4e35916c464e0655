-- ===== src/Tests/Session.antt =====
-- A session on the test disk.
use ps2_driveforge.Base.{ℕ, ◌≡◌, refl, none, List, [], arith}
use ps2_driveforge.Base.Bytes.{codes}
use ps2_driveforge.Session.State.{Session, no_cache_stats, no_operations, clear_caches}
use ps2_driveforge.Session.Browse.{browse}
use ps2_driveforge.Session.Files.{stat, read_file}
use ps2_driveforge.Session.Keys.{NoUnit}
use ps2_driveforge.Session.Fresh.{stat_fresh, read_fresh}
use ps2_driveforge.Session.Coherent.{IsCoherent}
use ps2_driveforge.Session.ExactFiles.{stat-exact, read_file-exact}
use ps2_driveforge.Session.Reached
use ps2_driveforge.Session.Bounded.{IsBounded}
use ps2_driveforge.Session.Steps.{Run, here, next, browsed, statted, cleared}
use ps2_driveforge.Session.Sizes.{Run-IsBounded}
use ps2_driveforge.Tests.Drive.{device, scan}
use ps2_driveforge.Tests.DriveNames.{drive-HasNames}

abbrev pub first_key : List (List ℕ) → ℕ
first_key ks = 0

abbrev pub session : Session
session = record {
  device = device;
  scan = scan;
  last_error = none;
  probe_cache = [];
  browse_cache = [];
  stat_cache = [];
  node_cache = [];
  cache = no_cache_stats;
  operations = no_operations;
}

pub session-IsCoherent : IsCoherent device scan session
session-IsCoherent = record {
  same_device = refl;
  same_scan = refl;
  probes = tt;
  browses = tt;
  stats = tt;
  nodes = tt;
}

abbrev pub saves_id : List ℕ
saves_id = codes "SAVES"

pub saves-NoUnit : NoUnit saves_id
saves-NoUnit = (
  λ e. absurd (omega (arith, e)),
  (
    λ e. absurd (omega (arith, e)),
    (
      λ e. absurd (omega (arith, e)),
      (λ e. absurd (omega (arith, e)), (λ e. absurd (omega (arith, e)), tt)),
    ),
  ),
)

-- the session after the root was listed
abbrev pub later : Session
later = (browse first_key session saves_id (codes "/")).1

pub later-IsCoherent : IsCoherent device scan later
later-IsCoherent =
    Reached.Calls-IsCoherent device scan first_key drive-HasNames session-IsCoherent
      (Reached.next Reached.here (Reached.browsed session saves_id (codes "/") saves-NoUnit))

stat-exact_example :
    ((stat first_key later saves_id (codes "save\\")).0
      ≡ stat_fresh device scan saves_id (codes "save\\"))
    × IsCoherent device scan (stat first_key later saves_id (codes "save\\")).1
stat-exact_example =
    stat-exact device scan first_key later saves_id (codes "save\\") saves-NoUnit later-IsCoherent

read_file-exact_example :
    ((read_file first_key later saves_id (codes "save") 1 3).0
      ≡ read_fresh device scan saves_id (codes "save") 1 3)
    × IsCoherent device scan (read_file first_key later saves_id (codes "save") 1 3).1
read_file-exact_example =
    read_file-exact device scan first_key later saves_id (codes "save") 1 3 saves-NoUnit
      later-IsCoherent

session-IsBounded : IsBounded session
session-IsBounded = record {
  probes = omega arith;
  browses = omega arith;
  stats = omega arith;
  nodes = omega arith;
}

run : Run first_key session (clear_caches (stat first_key later saves_id (codes "save")).1)
run =
    next
      (next (next here (browsed session saves_id (codes "/")))
        (statted later saves_id (codes "save")))
      (cleared (stat first_key later saves_id (codes "save")).1)

Run-IsBounded_example : IsBounded (clear_caches (stat first_key later saves_id (codes "save")).1)
Run-IsBounded_example =
    Run-IsBounded first_key (λ ks h. h) session
      (clear_caches (stat first_key later saves_id (codes "save")).1) run session-IsBounded
