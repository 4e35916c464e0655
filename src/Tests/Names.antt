-- ===== src/Tests/Names.antt =====
-- Names that Windows does not allow, and their replacements.
use ps2_driveforge.Base.{◌≡◌, ◌↔◌}
use ps2_driveforge.Base.Bytes.{codes}
use ps2_driveforge.Names.{sanitize_host_filename}
use ps2_driveforge.Names.Safe.{IsSafe, sanitize_host_filename-IsSafe}

sanitize_host_filename-IsSafe_example :
    IsSafe (sanitize_host_filename (codes "con.a<b."))
    × (IsSafe (codes "con.a<b.") ↔ (sanitize_host_filename (codes "con.a<b.") ≡ codes "con.a<b."))
sanitize_host_filename-IsSafe_example = sanitize_host_filename-IsSafe (codes "con.a<b.")
