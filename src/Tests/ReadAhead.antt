-- ===== src/Tests/ReadAhead.antt =====
-- A read-ahead before a small disk, with a window that an earlier prefetch left.
use ps2_driveforge.Base.{ℕ, ◌+◌, ◌≤◌, ◌≡◌, refl, true, false, some, List, ◌++◌, arith, ap, sym}
use ps2_driveforge.Base.Bytes.{codes}
use ps2_driveforge.Device.{slice}
use ps2_driveforge.ReadAhead.{
  ReadAhead, no_stats, observe_request, reset_sequence, account_old_window, in_window, serve_window,
  read_plain, replace_window, prefetch, read_miss, read_ahead,
}
use ps2_driveforge.ReadAhead.Ahead.{IsAhead, IsRead, read_ahead-IsRead, read_ahead_succeeds}
use ps2_driveforge.Tests.Disk.{disk, image_of, image_of-zero, disk-Mirrors, disk-IsReliable, zeros}

program : Unit {0}
unfolding disk observe_request reset_sequence account_old_window in_window serve_window read_plain
    replace_window prefetch read_miss read_ahead
program = tt

abbrev bytes : List ℕ
bytes = zeros 10 ++ codes "window" ++ zeros 20

abbrev ahead : ReadAhead
ahead = record {
  inner = disk 0 bytes;
  window = codes "window" ++ zeros 20;
  window_start = 10;
  window_served_bytes = 6;
  has_last_request = true;
  last_request_end = 16;
  stats = no_stats;
}

ahead-IsAhead : IsAhead (image_of 0 bytes) ahead
ahead-IsAhead = record {
  mirrors = disk-Mirrors 0 bytes;
  window = ap (λ (image : List ℕ). slice image 10 26) (sym (image_of-zero bytes));
}

window_hit : (read_ahead ahead 12 3).0 ≡ some (codes "ndo")
unfolding program
window_hit = refl

window_missed : (read_ahead ahead 8 4).1.has_last_request ≡ false
unfolding program
window_missed = refl

read_ahead-IsRead_example : IsRead (image_of 0 bytes) 12 3 (read_ahead ahead 12 3)
read_ahead-IsRead_example = read_ahead-IsRead (image_of 0 bytes) ahead 12 3 ahead-IsAhead

inside : 8 + 4 ≤ ahead.inner.size_bytes
unfolding program
inside = omega arith

read_ahead_succeeds_example : (out : List ℕ) × ((read_ahead ahead 8 4).0 ≡ some out)
read_ahead_succeeds_example = read_ahead_succeeds ahead 8 4 inside (disk-IsReliable bytes)
