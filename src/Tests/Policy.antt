-- ===== src/Tests/Policy.antt =====
-- Runs of the open policy and of the letter choice.
use ps2_driveforge.Base.{◌≡◌, ◌↔◌, ◌+◌, refl, true, false, some}
use ps2_driveforge.Policy.{
  OpenRequest, success, file_is_directory, evaluate, letter_loop, choose_mount_letter,
}
use ps2_driveforge.Policy.Laws.{
  IsPlainOpen, IsLeast, evaluate-success_iff, choose_mount_letter-IsLeast,
}

-- FILE_OPEN of an existing directory
abbrev open_directory : OpenRequest
open_directory = record {
  exists = true;
  is_directory = true;
  wants_write = false;
  directory_only = false;
  non_directory_only = false;
  delete_on_close = false;
  disposition = 1;
}

opens : evaluate open_directory ≡ success
unfolding evaluate
opens = refl

file_asked : evaluate (record open_directory { non_directory_only = true }) ≡ file_is_directory
unfolding evaluate
file_asked = refl

evaluate-success_iff_example : (evaluate open_directory ≡ success) ↔ IsPlainOpen open_directory
evaluate-success_iff_example = evaluate-success_iff open_directory

-- C and E are taken, D is not
d_chosen : choose_mount_letter 0x14 ≡ some b'D'
unfolding choose_mount_letter letter_loop
d_chosen = refl

choose_mount_letter-IsLeast_example : IsLeast 0x14 b'C' (b'Z' + 1) b'D'
choose_mount_letter-IsLeast_example = choose_mount_letter-IsLeast 0x14 b'D' d_chosen
