-- ===== src/Policy.antt =====
-- The pure decisions of the mount: mount/dokany_open_policy.hpp and
-- include/ps2hdd/darkness_policy.hpp.
pub mod Laws
use Prim.Native.Nat.{bit_and}
use ps2_driveforge.Base.{
  ℕ, zero, suc, ◌+◌, ◌-◌, ◌*◌, ◌^◌, Bool, true, false, not, ◌&&◌, ◌||◌, Option, none, some, ltb,
  ◌==◌, if◌then◌else◌,
}

abbrev pub disposition_supersede : ℕ
disposition_supersede = 0

abbrev pub disposition_open : ℕ
disposition_open = 1

abbrev pub disposition_create : ℕ
disposition_create = 2

abbrev pub disposition_open_if : ℕ
disposition_open_if = 3

abbrev pub disposition_overwrite : ℕ
disposition_overwrite = 4

abbrev pub disposition_overwrite_if : ℕ
disposition_overwrite_if = 5

pub data OpenStatus : Type 0 where
  success name_not_found name_collision write_protected : OpenStatus
  file_is_directory not_a_directory invalid_disposition : OpenStatus

pub record OpenRequest : Type 0 where
  pub exists : Bool
  pub is_directory : Bool
  pub wants_write : Bool
  pub directory_only : Bool
  pub non_directory_only : Bool
  pub delete_on_close : Bool
  pub disposition : ℕ

unfoldable pub evaluate : OpenRequest → OpenStatus
evaluate q =
    if ltb disposition_overwrite_if q.disposition
    then invalid_disposition
    else if not q.exists
    then (if q.disposition == disposition_open || q.disposition == disposition_overwrite
        then name_not_found
        else write_protected)
    else if q.non_directory_only && q.is_directory
    then file_is_directory
    else if q.directory_only && not q.is_directory
    then not_a_directory
    else if q.disposition == disposition_create
    then name_collision
    else if q.wants_write
        || (q.delete_on_close
            || (q.disposition == disposition_supersede
                || (q.disposition == disposition_overwrite
                    || q.disposition == disposition_overwrite_if)))
    then write_protected
    else success

unfoldable pub auto_open_candidate : ℕ → Bool → Option ℕ
auto_open_candidate candidate_count source_already_open =
    if not source_already_open && candidate_count == 1 then some 0 else none

abbrev pub is_free : ℕ → ℕ → Bool
is_free occupied_mask letter = bit_and occupied_mask (2 ^ (letter - b'A')) == 0

-- `for (letter = 'C'; letter <= 'Z'; ++letter)`, over the letters that are left
unfoldable pub letter_loop : ℕ → ℕ → ℕ → Option ℕ
letter_loop zero occupied_mask letter = none
letter_loop (suc left) occupied_mask letter =
    let rest = letter_loop left occupied_mask (letter + 1) in
    if is_free occupied_mask letter then some letter else rest

unfoldable pub choose_mount_letter : ℕ → Option ℕ
choose_mount_letter occupied_mask = letter_loop 24 occupied_mask b'C'
