-- ===== src/Pfs/Probe.antt =====
-- `valid_zone_size` and `probe` of core/pfs.cpp.
use ps2_driveforge.Base.{
  ℕ, ◌-◌, ◌*◌, List, [], ◌∷◌, ◌++◌, String, Bool, true, false, not, ◌&&◌, Option, none, some, ltb,
  leb, ◌==◌, if◌then◌else◌, Result, ok, err, ◌>>◌, fail_if,
}
use ps2_driveforge.Base.Bytes.{bytes_eq}
use ps2_driveforge.Apa.Header.{sector_size, type_pfs, is_sub}
use ps2_driveforge.Volume.{ApaVolume, read_sectors, extent_count}
use ps2_driveforge.Pfs.Types.{
  super_magic, format_version, super_sector, super_backup_sector, fsck_write_error,
  fsck_errors_fixed, no_block, SuperBlock, decode_super,
}
use Prim.Native.Nat.{bit_and}
use mathlib.Core.Option

unfoldable pub valid_zone_size : ℕ → Bool
valid_zone_size zone_size =
    leb (2 * 1024) zone_size
    && (leb zone_size (128 * 1024) && bit_and zone_size (zone_size - 1) == 0)

-- one constructor for each text of `ProbeResult::errors` and `ProbeResult::warnings`
pub data ProbeError : Type 0 where
  not_marked_pfs not_main unreadable_super bad_magic newer_version bad_zone_size : ProbeError
  missing_subs root_missing_sub log_missing_sub : ProbeError

pub data ProbeWarning : Type 0 where
  unregistered_subs unreadable_backup backup_differs write_error errors_fixed : ProbeWarning

unfoldable pub error_text : ProbeError → String
error_text not_marked_pfs = "APA partition is not marked as PFS"
error_text not_main = "A PFS filesystem must be probed from its main APA partition"
error_text unreadable_super = "Could not read PFS superblock at sector 8192"
error_text bad_magic = "PFS superblock magic is invalid"
error_text newer_version = "PFS format version is newer than supported version 3"
error_text bad_zone_size = "PFS zone size is invalid"
error_text missing_subs = "PFS expects more APA sub-partitions than are attached"
error_text root_missing_sub = "PFS root inode points to a missing sub-partition"
error_text log_missing_sub = "PFS journal points to a missing sub-partition"

unfoldable pub warning_text : ProbeWarning → String
warning_text unregistered_subs =
    "APA has additional sub-partitions not registered by this PFS superblock"
warning_text unreadable_backup = "Could not read PFS backup superblock at sector 8193"
warning_text backup_differs = "Primary and backup PFS superblocks differ"
warning_text write_error = "PFS fsck status contains WRITE_ERROR"
warning_text errors_fixed = "PFS fsck status reports previously fixed errors"

pub record ProbeResult : Type 0 where
  pub valid : Bool
  pub backup_matches : Bool
  pub super : SuperBlock
  pub warnings : List ProbeWarning
  pub errors : List ProbeError

unfoldable pub read_super : ApaVolume → ℕ → Option SuperBlock
read_super volume sector = Option.map decode_super (read_sectors volume 0 sector 1 sector_size)

abbrev pub no_super : SuperBlock
no_super = record {
  magic = 0;
  version = 0;
  modver = 0;
  fsck_stat = 0;
  zone_size = 0;
  num_subs = 0;
  log = no_block;
  root = no_block;
  bytes = [];
}

abbrev pub available_subs : ApaVolume → ℕ
available_subs volume = extent_count volume - 1

-- the checks on a superblock that was read
unfoldable pub check_super : ApaVolume → SuperBlock → Result ProbeError (Unit {0})
check_super volume super = do
  fail_if (not (super.magic == super_magic)) bad_magic
  fail_if (ltb format_version super.version) newer_version
  fail_if (not (valid_zone_size super.zone_size)) bad_zone_size
  fail_if (ltb (available_subs volume) super.num_subs) missing_subs
  fail_if (ltb super.num_subs super.root.subpart) root_missing_sub
  fail_if (ltb super.num_subs super.log.subpart) log_missing_sub

abbrev subs_warnings : ApaVolume → SuperBlock → List ProbeWarning
subs_warnings volume super =
    if ltb super.num_subs (available_subs volume) then unregistered_subs ∷ [] else []

abbrev pub reject : SuperBlock → List ProbeWarning → ProbeError → ProbeResult
reject super warnings error = record {
  valid = false;
  backup_matches = false;
  super = super;
  warnings = warnings;
  errors = error ∷ [];
}

-- the warning of the sub-partition count comes before the checks that follow it
abbrev warnings_so_far : ApaVolume → SuperBlock → ProbeError → List ProbeWarning
warnings_so_far volume super root_missing_sub = subs_warnings volume super
warnings_so_far volume super log_missing_sub = subs_warnings volume super
warnings_so_far volume super _ = []

abbrev backup_warnings : Option SuperBlock → SuperBlock → List ProbeWarning
backup_warnings none super = unreadable_backup ∷ []
backup_warnings (some backup) super =
    if bytes_eq super.bytes backup.bytes then [] else backup_differs ∷ []

abbrev backup_agrees : Option SuperBlock → SuperBlock → Bool
backup_agrees none super = false
backup_agrees (some backup) super = bytes_eq super.bytes backup.bytes

abbrev fsck_warnings : SuperBlock → List ProbeWarning
fsck_warnings super =
    (if not (bit_and super.fsck_stat fsck_write_error == 0) then write_error ∷ [] else [])
    ++ (if not (bit_and super.fsck_stat fsck_errors_fixed == 0) then errors_fixed ∷ [] else [])

unfoldable pub accept : ApaVolume → SuperBlock → ProbeResult
accept volume super =
    let backup = read_super volume super_backup_sector in
    record {
      valid = true;
      backup_matches = backup_agrees backup super;
      super = super;
      warnings =
          subs_warnings volume super ++ (backup_warnings backup super ++ fsck_warnings super);
      errors = [];
    }

unfoldable pub probe_super : ApaVolume → SuperBlock → ProbeResult
probe_super volume super = elim (check_super volume super) [
  | err e ↦ reject super (warnings_so_far volume super e) e
  | ok _ ↦ accept volume super
]

unfoldable pub probe : ApaVolume → ProbeResult
probe volume =
    if not (volume.partition.type == type_pfs)
    then reject no_super [] not_marked_pfs
    else if is_sub volume.partition
    then reject no_super [] not_main
    else elim (read_super volume super_sector) [
      | none ↦ reject no_super [] unreadable_super
      | some super ↦ probe_super volume super
    ]
