-- ===== src/Device.antt =====
-- include/ps2hdd/block_device.hpp: the interface of a read-only block device.
-- `BlockDevice` is an abstract class, so a device is a record of what a caller sees of it: its size,
-- and the outcome of an exact read, `none` where `read` returns false. The medium does not change
-- while it is read: an outcome depends on the range alone.
use ps2_driveforge.Base.{ℕ, ◌+◌, ◌≤◌, ◌≡◌, Bool, Option, some, List, String, length, take, drop}

pub data StorageMediaClass : Type 0 where
  unknown rotational solid_state : StorageMediaClass

unfoldable pub storage_media_class_name : StorageMediaClass → String
storage_media_class_name StorageMediaClass.rotational = "rotational"
storage_media_class_name StorageMediaClass.solid_state = "solid-state"
storage_media_class_name StorageMediaClass.unknown = "unknown"

pub record StorageCharacteristics : Type 0 where
  pub media_class : StorageMediaClass
  pub seek_penalty_known : Bool
  pub incurs_seek_penalty : Bool
  pub trim_known : Bool
  pub trim_enabled : Bool
  pub bus_type_known : Bool
  pub bus_type : ℕ
  pub nominal_rotation_rate_known : Bool
  pub nominal_rotation_rate : ℕ

-- `read offset size`: the bytes of the complete range, or `none`
pub record Device : Type 0 where
  pub size_bytes : ℕ
  pub read : ℕ → ℕ → Option (List ℕ)

-- `size` bytes of `image` from `offset`
abbrev pub slice : List ℕ → ℕ → ℕ → List ℕ
slice image offset size = take size (drop offset image)

-- The device stands for the bytes `image`: a read that succeeds gives the bytes that stand there.
-- It may still fail, as a disk does on a bad sector.
pub record Mirrors (device : Device) (image : List ℕ) : Type 0 where
  pub size : device.size_bytes ≡ length image
  pub exact :
      (offset n : ℕ) (bytes : List ℕ)
      → device.read offset n ≡ some bytes
      → (bytes ≡ slice image offset n) × (offset + n ≤ length image)

-- Every read inside the device succeeds.
abbrev pub IsReliable : Device → Type 0
IsReliable device =
    (offset n : ℕ)
    → offset + n ≤ device.size_bytes
    → (bytes : List ℕ) × (device.read offset n ≡ some bytes)
