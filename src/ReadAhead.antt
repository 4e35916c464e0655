-- ===== src/ReadAhead.antt =====
-- include/ps2hdd/read_ahead_block_device.hpp: sequential read-ahead before a block device. A counter is
-- a 64-bit atomic: its sum wraps.
pub mod Ahead
use ps2_driveforge.Base.{
  ℕ, ◌+◌, ◌-◌, ◌*◌, ◌%◌, ◌^◌, Bool, true, false, not, ◌&&◌, ◌||◌, Option, none, some, List, [],
  length, ltb, leb, ◌==◌, if◌then◌else◌, min,
}
use ps2_driveforge.Device.{Device, slice}

abbrev pub trigger_bytes : ℕ
trigger_bytes = 32 * 1024

abbrev pub look_ahead_bytes : ℕ
look_ahead_bytes = 256 * 1024

pub record ReadAheadStats : Type 0 where
  pub window_hits : ℕ
  pub window_misses : ℕ
  pub prefetches : ℕ
  pub prefetched_bytes : ℕ
  pub bytes_served_from_window : ℕ
  pub wasted_bytes : ℕ

abbrev pub no_stats : ReadAheadStats
no_stats = record {
  window_hits = 0;
  window_misses = 0;
  prefetches = 0;
  prefetched_bytes = 0;
  bytes_served_from_window = 0;
  wasted_bytes = 0;
}

pub record ReadAhead : Type 0 where
  pub inner : Device
  pub window : List ℕ
  pub window_start : ℕ
  pub window_served_bytes : ℕ
  pub has_last_request : Bool
  pub last_request_end : ℕ
  pub stats : ReadAheadStats

abbrev bump : ℕ → ℕ → ℕ
bump counter n = (counter + n) % 2 ^ 64

unfoldable pub observe_request : ReadAhead → ℕ → ℕ → ReadAhead
observe_request r offset size = record r {
  has_last_request = true;
  last_request_end = offset + size;
}

unfoldable pub reset_sequence : ReadAhead → ReadAhead
reset_sequence r = record r { has_last_request = false; last_request_end = 0 }

unfoldable pub account_old_window : ReadAhead → ReadAhead
account_old_window r =
    let size = length r.window in
    if size == 0 then r else record r {
      stats = record r.stats {
        wasted_bytes = bump r.stats.wasted_bytes (size - min r.window_served_bytes size);
      };
    }

-- the range lies in the window
unfoldable pub in_window : ReadAhead → ℕ → ℕ → Bool
in_window r offset n =
    let relative = offset - r.window_start in
    not (length r.window == 0)
    && (leb r.window_start offset
        && (leb relative (length r.window) && leb n (length r.window - relative)))

unfoldable pub serve_window : ReadAhead → ℕ → ℕ → Option (List ℕ) × ReadAhead
serve_window r offset n = (
  some (slice r.window (offset - r.window_start) n),
  observe_request
      (record r {
        window_served_bytes = r.window_served_bytes + n;
        stats = record r.stats {
          window_hits = bump r.stats.window_hits 1;
          bytes_served_from_window = bump r.stats.bytes_served_from_window n;
        };
      })
      offset n,
)

abbrev pub count_miss : ReadAhead → ReadAhead
count_miss r = record r { stats = record r.stats { window_misses = bump r.stats.window_misses 1 } }

-- a read of the inner device, and what is noted where it succeeds
unfoldable pub read_plain :
    ReadAhead → ℕ → ℕ → (ReadAhead → ReadAhead) → Option (List ℕ) × ReadAhead
read_plain r offset n note = elim (r.inner.read offset n) [
  | none ↦ (none, r)
  | some bytes ↦ (some bytes, note r)
]

abbrev pub prefetch_total : ReadAhead → ℕ → ℕ → ℕ
prefetch_total r offset n = min (r.inner.size_bytes - offset) (n + look_ahead_bytes)

-- the bytes that were loaded become the window
unfoldable pub replace_window : ReadAhead → ℕ → ℕ → List ℕ → ReadAhead
replace_window r offset n loaded =
    let counted = record r {
      stats = record r.stats {
        prefetches = bump r.stats.prefetches 1;
        prefetched_bytes = bump r.stats.prefetched_bytes (prefetch_total r offset n - n);
      };
    } in
    observe_request
      (record (account_old_window counted) {
        window_start = offset;
        window = loaded;
        window_served_bytes = n;
      })
      offset n

unfoldable pub prefetch : ReadAhead → ℕ → ℕ → Option (List ℕ) × ReadAhead
prefetch r offset n = elim (r.inner.read offset (prefetch_total r offset n)) [
  | none ↦ (none, r)
  | some loaded ↦ (some (slice loaded 0 n), replace_window r offset n loaded)
]

abbrev pub should_prefetch : ReadAhead → ℕ → Bool
should_prefetch r offset = r.has_last_request && offset == r.last_request_end

unfoldable pub read_miss : ReadAhead → ℕ → ℕ → Option (List ℕ) × ReadAhead
read_miss r offset n =
    if ltb n trigger_bytes
    then read_plain r offset n reset_sequence
    else if not (should_prefetch r offset)
    then read_plain r offset n (λ s. observe_request s offset n)
    else prefetch r offset n

unfoldable pub read_ahead : ReadAhead → ℕ → ℕ → Option (List ℕ) × ReadAhead
read_ahead r offset n =
    if ltb r.inner.size_bytes offset || ltb (r.inner.size_bytes - offset) n
    then (none, r)
    else if n == 0
    then (some [], r)
    else if in_window r offset n
    then serve_window r offset n
    else read_miss (count_miss r) offset n

unfoldable pub reset_stats : ReadAhead → ReadAhead
reset_stats r = record r { stats = no_stats }

unfoldable pub clear : ReadAhead → ReadAhead
clear r =
    reset_sequence
      (record (account_old_window r) { window = []; window_start = 0; window_served_bytes = 0 })
