-- ===== src/Apa/Issues.antt =====
-- What the issues of a header and of a scan say: an error is reported exactly where an extent does
-- not fit, and an error once reported stays.
use ps2_driveforge.Base.{
  ok, err, ℕ, zero, suc, ◌+◌, ◌*◌, ◌≤◌, ◌≡◌, refl, ◌↔◌, inl, inr, true, false, ◌||◌, List, [], ◌∷◌,
  ◌++◌, arith, All, Result-cases, Bool-cases,
}
use ps2_driveforge.Device.{Device}
use ps2_driveforge.Apa.Header.{SubPartition, Header, range_fits, sector_extent_fits, sector_size}
use ps2_driveforge.Apa.Scan.{
  Issue, ScanResult, any_error, add_error, Message, sub_issues, header_issues, used_subs, ScanState,
  Pass, stop, next, load_header, add_partition, follow_link, scan_step, scan_loop, scan, read_mbr,
  start_state, no_result, after_pass, contains, cycle, limit_reached, next_outside,
}

-- the extent of `length` sectors from `start` lies inside a device of `size` bytes
abbrev pub ExtentFits : ℕ → ℕ → ℕ → Type 0
ExtentFits size start length = (start + length) * sector_size ≤ size

pub range_fits_iff :
    (offset size device_size : ℕ)
    → (range_fits offset size device_size ≡ true) ↔ (offset + size ≤ device_size)
unfolding range_fits
range_fits_iff offset size device_size = ground arith

pub sector_extent_fits_iff :
    (start length size : ℕ)
    → (sector_extent_fits start length size ≡ true) ↔ ExtentFits size start length
unfolding sector_extent_fits
sector_extent_fits_iff start length size = ground arith

-- every extent of the partition lies inside the device
abbrev pub HeaderFits : ℕ → Header → Type 0
HeaderFits size header =
    ExtentFits size header.start header.length
    × All (λ (sub : SubPartition). ExtentFits size sub.start sub.length) (used_subs header)

pub any_error-append : (a b : List Issue) → any_error (a ++ b) ≡ any_error a || any_error b
unfolding any_error
any_error-append [] b = refl
any_error-append (i ∷ is) b = ground (arith, any_error-append is b)

sub_issues_fit :
    (size lba : ℕ) (subs : List SubPartition)
    → any_error (sub_issues size lba subs) ≡ false
    → All (λ (sub : SubPartition). ExtentFits size sub.start sub.length) subs
unfolding any_error sub_issues
sub_issues_fit size lba [] h = tt
sub_issues_fit size lba (sub ∷ subs) h =
    ground (arith, sector_extent_fits_iff sub.start sub.length size, sub_issues_fit size lba subs)

fit_sub_issues :
    (size lba : ℕ) (subs : List SubPartition)
    → All (λ (sub : SubPartition). ExtentFits size sub.start sub.length) subs
    → any_error (sub_issues size lba subs) ≡ false
unfolding any_error sub_issues
fit_sub_issues size lba [] h = refl
fit_sub_issues size lba (sub ∷ subs) h =
    ground (arith, sector_extent_fits_iff sub.start sub.length size, fit_sub_issues size lba subs)

-- the three warnings aside, a header reports an error exactly where an extent does not fit
pub header_issues_iff :
    (size count lba prev : ℕ) (header : Header)
    → (any_error (header_issues size count lba prev header) ≡ false) ↔ HeaderFits size header
unfolding any_error header_issues
header_issues_iff size count lba prev header =
    let subs = used_subs header in
    ground (
      arith,
      sector_extent_fits_iff header.start header.length size,
      sub_issues_fit size lba subs,
      fit_sub_issues size lba subs,
    )

abbrev pub result_of : Pass → ScanResult
result_of (stop r) = r
result_of (next s) = s.result

pub add_error_errs :
    (r : ScanResult) (lba : ℕ) (message : Message)
    → any_error (add_error r lba message).issues ≡ true
unfolding any_error
add_error_errs r lba message = rw any_error-append (ground arith)

-- an error stays to the end of the scan
follow_link_keeps :
    (device : Device) (max_headers : ℕ) (s : ScanState) (header : Header)
    → any_error (add_partition device s header).issues ≡ true
    → any_error (result_of (follow_link device max_headers s header)).issues ≡ true
unfolding follow_link
follow_link_keeps device max_headers s header h =
    let r = add_partition device s header in
    ground
      (arith, add_error_errs r header.next next_outside, add_error_errs r header.next limit_reached)

add_partition_keeps :
    (device : Device) (s : ScanState) (header : Header)
    → any_error s.result.issues ≡ true
    → any_error (add_partition device s header).issues ≡ true
unfolding add_partition
add_partition_keeps device s header h = rw (any_error-append, h)

scan_step_keeps :
    (device : Device) (max_headers : ℕ) (s : ScanState)
    → any_error s.result.issues ≡ true
    → any_error (result_of (scan_step device max_headers s)).issues ≡ true
unfolding scan_step
scan_step_keeps device max_headers s h = elim (Bool-cases (contains s.visited s.current_lba)) [
  | inl seen ↦ rw seen (add_error_errs s.result s.current_lba cycle)
  | inr new ↦ elim (Result-cases (load_header device s)) [
    | inl (header, e) ↦
        rw (new, e)
          (follow_link_keeps device max_headers s header (add_partition_keeps device s header h))
    | inr (message, e) ↦ rw (new, e) (add_error_errs s.result s.current_lba message)
  ]
]

after_pass_keeps :
    (pass : Pass) (continue : ScanState → ScanResult)
    → ((s : ScanState) → any_error s.result.issues ≡ true → any_error (continue s).issues ≡ true)
    → any_error (result_of pass).issues ≡ true
    → any_error (after_pass pass continue).issues ≡ true
after_pass_keeps (stop r) continue keeps h = h
after_pass_keeps (next s) continue keeps h = keeps s h

pub scan_loop_keeps :
    (device : Device) (max_headers passes : ℕ) (s : ScanState)
    → any_error s.result.issues ≡ true
    → any_error (scan_loop device max_headers passes s).issues ≡ true
unfolding scan_loop
scan_loop_keeps device max_headers zero s h = h
scan_loop_keeps device max_headers (suc passes) s h =
    after_pass_keeps (scan_step device max_headers s) (scan_loop device max_headers passes)
      (scan_loop_keeps device max_headers passes) (scan_step_keeps device max_headers s h)

-- the scan goes on past LBA 0 exactly where the MBR header passes its checks
pub scan_of_ok :
    (device : Device) (max_headers : ℕ) {header : Header}
    → read_mbr device ≡ ok header
    → scan device max_headers ≡ scan_loop device max_headers max_headers (start_state header)
unfolding scan
scan_of_ok device max_headers e = rw (e, scan)

pub scan_of_err :
    (device : Device) (max_headers : ℕ) {message : Message}
    → read_mbr device ≡ err message
    → scan device max_headers ≡ add_error no_result 0 message
unfolding scan
scan_of_err device max_headers e = rw (e, scan)
