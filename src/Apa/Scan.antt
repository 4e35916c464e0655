-- ===== src/Apa/Scan.antt =====
-- `Reader::scan` of core/apa.cpp: the walk along the linked list of partition headers.
-- One pass of the loop is `scan_step`, over the variables that live across passes; `scan_loop`
-- recurs on the passes that `count < max_headers` leaves.
use ps2_driveforge.Base.{
  ℕ, zero, suc, ◌+◌, ◌*◌, ◌%◌, ◌^◌, Bool, true, false, not, ◌&&◌, ◌||◌, List, [], ◌∷◌, ◌++◌, String,
  take, ltb, ◌==◌, if◌then◌else◌, min, Result, ok, err, ◌>>=◌, ◌>>◌, fail_if, from_option,
}
use ps2_driveforge.Device.{Device}
use ps2_driveforge.Apa.Header.{
  magic, sector_size, header_size, max_sub, SubPartition, Header, range_fits, sector_extent_fits,
  checksum, partition_id, has_sony_mbr_magic, read_header, Partition,
}

pub data IssueSeverity : Type 0 where
  warning error : IssueSeverity

-- one constructor for each text that the code reports
pub data Message : Type 0 where
  device_too_small unreadable_mbr missing_magic mbr_checksum_mismatch missing_signature : Message
  cycle unreadable_header invalid_magic checksum_mismatch : Message
  start_mismatch prev_mismatch sub_count_exceeded : Message
  extent_outside sub_extent_outside next_outside limit_reached : Message

unfoldable pub text : Message → String
text device_too_small = "Device is smaller than one APA header"
text unreadable_mbr = "Could not read APA MBR header"
text missing_magic = "APA magic is missing at LBA 0"
text mbr_checksum_mismatch = "APA MBR checksum mismatch"
text missing_signature = "Sony APA MBR signature is missing"
text cycle = "Cycle detected in APA partition chain"
text unreadable_header = "Could not read APA header"
text invalid_magic = "Invalid APA magic"
text checksum_mismatch = "APA checksum mismatch"
text start_mismatch = "Header start LBA does not match its physical location"
text prev_mismatch = "APA prev link does not point to the previous header"
text sub_count_exceeded = "APA sub-partition count exceeds format limit; clamping to 64"
text extent_outside = "APA partition extent extends outside the device"
text sub_extent_outside = "APA sub-partition extent extends outside the device"
text next_outside = "APA next link points outside the device"
text limit_reached = "APA scan header limit reached"

pub record Issue : Type 0 where
  pub severity : IssueSeverity
  pub lba : ℕ
  pub message : Message

pub record ScanResult : Type 0 where
  pub mbr_valid : Bool
  pub apa_version : ℕ
  pub partitions : List Partition
  pub issues : List Issue

abbrev pub is_error : Issue → Bool
is_error i = elim i.severity [ IssueSeverity.error ↦ true | IssueSeverity.warning ↦ false ]

unfoldable pub any_error : List Issue → Bool
any_error [] = false
any_error (i ∷ is) = is_error i || any_error is

-- `ScanResult::ok`
unfoldable pub scan_ok : ScanResult → Bool
scan_ok r = r.mbr_valid && not (any_error r.issues)

abbrev pub issue_if : Bool → IssueSeverity → ℕ → Message → List Issue
issue_if true severity lba message =
    record { severity = severity; lba = lba; message = message } ∷ []
issue_if false severity lba message = []

abbrev pub add_error : ScanResult → ℕ → Message → ScanResult
add_error r lba message = record r {
  issues = r.issues ++ issue_if true IssueSeverity.error lba message;
}

-- the loop over `header.subs[i]`, i < sub_count: the extents, `total_sectors` and the issues
unfoldable pub total_with_subs : ℕ → List SubPartition → ℕ
total_with_subs total [] = total
total_with_subs total (sub ∷ subs) = total_with_subs ((total + sub.length) % 2 ^ 64) subs

unfoldable pub sub_issues : ℕ → ℕ → List SubPartition → List Issue
sub_issues device_size lba [] = []
sub_issues device_size lba (sub ∷ subs) =
    issue_if (not (sector_extent_fits sub.start sub.length device_size)) IssueSeverity.error lba
      sub_extent_outside
    ++ sub_issues device_size lba subs

unfoldable pub used_subs : Header → List SubPartition
used_subs header = take (min header.nsub max_sub) header.subs

unfoldable pub make_partition : Header → Partition
make_partition header = record {
  id = partition_id header;
  start_lba = header.start;
  length_sectors = header.length;
  total_sectors = total_with_subs header.length (used_subs header);
  type = header.type;
  flags = header.flags;
  main_lba = header.main;
  number = header.number;
  sub_count = min header.nsub max_sub;
  created = header.created;
  sub_partitions = used_subs header;
}

-- the issues of one header, in the order in which they are reported
unfoldable pub header_issues : ℕ → ℕ → ℕ → ℕ → Header → List Issue
header_issues device_size count lba expected_prev header =
    issue_if (not (header.start == lba)) IssueSeverity.warning lba start_mismatch
    ++ (issue_if (not (count == 0) && not (header.prev == expected_prev)) IssueSeverity.warning lba
          prev_mismatch
        ++ (issue_if (ltb max_sub header.nsub) IssueSeverity.warning lba sub_count_exceeded
            ++ (issue_if (not (sector_extent_fits header.start header.length device_size))
                  IssueSeverity.error lba extent_outside
                ++ sub_issues device_size lba (used_subs header))))

unfoldable pub contains : List ℕ → ℕ → Bool
contains [] a = false
contains (x ∷ xs) a = x == a || contains xs a

-- the variables of the loop
pub record ScanState : Type 0 where
  pub result : ScanResult
  pub header : Header
  pub visited : List ℕ
  pub current_lba : ℕ
  pub expected_prev : ℕ
  pub count : ℕ

-- `break`, or on to the next pass
pub data Pass : Type 0 where
  stop : ScanResult → Pass
  next : ScanState → Pass

-- the header of this pass; the one at LBA 0 was read and checked before the loop
unfoldable pub load_header : Device → ScanState → Result Message Header
load_header device s = if s.count == 0 then ok s.header else (do
  header ← from_option unreadable_header (read_header device s.current_lba)
  fail_if (not (header.magic == magic)) invalid_magic
  fail_if (not (checksum header == header.checksum)) checksum_mismatch
  ok header)

unfoldable pub add_partition : Device → ScanState → Header → ScanResult
add_partition device s header = record s.result {
  partitions = s.result.partitions ++ make_partition header ∷ [];
  issues =
      s.result.issues
      ++ header_issues device.size_bytes s.count s.current_lba s.expected_prev header;
}

unfoldable pub follow_link : Device → ℕ → ScanState → Header → Pass
follow_link device max_headers s header =
    let result = add_partition device s header in
    if header.next == 0
    then stop result
    else if not (range_fits (header.next * sector_size) header_size device.size_bytes)
    then stop (add_error result header.next next_outside)
    else next (record {
      result =
          if s.count + 1 == max_headers then add_error result header.next limit_reached else result;
      header = header;
      visited = s.current_lba ∷ s.visited;
      current_lba = header.next;
      expected_prev = s.current_lba;
      count = s.count + 1;
    })

unfoldable pub scan_step : Device → ℕ → ScanState → Pass
scan_step device max_headers s =
    if contains s.visited s.current_lba
    then stop (add_error s.result s.current_lba cycle)
    else elim (load_header device s) [
      | err message ↦ stop (add_error s.result s.current_lba message)
      | ok header ↦ follow_link device max_headers s header
    ]

abbrev pub after_pass : Pass → (ScanState → ScanResult) → ScanResult
after_pass (stop result) continue = result
after_pass (next s) continue = continue s

unfoldable pub scan_loop : Device → ℕ → ℕ → ScanState → ScanResult
scan_loop device max_headers zero s = s.result
scan_loop device max_headers (suc passes) s =
    after_pass (scan_step device max_headers s) (scan_loop device max_headers passes)

-- the checks on the header at LBA 0
unfoldable pub read_mbr : Device → Result Message Header
read_mbr device = do
  fail_if (ltb device.size_bytes header_size) device_too_small
  header ← from_option unreadable_mbr (read_header device 0)
  fail_if (not (header.magic == magic)) missing_magic
  fail_if (not (checksum header == header.checksum)) mbr_checksum_mismatch
  fail_if (not (has_sony_mbr_magic header)) missing_signature
  ok header

abbrev pub no_result : ScanResult
no_result = record { mbr_valid = false; apa_version = 0; partitions = []; issues = [] }

abbrev pub start_state : Header → ScanState
start_state header = record {
  result = record no_result { mbr_valid = true; apa_version = header.mbr.version };
  header = header;
  visited = [];
  current_lba = 0;
  expected_prev = header.prev;
  count = 0;
}

unfoldable pub scan : Device → ℕ → ScanResult
scan device max_headers = elim (read_mbr device) [
  | err message ↦ add_error no_result 0 message
  | ok header ↦ scan_loop device max_headers max_headers (start_state header)
]
