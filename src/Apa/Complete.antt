-- ===== src/Apa/Complete.antt =====
-- Every partition table that fits the limit is listed by the scan, with no error.
use ps2_driveforge.Base.{
  ℕ, zero, suc, ◌+◌, ◌*◌, ◌≤◌, ◌≡◌, ◌≢◌, refl, true, false, List, [], ◌∷◌, ◌++◌, map, length, All,
  arith, some, append_assoc, ◌==◌, ◌∙◌,
}
use ps2_driveforge.Device.{Device}
use ps2_driveforge.Apa.Header.{Header, range_fits, sector_size, header_size, read_header}
use ps2_driveforge.Apa.Scan.{
  ScanState, ScanResult, any_error, scan_ok, make_partition, add_partition, follow_link, scan_step,
  scan_loop, scan, start_state,
}
use ps2_driveforge.Apa.Issues.{scan_of_ok, HeaderFits, header_issues_iff, any_error-append}
use ps2_driveforge.Apa.Table.{
  Follows, NeverReturns, IsTable, HeaderAt→load_header, HeaderAt→read_mbr,
}
use ps2_driveforge.Apa.Sound.{linked_result, first_pass}

stored-range_fits :
    (device : Device) (lba : ℕ) {header : Header}
    → read_header device lba ≡ some header
    → range_fits (lba * sector_size) header_size device.size_bytes ≡ true
unfolding read_header
stored-range_fits device lba h = ground arith

-- a clean result that goes on from `r` by the headers `hs`
record Extends (r : ScanResult) (hs : List Header) (t : ScanResult) : Type 0 where
  valid : t.mbr_valid ≡ r.mbr_valid
  version : t.apa_version ≡ r.apa_version
  listed : t.partitions ≡ r.partitions ++ map make_partition hs
  clean : any_error t.issues ≡ false

added :
    (device : Device) (s : ScanState) (header : Header)
    → HeaderFits device.size_bytes header
    → any_error s.result.issues ≡ false
    → Extends s.result (header ∷ []) (add_partition device s header)
unfolding add_partition
added device s header fits h = record {
  valid = refl;
  version = refl;
  listed = refl;
  clean =
      rw (any_error-append, h)
        ((header_issues_iff device.size_bytes s.count s.current_lba s.expected_prev header).1 fits);
}

joined :
    {r t u : ScanResult} (h : Header) (hs : List Header)
    → Extends r (h ∷ []) t
    → Extends t hs u
    → Extends r (h ∷ hs) u
joined {r} h hs a b = record {
  valid = b.valid ∙ a.valid;
  version = b.version ∙ a.version;
  listed = b.listed ∙ rw a.listed (append_assoc r.partitions _ _);
  clean = b.clean;
}

module _ (device : Device) (max_headers passes : ℕ) where
  -- a clean pass through the rest of a table, from a state whose headers follow its link
  abbrev ListsFrom : ScanState → Type 0
  ListsFrom s =
      (hs : List Header)
      → s.count ≢ 0
      → s.current_lba ≢ 0
      → s.count + passes ≡ max_headers
      → length hs ≤ passes
      → Follows device s.current_lba hs
      → NeverReturns s.visited s.current_lba hs
      → All (HeaderFits device.size_bytes) hs
      → any_error s.result.issues ≡ false
      → Extends s.result hs (scan_loop device max_headers passes s)

  link_lists :
      (s : ScanState) (header : Header) (hs : List Header)
      → ((t : ScanState) → ListsFrom t)
      → s.count + suc passes ≡ max_headers
      → length hs ≤ passes
      → Follows device header.next hs
      → NeverReturns (s.current_lba ∷ s.visited) header.next hs
      → HeaderFits device.size_bytes header
      → All (HeaderFits device.size_bytes) hs
      → any_error s.result.issues ≡ false
      → Extends s.result (header ∷ hs) (linked_result device max_headers passes s header)
  unfolding follow_link
  link_lists s header [] rest e short last acyclic fits inside clean =
      let done : (header.next == 0) ≡ true = ground arith in
      rw done (added device s header fits clean)
  link_lists s header (h ∷ hs) rest e short (ne, at, linked) acyclic fits inside clean =
      let first = added device s header fits clean in
      let more : (header.next == 0) ≡ false = ground arith in
      let free : (s.count + 1 == max_headers) ≡ false = ground arith in
      rw (more, stored-range_fits device header.next at.stored, free)
        (joined header (h ∷ hs) first (
          rest _ (h ∷ hs) (ground arith) ne (omega arith) short (ne, at, linked) acyclic inside
            first.clean))

step_lists :
    (device : Device) (max_headers passes : ℕ) (s : ScanState)
    → ((t : ScanState) → ListsFrom device max_headers passes t)
    → ListsFrom device max_headers (suc passes) s
unfolding scan_loop scan_step
step_lists device max_headers passes s rest [] n ne e short linked acyclic inside clean =
    absurd (ne linked)
step_lists device max_headers passes s rest (h ∷ hs) n ne e short linked acyclic inside clean =
    rw (acyclic.0, HeaderAt→load_header device s h n linked.1)
      (link_lists device max_headers passes s h hs rest e (omega arith) linked.2 acyclic.1 inside.0
        inside.1 clean)

no_passes_left :
    (device : Device) (max_headers : ℕ) (s : ScanState) → ListsFrom device max_headers zero s
no_passes_left device max_headers s [] n ne e short linked acyclic inside clean = absurd (ne linked)
no_passes_left device max_headers s (h ∷ hs) n ne e short linked acyclic inside clean =
    absurd (omega arith)

loop_lists :
    (device : Device) (max_headers passes : ℕ) (s : ScanState)
    → ListsFrom device max_headers passes s
loop_lists device max_headers zero s = no_passes_left device max_headers s
loop_lists device max_headers (suc passes) s =
    step_lists device max_headers passes s (loop_lists device max_headers passes)

-- A device whose partition table has at most `max_headers` headers is scanned with no error, and
-- the partitions are those of its headers, in the order of the list; the version is the MBR's.
pub scan_complete :
    (device : Device) (max_headers : ℕ) (first : Header) (rest : List Header)
    → IsTable device first rest
    → length (first ∷ rest) ≤ max_headers
    → (scan_ok (scan device max_headers) ≡ true)
      × ((scan device max_headers).partitions ≡ map make_partition (first ∷ rest))
      × ((scan device max_headers).apa_version ≡ first.mbr.version)
unfolding scan_ok any_error
scan_complete device zero first rest table short = absurd (omega arith)
scan_complete device (suc n) first rest table short =
    let start = start_state first in
    let walk =
      link_lists device (suc n) n start first rest (loop_lists device (suc n) n) (omega arith)
        (omega arith) table.linked table.acyclic table.inside.0 table.inside.1 refl in
    rw
      (
        scan_of_ok device (suc n)
            (HeaderAt→read_mbr device first table.room table.mbr table.signature),
        first_pass device (suc n) n first,
      )
      (rw (walk.valid, walk.clean) refl, walk.listed, walk.version)
