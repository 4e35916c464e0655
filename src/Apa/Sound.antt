-- ===== src/Apa/Sound.antt =====
-- A scan without errors lists the partition table.
use ps2_driveforge.Base.{
  ℕ, zero, suc, ◌+◌, ◌*◌, ◌≤◌, ◌<◌, ◌≡◌, ◌≢◌, refl, inl, inr, true, false, List, [], ◌∷◌, ◌++◌, map,
  length, All, arith, ok, Bool-cases, Result-cases, append-nil, append_assoc, sym, ◌==◌, ◌∙◌,
}
use ps2_driveforge.Device.{Device}
use ps2_driveforge.Apa.Header.{Header, range_fits, sector_size, header_size, Partition}
use ps2_driveforge.Apa.Scan.{
  contains, ScanState, ScanResult, load_header, read_mbr, any_error, scan_ok, make_partition,
  add_partition, after_pass, follow_link, scan_step, scan_loop, scan, cycle, next_outside,
  limit_reached, header_issues, start_state,
}
use ps2_driveforge.Apa.Issues.{
  HeaderFits, scan_of_ok, scan_of_err, header_issues_iff, add_error_errs, scan_loop_keeps,
  any_error-append,
}
use ps2_driveforge.Apa.Table.{
  Follows, NeverReturns, IsTable, load_header→HeaderAt, read_mbr→HeaderAt,
}

-- the rest of a scan from a link: the headers that it adds to the partitions `before`
record Walk (device : Device) (seen : List ℕ) (link passes : ℕ) (before : List Partition)
    (r : ScanResult) : Type 0 where
  headers : List Header
  linked : Follows device link headers
  acyclic : NeverReturns seen link headers
  inside : All (HeaderFits device.size_bytes) headers
  short : length headers ≤ passes
  listed : r.partitions ≡ before ++ map make_partition headers

added_fits :
    (device : Device) (s : ScanState) (header : Header)
    → any_error (add_partition device s header).issues ≡ false
    → HeaderFits device.size_bytes header
unfolding add_partition
added_fits device s header h = ground (
  arith,
  any_error-append s.result.issues
      (header_issues device.size_bytes s.count s.current_lba s.expected_prev header),
  header_issues_iff device.size_bytes s.count s.current_lba s.expected_prev header,
)

-- what is reported without an error at the end had none on the way
kept_clean :
    (device : Device) (max_headers passes : ℕ) (s : ScanState)
    → any_error (scan_loop device max_headers passes s).issues ≡ false
    → any_error s.result.issues ≡ false
kept_clean device max_headers passes s h =
    ground (arith, scan_loop_keeps device max_headers passes s)

module _ (device : Device) (max_headers passes : ℕ) where
  abbrev WalksFrom : ScanState → Type 0
  WalksFrom s =
      s.count ≢ 0
      → s.current_lba ≢ 0
      → s.count + passes ≡ max_headers
      → 0 < passes
      → any_error (scan_loop device max_headers passes s).issues ≡ false
      → Walk device s.visited s.current_lba passes s.result.partitions
          (scan_loop device max_headers passes s)

  abbrev pub linked_result : ScanState → Header → ScanResult
  linked_result s header =
      after_pass (follow_link device max_headers s header) (scan_loop device max_headers passes)

  link_walks :
      (s : ScanState) (header : Header)
      → s.count + suc passes ≡ max_headers
      → ((t : ScanState) → WalksFrom t)
      → any_error (linked_result s header).issues ≡ false
      → HeaderFits device.size_bytes header
        × Walk device
            (s.current_lba ∷ s.visited)
            header.next
            passes
            (add_partition device s header).partitions
            (linked_result s header)
  unfolding follow_link
  link_walks s header e rest = elim (Bool-cases (header.next == 0)) [
    | inl last ↦ rw last λ h. (
      added_fits device s header h,
      record {
        headers = [];
        linked = ground arith;
        acyclic = tt;
        inside = tt;
        short = omega arith;
        listed = sym (append-nil _);
      },
    )
    | inr more ↦
        elim (Bool-cases (range_fits (header.next * sector_size) header_size device.size_bytes)) [
          | inr out ↦
              rw (more, out)
                λ h. cc (h, add_error_errs (add_partition device s header) header.next next_outside)
          | inl fits ↦ elim (Bool-cases (s.count + 1 == max_headers)) [
            | inl full ↦
                rw (more, fits, full)
                  λ h. cc (
                    kept_clean device max_headers passes _ h,
                    add_error_errs (add_partition device s header) header.next limit_reached,
                  )
            | inr free ↦
                rw (more, fits, free)
                  λ h. (
                    added_fits device s header (kept_clean device max_headers passes _ h),
                    rest _ (ground arith) (ground arith) (omega arith) (ground arith) h,
                  )
          ]
        ]
  ]

added_partitions :
    (device : Device) (s : ScanState) (header : Header) (hs : List Header)
    → (add_partition device s header).partitions ++ map make_partition hs
      ≡ s.result.partitions ++ map make_partition (header ∷ hs)
unfolding add_partition
added_partitions device s header hs = append_assoc s.result.partitions _ _

step_walks :
    (device : Device) (max_headers passes : ℕ) (s : ScanState)
    → ((t : ScanState) → WalksFrom device max_headers passes t)
    → WalksFrom device max_headers (suc passes) s
unfolding scan_loop scan_step
step_walks device max_headers passes s rest counted linked e room =
    elim (Bool-cases (contains s.visited s.current_lba)) [
      | inl seen ↦ rw seen λ h. cc (h, add_error_errs s.result s.current_lba cycle)
      | inr new ↦ elim (Result-cases (load_header device s)) [
        | inr (message, bad) ↦
            rw (new, bad) λ h. cc (h, add_error_errs s.result s.current_lba message)
        | inl (header, loaded) ↦
            rw (new, loaded)
              λ h.
                let (fits, walk) = link_walks device max_headers passes s header e rest h in
                record {
                  headers = header ∷ walk.headers;
                  linked =
                      (linked, load_header→HeaderAt device s header counted loaded, walk.linked);
                  acyclic = (new, walk.acyclic);
                  inside = (fits, walk.inside);
                  short = omega arith;
                  listed = walk.listed ∙ added_partitions device s header walk.headers;
                }
      ]
    ]

loop_walks :
    (device : Device) (max_headers passes : ℕ) (s : ScanState)
    → WalksFrom device max_headers passes s
loop_walks device max_headers zero s = λ counted linked e room h. absurd (omega arith)
loop_walks device max_headers (suc passes) s =
    step_walks device max_headers passes s (loop_walks device max_headers passes)

-- the pass at LBA 0 takes the header that was checked before the loop
pub first_pass :
    (device : Device) (max_headers passes : ℕ) (header : Header)
    → scan_loop device max_headers (suc passes) (start_state header)
      ≡ linked_result device max_headers passes (start_state header) header
unfolding scan_loop scan_step load_header contains
first_pass device max_headers passes header = refl

-- the partition table that a clean scan has walked
pub record Listed (device : Device) (max_headers : ℕ) (r : ScanResult) : Type 0 where
  pub first : Header
  pub rest : List Header
  pub table : IsTable device first rest
  pub short : length (first ∷ rest) ≤ max_headers
  pub listed : r.partitions ≡ map make_partition (first ∷ rest)

mbr_walks :
    (device : Device) (passes : ℕ) (header : Header)
    → read_mbr device ≡ ok header
    → any_error (scan_loop device (suc passes) (suc passes) (start_state header)).issues ≡ false
    → Listed device (suc passes) (scan_loop device (suc passes) (suc passes) (start_state header))
mbr_walks device passes header e = rw (first_pass device (suc passes) passes header) λ h.
    let (room, at, sony) = read_mbr→HeaderAt device header e in
    let (fits, walk) =
      link_walks device (suc passes) passes (start_state header) header (omega arith)
        (loop_walks device (suc passes) passes) h in
    record {
      first = header;
      rest = walk.headers;
      table = record {
        room = room;
        mbr = at;
        signature = sony;
        linked = walk.linked;
        acyclic = walk.acyclic;
        inside = (fits, walk.inside);
      };
      short = omega arith;
      listed = walk.listed ∙ added_partitions device (start_state header) header walk.headers;
    }

-- A scan that reports no error, with room for at least one header, has listed the whole partition
-- table of the device: intact headers, joined by their links up to the end of the list, none
-- visited twice, at most `max_headers` of them, with every extent inside the device.
pub scan-Listed :
    (device : Device) (max_headers : ℕ)
    → 0 < max_headers
    → scan_ok (scan device max_headers) ≡ true
    → Listed device max_headers (scan device max_headers)
unfolding scan_ok
scan-Listed device zero room = λ h. absurd (omega arith)
scan-Listed device (suc n) room = elim (Result-cases (read_mbr device)) [
  | inr (message, bad) ↦ rw (scan_of_err device (suc n) bad) λ h. cc h
  | inl (header, e) ↦
      rw (scan_of_ok device (suc n) e) λ h. mbr_walks device n header e (ground arith)
]
