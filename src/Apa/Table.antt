-- ===== src/Apa/Table.antt =====
-- What a scan promises, stated apart from the loop of core/apa.cpp: the partition table of a device
-- is the list of headers that the `next` links join, from LBA 0 to a link that is 0.
use ps2_driveforge.Base.{ℕ, ◌≤◌, ◌≡◌, ◌≢◌, true, false, some, List, [], ◌∷◌, All, arith, ok}
use ps2_driveforge.Device.{Device}
use ps2_driveforge.Apa.Header.{magic, Header, checksum, has_sony_mbr_magic, read_header}
use ps2_driveforge.Apa.Scan.{contains, ScanState, load_header, read_mbr}
use ps2_driveforge.Apa.Issues.{HeaderFits}

-- the device holds an intact header at this LBA
pub record HeaderAt (device : Device) (lba : ℕ) (header : Header) : Type 0 where
  pub stored : read_header device lba ≡ some header
  pub magic_matches : header.magic ≡ magic
  pub checksum_matches : checksum header ≡ header.checksum

-- the headers that follow a link, up to the end of the list; a link that is 0 ends it
abbrev pub Follows : Device → ℕ → List Header → Type 0
Follows device link [] = link ≡ 0
Follows device link (h ∷ hs) = (link ≢ 0) × HeaderAt device link h × Follows device h.next hs

-- no LBA on the way is among those before it
abbrev pub NeverReturns : List ℕ → ℕ → List Header → Type 0
NeverReturns seen lba [] = Unit
NeverReturns seen lba (h ∷ hs) = (contains seen lba ≡ false) × NeverReturns (lba ∷ seen) h.next hs

-- the partition table: `headers` are all its headers, in the order of the list
pub record IsTable (device : Device) (first : Header) (rest : List Header) : Type 0 where
  pub room : 1024 ≤ device.size_bytes
  pub mbr : HeaderAt device 0 first
  pub signature : has_sony_mbr_magic first ≡ true
  pub linked : Follows device first.next rest
  pub acyclic : NeverReturns (0 ∷ []) first.next rest
  pub inside : HeaderFits device.size_bytes first × All (HeaderFits device.size_bytes) rest

-- a header is accepted past LBA 0 exactly where it is stored there intact
pub load_header→HeaderAt :
    (device : Device) (s : ScanState) (header : Header)
    → s.count ≢ 0
    → load_header device s ≡ ok header
    → HeaderAt device s.current_lba header
unfolding load_header
load_header→HeaderAt device s header n e = ground arith

pub HeaderAt→load_header :
    (device : Device) (s : ScanState) (header : Header)
    → s.count ≢ 0
    → HeaderAt device s.current_lba header
    → load_header device s ≡ ok header
unfolding load_header
HeaderAt→load_header device s header n at = ground arith

pub read_mbr→HeaderAt :
    (device : Device) (header : Header)
    → read_mbr device ≡ ok header
    → (1024 ≤ device.size_bytes) × HeaderAt device 0 header × (has_sony_mbr_magic header ≡ true)
unfolding read_mbr
read_mbr→HeaderAt device header e = ground arith

pub HeaderAt→read_mbr :
    (device : Device) (header : Header)
    → 1024 ≤ device.size_bytes
    → HeaderAt device 0 header
    → has_sony_mbr_magic header ≡ true
    → read_mbr device ≡ ok header
unfolding read_mbr
HeaderAt→read_mbr device header room at sony = ground arith
