-- ===== src/Hdl/StoredGame.antt =====
-- Which partitions `read_game_info` of core/hdl.cpp reads, and what it gives for them.
use ps2_driveforge.Base.{
  ℕ, ◌+◌, ◌-◌, ◌*◌, ◌/◌, ◌%◌, ◌||◌, ltb, leb, ◌^◌, ◌≤◌, ◌<◌, ◌≡◌, refl, ap, ◌∙◌, sym, inl, inr,
  List, true, false, some, none, arith, ok, Result-cases, ◌==◌, min, >>=-eq-ok,
}
use ps2_driveforge.Base.Bytes.{byte_at, load_u16_le, load_u32_le, word_total}
use ps2_driveforge.Device.{Device}
use ps2_driveforge.Apa.Header.{Partition, is_sub, size_bytes, range_fits, sector_size, type_hdl}
use ps2_driveforge.Hdl.Game.{
  metadata_offset, metadata_bytes, game_magic, title_offset, title_storage, startup_offset,
  startup_storage, compat_offset, dma_offset, layer_break_offset, media_offset,
  max_allocation_entries, GameInfo, title_of, startup_of, declared_of, media_of, raw_units_of,
  start_game, finish_game, parse_game, locate_metadata, read_metadata_of, read_game_info,
  with_fields,
}
use ps2_driveforge.Hdl.Strings.{
  IsString, read_c_string-IsString, IsString→read_c_string, entry_length, sum_units-eq,
}

abbrev metadata_start : Partition → ℕ
metadata_start partition = partition.start_lba * sector_size + metadata_offset

-- a main HDL partition whose metadata lies inside it and inside the device
pub record HasRoom (device : Device) (partition : Partition) : Type 0 where
  pub main : is_sub partition ≡ false
  pub typed : partition.type ≡ type_hdl
  pub in_extent : metadata_offset + metadata_bytes ≤ partition.length_sectors * sector_size
  pub addressable : metadata_start partition < 2 ^ 64
  pub in_device : metadata_start partition + metadata_bytes ≤ device.size_bytes

-- the metadata of a game, as it is stored
pub record IsGame (device : Device) (partition : Partition) (bytes title startup : List ℕ)
    : Type 0 where
  pub room : HasRoom device partition
  pub stored : device.read (metadata_start partition) metadata_bytes ≡ some bytes
  pub marked : load_u32_le bytes 0 ≡ game_magic
  pub titled : IsString bytes title_storage title_offset title
  pub started : IsString bytes startup_storage startup_offset startup
  pub some_parts : 1 ≤ declared_of bytes
  pub few_parts : declared_of bytes ≤ max_allocation_entries

locate_metadata-HasRoom :
    (device : Device) (partition : Partition) (offset : ℕ)
    → locate_metadata device partition ≡ ok offset
    → HasRoom device partition × (offset ≡ metadata_start partition)
unfolding locate_metadata range_fits
locate_metadata-HasRoom device partition offset h = (
  record {
    main = ground arith;
    typed = ground arith;
    in_extent = ground arith;
    addressable = ground arith;
    in_device = ground arith;
  },
  ground arith,
)

HasRoom→locate_metadata :
    (device : Device) (partition : Partition)
    → HasRoom device partition
    → locate_metadata device partition ≡ ok (metadata_start partition)
unfolding locate_metadata range_fits
HasRoom→locate_metadata device partition r =
    let a = r.main in
    let b = r.typed in
    let c = r.in_extent in let d = r.addressable in let e = r.in_device in ground arith

-- the sum of the allocation table fits: at most 65 entries of 32 bits
pub raw_units-small :
    (bytes : List ℕ)
    → declared_of bytes ≤ max_allocation_entries
    → (raw_units_of bytes ≡ word_total (entry_length bytes) (declared_of bytes) 0)
      × (raw_units_of bytes ≤ max_allocation_entries * 2 ^ 32)
raw_units-small bytes few =
    let (e, le) = sum_units-eq bytes (declared_of bytes) 0 0 (omega arith) in
    (omega arith, omega arith)

-- the game that an intact metadata header describes
abbrev pub described : Partition → List ℕ → List ℕ → List ℕ → GameInfo
described partition bytes title startup = record {
  partition_id = partition.id;
  title = title;
  startup = startup;
  start_lba = partition.start_lba;
  compat_flags = byte_at bytes compat_offset;
  dma = load_u16_le bytes dma_offset;
  layer_break = load_u32_le bytes layer_break_offset;
  media = media_of (load_u32_le bytes media_offset);
  declared_parts = declared_of bytes;
  raw_size_bytes = word_total (entry_length bytes) (declared_of bytes) 0 * 256;
  allocated_size_bytes = size_bytes partition;
  allocation_table_consistent =
      declared_of bytes == min ((partition.sub_count + 1) % 2 ^ 32) max_allocation_entries;
}

finished :
    (partition : Partition) (bytes title startup : List ℕ)
    → declared_of bytes ≤ max_allocation_entries
    → finish_game partition
        (with_fields (record (start_game partition) { title = title; startup = startup }) bytes)
        bytes
      ≡ record { ok = true; error = none; game = described partition bytes title startup }
unfolding finish_game start_game
finished partition bytes title startup few =
    let (e, le) = raw_units-small bytes few in
    let fits : leb (raw_units_of bytes) ((2 ^ 64 - 1) / 256) ≡ true = ground arith in
    let whole : (raw_units_of bytes * 256) % 2 ^ 64
        ≡ word_total (entry_length bytes) (declared_of bytes) 0 * 256 =
      omega arith in
    rw (fits, whole) refl

parsed :
    (device : Device) (partition : Partition) (bytes title startup : List ℕ)
    → IsGame device partition bytes title startup
    → parse_game partition bytes
      ≡ record { ok = true; error = none; game = described partition bytes title startup }
unfolding parse_game
parsed device partition bytes title startup g =
    let t = IsString→read_c_string bytes title_storage title_offset title g.titled in
    let s = IsString→read_c_string bytes startup_storage startup_offset startup g.started in
    let m = g.marked in
    let a = g.some_parts in
    let b = g.few_parts in
    let marked : (load_u32_le bytes 0 == game_magic) ≡ true = ground arith in
    let counted : (declared_of bytes == 0 || ltb max_allocation_entries (declared_of bytes))
        ≡ false =
      ground arith in
    rw (marked, t, s, counted) (finished partition bytes title startup b)

parse_game-parts :
    (partition : Partition) (bytes : List ℕ)
    → (parse_game partition bytes).ok ≡ true
    → (load_u32_le bytes 0 ≡ game_magic)
      × ((title_of bytes).1 ≡ true)
      × ((startup_of bytes).1 ≡ true)
      × (1 ≤ declared_of bytes)
      × (declared_of bytes ≤ max_allocation_entries)
unfolding parse_game
parse_game-parts partition bytes h = ground arith

read_metadata_of-eq :
    (device : Device) (partition : Partition) (bytes : List ℕ)
    → read_metadata_of device partition ≡ ok bytes
    → HasRoom device partition
      × (device.read (metadata_start partition) metadata_bytes ≡ some bytes)
unfolding read_metadata_of
read_metadata_of-eq device partition bytes h =
    let (offset, located, h') = >>=-eq-ok (locate_metadata device partition) _ h in
    let (room, e) = locate_metadata-HasRoom device partition offset located in
    (room, ap (λ (o : ℕ). device.read o metadata_bytes) (sym e) ∙ ground arith)

parsed-IsGame :
    (device : Device) (partition : Partition) (bytes : List ℕ)
    → read_metadata_of device partition ≡ ok bytes
    → (parse_game partition bytes).ok ≡ true
    → IsGame device partition bytes (title_of bytes).0 (startup_of bytes).0
parsed-IsGame device partition bytes found h =
    let (room, stored) = read_metadata_of-eq device partition bytes found in
    let (marked, t, s, some_parts, few_parts) = parse_game-parts partition bytes h in
    record {
      room = room;
      stored = stored;
      marked = marked;
      titled = read_c_string-IsString bytes title_storage title_offset t;
      started = read_c_string-IsString bytes startup_storage startup_offset s;
      some_parts = some_parts;
      few_parts = few_parts;
    }

-- A game that is read without an error is stored on the device: a main HDL partition with room for
-- the metadata, in the partition and on the device, the magic, a title and a startup ID that end
-- within their storage, and 1 to 65 parts.
pub read_game_info-IsGame :
    (device : Device) (partition : Partition)
    → (read_game_info device partition).ok ≡ true
    → (bytes : List ℕ) × (title : List ℕ) × (startup : List ℕ) × IsGame device partition bytes title
        startup
unfolding read_game_info
read_game_info-IsGame device partition = elim (Result-cases (read_metadata_of device partition)) [
  | inr (e, bad) ↦ rw (bad, read_game_info) λ h. cc
  | inl (bytes, found) ↦
      rw (found, read_game_info)
        λ h. (
          bytes,
          (title_of bytes).0,
          (startup_of bytes).0,
          parsed-IsGame device partition bytes found h,
        )
]

-- Every game that is stored on the device is read, with no error, and with the fields that its
-- metadata describe. The raw size is 256 bytes for each unit of the allocation table, with no wrap.
pub read_game_info-described :
    (device : Device) (partition : Partition) (bytes title startup : List ℕ)
    → IsGame device partition bytes title startup
    → read_game_info device partition
      ≡ record { ok = true; error = none; game = described partition bytes title startup }
unfolding read_game_info read_metadata_of
read_game_info-described device partition bytes title startup g =
    let located = HasRoom→locate_metadata device partition g.room in
    let stored = g.stored in
    rw (located, read_game_info, read_metadata_of, stored)
      (parsed device partition bytes title startup g)
