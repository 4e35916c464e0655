-- ===== src/ReadCache.antt =====
-- include/ps2hdd/read_cache_block_device.hpp: a cache of 4 KiB pages before a block device. The map of
-- the pages is an association list; which page `pages_.begin()` is, the source leaves to
-- std::unordered_map, so its place is an argument. A counter is a 64-bit atomic: its sum wraps.
pub mod Steps
pub mod Coherent
pub mod CachedRead
use ps2_driveforge.Base.{
  ℕ, zero, suc, ◌+◌, ◌-◌, ◌*◌, ◌/◌, ◌%◌, ◌^◌, Bool, true, false, not, ◌&&◌, ◌||◌, Option, none,
  some, List, [], ◌∷◌, ◌++◌, length, take, drop, replicate, ltb, leb, ◌==◌, if◌then◌else◌, min,
}
use ps2_driveforge.Device.{Device, slice}

abbrev pub page_size : ℕ
page_size = 4096

abbrev pub direct_read_threshold : ℕ
direct_read_threshold = 1024

abbrev pub max_pages : ℕ
max_pages = 4096

pub record ReadCacheStats : Type 0 where
  pub hits : ℕ
  pub misses : ℕ
  pub evictions : ℕ
  pub bypass_reads : ℕ
  pub bytes_served : ℕ
  pub fill_bytes : ℕ

abbrev pub no_stats : ReadCacheStats
no_stats = record {
  hits = 0;
  misses = 0;
  evictions = 0;
  bypass_reads = 0;
  bytes_served = 0;
  fill_bytes = 0;
}

-- `bytes` holds a whole page, of which the first `valid` were read
pub record Page : Type 0 where
  pub bytes : List ℕ
  pub valid : ℕ

pub record Entry : Type 0 where
  pub index : ℕ
  pub page : Page

pub record ReadCache : Type 0 where
  pub inner : Device
  pub pages : List Entry
  pub stats : ReadCacheStats

-- fetch_add on a counter
abbrev pub bump : ℕ → ℕ → ℕ
bump counter n = (counter + n) % 2 ^ 64

abbrev pub with_stats : ReadCache → ReadCacheStats → ReadCache
with_stats c stats = record c { stats = stats }

unfoldable pub find_page : List Entry → ℕ → Option Page
find_page [] index = none
find_page (e ∷ es) index =
    let rest = find_page es index in if e.index == index then some e.page else rest

unfoldable pub insert_or_assign : List Entry → ℕ → Page → List Entry
insert_or_assign [] index page = record { index = index; page = page } ∷ []
insert_or_assign (e ∷ es) index page =
    let rest = insert_or_assign es index page in
    if e.index == index then record e { page = page } ∷ es else e ∷ rest

-- the map without the entry at a place
unfoldable pub erase_at : ℕ → List Entry → List Entry
erase_at k [] = []
erase_at zero (e ∷ es) = es
erase_at (suc k) (e ∷ es) = e ∷ erase_at k es

abbrev pub page_start : ℕ → ℕ
page_start offset = offset - offset % page_size

-- a read that does not go through a page
unfoldable pub is_direct : ℕ → ℕ → Bool
is_direct offset n =
    leb direct_read_threshold n
    || not ((offset + n - 1) / page_size == page_start offset / page_size)

-- the section under the shared lock
unfoldable pub lookup : ReadCache → ℕ → ℕ → Option (List ℕ)
lookup c offset n = elim (find_page c.pages (page_start offset / page_size)) [
  | none ↦ none
  | some page ↦
      if leb (offset - page_start offset + n) page.valid
      then some (slice page.bytes (offset - page_start offset) n)
      else none
]

-- the page that is read from the inner device
unfoldable pub load_page : Device → ℕ → Option Page
load_page inner start =
    let valid = min page_size (inner.size_bytes - start) in
    elim (inner.read start valid) [
      | none ↦ none
      | some bytes ↦
          some (record { bytes = bytes ++ replicate (page_size - valid) 0; valid = valid })
    ]

abbrev pub contains_page : List Entry → ℕ → Bool
contains_page pages index = elim (find_page pages index) [ none ↦ false | some page ↦ true ]

-- the section under the unique lock; `begin pages` is the place of the entry that begin() names
unfoldable pub store_page : (List Entry → ℕ) → ReadCache → ℕ → Page → ReadCache
store_page begin c index page =
    if not (contains_page c.pages index)
      && (leb max_pages (length c.pages) && not (length c.pages == 0))
    then record c {
      pages = insert_or_assign (erase_at (begin c.pages) c.pages) index page;
      stats = record c.stats { evictions = bump c.stats.evictions 1 };
    }
    else record c { pages = insert_or_assign c.pages index page }

abbrev pub count_bypass : ReadCache → ReadCache
count_bypass c = with_stats c (record c.stats { bypass_reads = bump c.stats.bypass_reads 1 })

abbrev pub count_hit : ReadCache → ℕ → ReadCache
count_hit c n =
    with_stats c
      (record c.stats { hits = bump c.stats.hits 1; bytes_served = bump c.stats.bytes_served n })

abbrev pub count_miss : ReadCache → ReadCache
count_miss c = with_stats c (record c.stats { misses = bump c.stats.misses 1 })

abbrev pub count_fill : ReadCache → ℕ → ReadCache
count_fill c valid = with_stats c (record c.stats { fill_bytes = bump c.stats.fill_bytes valid })

abbrev pub count_served : ReadCache → ℕ → ReadCache
count_served c n = with_stats c (record c.stats { bytes_served = bump c.stats.bytes_served n })

-- a read whose page was loaded
unfoldable pub serve_loaded :
    (List Entry → ℕ) → ReadCache → ℕ → ℕ → Page → Option (List ℕ) × ReadCache
serve_loaded begin c offset n page =
    let in_page = offset - page_start offset in
    if ltb page.valid (in_page + n) then (none, c) else (
      some (slice page.bytes in_page n),
      store_page begin (count_served c n) (page_start offset / page_size) page,
    )

unfoldable pub read_through : (List Entry → ℕ) → ReadCache → ℕ → ℕ → Option (List ℕ) × ReadCache
read_through begin c offset n = elim (load_page c.inner (page_start offset)) [
  | none ↦ (none, c)
  | some page ↦ serve_loaded begin (count_fill c page.valid) offset n page
]

unfoldable pub read_page : (List Entry → ℕ) → ReadCache → ℕ → ℕ → Option (List ℕ) × ReadCache
read_page begin c offset n = elim (lookup c offset n) [
  | some bytes ↦ (some bytes, count_hit c n)
  | none ↦ read_through begin (count_miss c) offset n
]

unfoldable pub read_cached : (List Entry → ℕ) → ReadCache → ℕ → ℕ → Option (List ℕ) × ReadCache
read_cached begin c offset n =
    if ltb c.inner.size_bytes offset || ltb (c.inner.size_bytes - offset) n
    then (none, c)
    else if n == 0
    then (some [], c)
    else if is_direct offset n
    then (c.inner.read offset n, count_bypass c)
    else read_page begin c offset n

abbrev pub reset_stats : ReadCache → ReadCache
reset_stats c = with_stats c no_stats

abbrev pub clear : ReadCache → ReadCache
clear c = record c { pages = [] }
