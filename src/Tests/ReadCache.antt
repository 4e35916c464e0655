-- ===== src/Tests/ReadCache.antt =====
-- A cache before a small disk.
use ps2_driveforge.Base.{ℕ, ◌+◌, ◌≤◌, ◌≡◌, refl, some, List, [], ◌++◌, length, arith, replicate}
use ps2_driveforge.Base.Bytes.{codes}
use ps2_driveforge.Device.{slice}
use ps2_driveforge.ReadCache.{
  Page, Entry, ReadCache, no_stats, find_page, insert_or_assign, erase_at, is_direct, lookup,
  load_page, store_page, serve_loaded, read_through, read_page, read_cached, clear,
}
use ps2_driveforge.ReadCache.Steps.{stored, cleared, here, next}
use ps2_driveforge.ReadCache.Coherent.{IsBegin, IsCoherent, Run-IsCoherent}
use ps2_driveforge.ReadCache.CachedRead.{read_cached-exact, read_cached_succeeds}
use ps2_driveforge.Tests.Disk.{disk, image_of, disk-Mirrors, disk-IsReliable, zeros}

program : Unit {0}
unfolding disk find_page insert_or_assign erase_at is_direct lookup load_page store_page
    serve_loaded read_through read_page read_cached
program = tt

abbrev bytes : List ℕ
bytes = zeros 100 ++ codes "cached" ++ zeros 1000

abbrev empty : ReadCache
empty = record { inner = disk 0 bytes; pages = []; stats = no_stats }

abbrev first_page : Page
first_page = record { bytes = bytes ++ replicate 2990 0; valid = 1106 }

abbrev begin : List Entry → ℕ
begin pages = 0

begin-IsBegin : IsBegin begin
begin-IsBegin = λ pages h. h

empty-IsCoherent : IsCoherent (image_of 0 bytes) empty
empty-IsCoherent = record { mirrors = disk-Mirrors 0 bytes; pages = tt; bounded = omega arith }

first_loaded : load_page empty.inner 0 ≡ some first_page
unfolding program
first_loaded = refl

-- the second read is a hit
hit_counted : (read_cached begin (read_cached begin empty 100 6).1 102 4).1.stats.hits ≡ 1
unfolding program
hit_counted = refl

hit_read : (read_cached begin (read_cached begin empty 100 6).1 102 4).0 ≡ some (codes "ched")
unfolding program
hit_read = refl

Run-IsCoherent_example : IsCoherent (image_of 0 bytes) (clear (store_page begin empty 0 first_page))
Run-IsCoherent_example =
    Run-IsCoherent begin (image_of 0 bytes) empty (clear (store_page begin empty 0 first_page))
      begin-IsBegin empty-IsCoherent
      (next (next here (stored empty 0 first_page first_loaded))
        (cleared (store_page begin empty 0 first_page)))

read_cached-exact_example :
    IsCoherent (image_of 0 bytes) (read_cached begin empty 100 6).1
    × ((out : List ℕ)
        → (read_cached begin empty 100 6).0 ≡ some out
        → (out ≡ slice (image_of 0 bytes) 100 6) × (100 + 6 ≤ length (image_of 0 bytes)))
read_cached-exact_example =
    read_cached-exact begin (image_of 0 bytes) empty 100 6 begin-IsBegin empty-IsCoherent

inside : 100 + 6 ≤ empty.inner.size_bytes
unfolding program
inside = omega arith

read_cached_succeeds_example : (out : List ℕ) × ((read_cached begin empty 100 6).0 ≡ some out)
read_cached_succeeds_example = read_cached_succeeds begin empty 100 6 inside (disk-IsReliable bytes)
