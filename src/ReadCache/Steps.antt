-- ===== src/ReadCache/Steps.antt =====
-- The sections of a cache that threads may interleave, as steps: a lookup changes nothing, the
-- counters are atomics of their own, and a page that any reader has loaded may be stored at any later
-- time, whatever the other threads did in between.
use ps2_driveforge.Base.{
  ℕ, ◌*◌, ◌/◌, ◌≡◌, List, some, Option-cases, Bool-cases, inl, inr, ltb, ◌+◌, ◌-◌, ◌||◌, ◌==◌,
  arith,
}
use ps2_driveforge.ReadCache.{
  page_size, page_start, Entry, Page, ReadCache, ReadCacheStats, with_stats, is_direct, lookup,
  load_page, store_page, count_miss, count_fill, serve_loaded, read_through, read_page, read_cached,
  clear,
}

pub data Step (begin : List Entry → ℕ) : ReadCache → ReadCache → Type 0 where
  counted : (c : ReadCache) (stats : ReadCacheStats) → Step begin c (with_stats c stats)
  stored :
      (c : ReadCache) (index : ℕ) (page : Page)
      → load_page c.inner (index * page_size) ≡ some page
      → Step begin c (store_page begin c index page)
  cleared : (c : ReadCache) → Step begin c (clear c)

pub data Run (begin : List Entry → ℕ) (c : ReadCache) : ReadCache → Type 0 where
  here : Run begin c c
  next : {d e : ReadCache} → Run begin c d → Step begin d e → Run begin c e

whole_page : (offset : ℕ) → page_start offset / page_size * page_size ≡ page_start offset
whole_page offset = omega arith

module _ (begin : List Entry → ℕ) where
  serve_loaded-Run :
      (c d : ReadCache) (offset n : ℕ) (page : Page)
      → Run begin c d
      → load_page d.inner (page_start offset) ≡ some page
      → Run begin c (serve_loaded begin d offset n page).1
  unfolding serve_loaded
  serve_loaded-Run c d offset n page run loaded =
      elim (Bool-cases (ltb page.valid (offset - page_start offset + n))) [
        | inl short ↦ rw short run
        | inr enough ↦ rw enough (
            next (next run (counted d _))
              (stored _ (page_start offset / page_size) page (rw (whole_page offset) loaded)))
      ]

  read_page-Run : (c : ReadCache) (offset n : ℕ) → Run begin c (read_page begin c offset n).1
  unfolding read_page read_through
  read_page-Run c offset n = elim (Option-cases (lookup c offset n)) [
    | inr (bytes, hit) ↦ rw (hit, read_page) (next here (counted c _))
    | inl miss ↦ elim (Option-cases (load_page c.inner (page_start offset))) [
      | inl bad ↦ rw (miss, read_page, read_through, bad) (next here (counted c _))
      | inr (page, loaded) ↦
          rw (miss, read_page, read_through, loaded)
            (serve_loaded-Run c (count_fill (count_miss c) page.valid) offset n page
              (next (next here (counted c _))
                (counted (count_miss c) (count_fill (count_miss c) page.valid).stats))
              loaded)
    ]
  ]

  -- a read is such steps, one after the other
  pub read_cached-Run :
      (c : ReadCache) (offset n : ℕ) → Run begin c (read_cached begin c offset n).1
  unfolding read_cached
  read_cached-Run c offset n =
      elim (Bool-cases (ltb c.inner.size_bytes offset || ltb (c.inner.size_bytes - offset) n)) [
        | inl outside ↦ rw outside here
        | inr inside ↦ elim (Bool-cases (n == 0)) [
          | inl empty ↦ rw (inside, empty) here
          | inr some_bytes ↦ elim (Bool-cases (is_direct offset n)) [
            | inl direct ↦ rw (inside, some_bytes, direct) (next here (counted c _))
            | inr paged ↦ rw (inside, some_bytes, paged) (read_page-Run c offset n)
          ]
        ]
      ]
