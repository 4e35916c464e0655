-- ===== src/ReadCache/CachedRead.antt =====
-- A coherent cache answers like the device behind it.
use mathlib.Core.Option.{some-injective}
use ps2_driveforge.Base.{
  ℕ, ◌+◌, ◌-◌, ◌*◌, ◌/◌, ◌≤◌, ◌<◌, ◌≡◌, refl, ap, sym, ◌∙◌, false, ◌||◌, Option, some, List, [],
  length, min, ltb, leb, ◌==◌, arith, Bool-cases, Option-cases, inl, inr,
}
use ps2_driveforge.Device.{IsReliable, slice}
use ps2_driveforge.ReadCache.{
  page_size, page_start, Page, Entry, ReadCache, find_page, is_direct, lookup, load_page,
  count_miss, count_fill, serve_loaded, read_through, read_page, read_cached,
}
use ps2_driveforge.ReadCache.Steps.{read_cached-Run}
use ps2_driveforge.ReadCache.Coherent.{
  IsBegin, IsPage, IsCoherent, load_page-IsPage, find_page-IsPage, Run-IsCoherent,
}

abbrev page_of : ℕ → ℕ
page_of offset = page_start offset / page_size

page_start-eq : (offset : ℕ) → page_of offset * page_size ≡ page_start offset
page_start-eq offset = omega arith

in_page-eq : (offset : ℕ) → page_of offset * page_size + (offset - page_start offset) ≡ offset
in_page-eq offset = omega arith

-- a part of a page is a part of the image
page-slice :
    (image : List ℕ) (page : Page) (offset n : ℕ)
    → IsPage image (page_of offset) page
    → offset - page_start offset + n ≤ page.valid
    → slice page.bytes (offset - page_start offset) n ≡ slice image offset n
page-slice image page offset n p h =
    p.same (offset - page_start offset) n h ∙ ap (λ (o : ℕ). slice image o n) (in_page-eq offset)

-- What a lookup finds, in any state that the readers have reached, stands in the image.
pub lookup-exact :
    (image : List ℕ) (c : ReadCache) (offset n : ℕ) (bytes : List ℕ)
    → IsCoherent image c
    → lookup c offset n ≡ some bytes
    → bytes ≡ slice image offset n
unfolding lookup
lookup-exact image c offset n bytes h = elim (Option-cases (find_page c.pages (page_of offset))) [
  | inl absent ↦ rw (absent, lookup) λ e. cc
  | inr (page, found) ↦ elim (Bool-cases (leb (offset - page_start offset + n) page.valid)) [
    | inr short ↦ rw (found, lookup, short) λ e. cc
    | inl enough ↦
        rw (found, lookup, enough)
          λ e.
            let le : offset - page_start offset + n ≤ page.valid = ground arith in
            sym (some-injective _ _ e)
            ∙ page-slice image page offset n
                (find_page-IsPage image c.pages (page_of offset) page h.pages found) le
  ]
]

module _ (begin : List Entry → ℕ) (image : List ℕ) where
  serve_loaded-exact :
      (c : ReadCache) (offset n : ℕ) (page : Page) (bytes : List ℕ)
      → IsPage image (page_of offset) page
      → (serve_loaded begin c offset n page).0 ≡ some bytes
      → bytes ≡ slice image offset n
  unfolding serve_loaded
  serve_loaded-exact c offset n page bytes p =
      elim (Bool-cases (ltb page.valid (offset - page_start offset + n))) [
        | inl short ↦ rw short λ e. cc
        | inr enough ↦ rw enough λ e.
            let le : offset - page_start offset + n ≤ page.valid = ground arith in
            sym (some-injective _ _ e) ∙ page-slice image page offset n p le
      ]

  read_page-exact :
      (c : ReadCache) (offset n : ℕ) (bytes : List ℕ)
      → IsCoherent image c
      → (read_page begin c offset n).0 ≡ some bytes
      → bytes ≡ slice image offset n
  unfolding read_page read_through
  read_page-exact c offset n bytes h = elim (Option-cases (lookup c offset n)) [
    | inr (found, hit) ↦
        rw (hit, read_page)
          λ e. sym (some-injective _ _ e) ∙ lookup-exact image c offset n found h hit
    | inl miss ↦ elim (Option-cases (load_page c.inner (page_start offset))) [
      | inl bad ↦ rw (miss, read_page, read_through, bad) λ e. cc
      | inr (page, loaded) ↦
          rw (miss, read_page, read_through, loaded)
            λ e.
              serve_loaded-exact (count_fill (count_miss c) page.valid) offset n page bytes
                (load_page-IsPage c.inner image (page_of offset) page h.mirrors
                  (rw (page_start-eq offset) loaded))
                e
    ]
  ]

  answer-exact :
      (c : ReadCache) (offset n : ℕ) (bytes : List ℕ)
      → IsCoherent image c
      → (read_cached begin c offset n).0 ≡ some bytes
      → (bytes ≡ slice image offset n) × (offset + n ≤ length image)
  unfolding read_cached
  answer-exact c offset n bytes h =
      let size = h.mirrors.size in
      elim (Bool-cases (ltb c.inner.size_bytes offset || ltb (c.inner.size_bytes - offset) n)) [
        | inl outside ↦ rw outside λ e. cc
        | inr inside ↦
            let fits : offset + n ≤ length image = ground arith in
            elim (Bool-cases (n == 0)) [
              | inl empty ↦
                  rw (inside, empty)
                    λ e.
                      let nothing : n ≡ 0 = ground arith in
                      (sym (some-injective _ _ e) ∙ ap (slice image offset) (sym nothing), fits)
              | inr some_bytes ↦ elim (Bool-cases (is_direct offset n)) [
                | inl direct ↦ rw (inside, some_bytes, direct) λ e. h.mirrors.exact offset n bytes e
                | inr paged ↦
                    rw (inside, some_bytes, paged) λ e. (read_page-exact c offset n bytes h e, fits)
              ]
            ]
      ]

-- A read of a coherent cache gives what the device holds, and leaves the cache coherent: a hit, a
-- page that is loaded, an eviction and a read past the cache are not told apart.
pub read_cached-exact :
    (begin : List Entry → ℕ) (image : List ℕ) (c : ReadCache) (offset n : ℕ)
    → IsBegin begin
    → IsCoherent image c
    → IsCoherent image (read_cached begin c offset n).1
      × ((bytes : List ℕ)
          → (read_cached begin c offset n).0 ≡ some bytes
          → (bytes ≡ slice image offset n) × (offset + n ≤ length image))
read_cached-exact begin image c offset n first h = (
  Run-IsCoherent begin image c _ first h (read_cached-Run begin c offset n),
  (λ bytes e. answer-exact begin image c offset n bytes h e),
)

in_one_page :
    (offset n size : ℕ)
    → 0 < n
    → is_direct offset n ≡ false
    → offset + n ≤ size
    → offset - page_start offset + n ≤ min page_size (size - page_start offset)
unfolding is_direct
in_one_page offset n size some_bytes paged fits =
    let same : (offset + n - 1) / page_size ≡ page_start offset / page_size = ground arith in
    omega arith

-- the answer of a read on which nothing failed
abbrev IsAnswered : Option (List ℕ) × ReadCache → Type 0
IsAnswered r = (bytes : List ℕ) × (r.0 ≡ some bytes)

module _ (begin : List Entry → ℕ) (c : ReadCache) (offset n : ℕ)
    (fits : offset + n ≤ c.inner.size_bytes) (reliable : IsReliable c.inner) where
  -- a page read in full holds the range
  page-answers : (0 < n) → is_direct offset n ≡ false → IsAnswered (read_page begin c offset n)
  unfolding read_page read_through load_page serve_loaded
  page-answers some_bytes paged =
      let valid = min page_size (c.inner.size_bytes - page_start offset) in
      let (bytes, found) = reliable (page_start offset) valid (omega arith) in
      let in_page : offset - page_start offset + n ≤ valid =
        in_one_page offset n c.inner.size_bytes some_bytes paged fits in
      let enough : ltb valid (offset - page_start offset + n) ≡ false = ground arith in
      elim (Option-cases (lookup c offset n)) [
        | inr (cached, hit) ↦ rw (hit, read_page) (cached, refl)
        | inl miss ↦ rw (miss, read_page, read_through, load_page, found, enough) (_, refl)
      ]

  -- On a device that does not fail, every read inside it is answered, whatever the cache holds.
  pub read_cached_succeeds : IsAnswered (read_cached begin c offset n)
  unfolding read_cached
  read_cached_succeeds =
      let inside : (ltb c.inner.size_bytes offset || ltb (c.inner.size_bytes - offset) n) ≡ false =
        ground arith in
      elim (Bool-cases (n == 0)) [
        | inl empty ↦ rw (inside, empty) ([], refl)
        | inr some_bytes ↦ elim (Bool-cases (is_direct offset n)) [
          | inl direct ↦ rw (inside, some_bytes, direct) (reliable offset n fits)
          | inr paged ↦ rw (inside, some_bytes, paged) (page-answers (ground arith) paged)
        ]
      ]
