-- ===== src/ReadCache/Coherent.antt =====
-- The pages of a cache hold the bytes of the device, and there are at most `max_pages` of them,
-- however the steps of its readers interleave.
use mathlib.Core.Option.{some-injective}
use ps2_driveforge.Base.{
  subst₂, ℕ, zero, suc, ◌+◌, ◌-◌, ◌*◌, ◌≤◌, ◌<◌, ◌≡◌, refl, ap, sym, ◌∙◌, subst, true, false, not,
  ◌&&◌, some, List, [], ◌∷◌, ◌++◌, length, drop, min, leb, ◌==◌, All, arith, Bool-cases,
  Option-cases, inl, inr, length-take, length-drop,
}
use ps2_driveforge.Base.Slices.{slice-append, slice-slice}
use ps2_driveforge.Device.{Device, Mirrors, slice}
use ps2_driveforge.ReadCache.{
  page_size, max_pages, Page, Entry, ReadCache, find_page, insert_or_assign, erase_at, load_page,
  contains_page, store_page,
}
use ps2_driveforge.ReadCache.Steps.{Step, counted, stored, cleared, Run, here, next}

-- what begin() promises: the place of an entry, where there is one
abbrev pub IsBegin : (List Entry → ℕ) → Type 0
IsBegin begin = (pages : List Entry) → 0 < length pages → begin pages < length pages

-- the page holds the bytes of the image from its start
pub record IsPage (image : List ℕ) (index : ℕ) (page : Page) : Type 0 where
  pub filled : page.valid ≡ min page_size (length image - index * page_size)
  pub same :
      (o n : ℕ) → o + n ≤ page.valid → slice page.bytes o n ≡ slice image (index * page_size + o) n

-- the invariant of a cache before a device that stands for `image`
pub record IsCoherent (image : List ℕ) (c : ReadCache) : Type 0 where
  pub mirrors : Mirrors c.inner image
  pub pages : All (λ (e : Entry). IsPage image e.index e.page) c.pages
  pub bounded : length c.pages ≤ max_pages

read-IsPage :
    (device : Device) (image : List ℕ) (index : ℕ) (bytes pad : List ℕ)
    → Mirrors device image
    → device.read (index * page_size) (min page_size (device.size_bytes - index * page_size))
      ≡ some bytes
    → IsPage image index (record {
      bytes = bytes ++ pad;
      valid = min page_size (device.size_bytes - index * page_size);
    })
read-IsPage device image index bytes pad m h =
    let valid = min page_size (device.size_bytes - index * page_size) in
    let (exact, inside) = m.exact (index * page_size) valid bytes h in
    let size = m.size in
    let full : length bytes ≡ valid =
      ap length exact
      ∙ omega (
        arith,
        length-take valid (drop (index * page_size) image),
        length-drop (index * page_size) image,
      ) in
    record {
      filled = omega arith;
      same = λ o n le.
          slice-append bytes pad o n (omega arith)
          ∙ ap (λ (b : List ℕ). slice b o n) exact
          ∙ slice-slice image (index * page_size) valid o n le;
    }

pub load_page-IsPage :
    (device : Device) (image : List ℕ) (index : ℕ) (page : Page)
    → Mirrors device image
    → load_page device (index * page_size) ≡ some page
    → IsPage image index page
unfolding load_page
load_page-IsPage device image index page m =
    elim (Option-cases
      (device.read (index * page_size) (min page_size (device.size_bytes - index * page_size)))) [
        | inl bad ↦ rw (bad, load_page) λ h. cc
        | inr (bytes, found) ↦
            rw (found, load_page)
              λ h.
                subst (IsPage image index) (some-injective _ _ h)
                  (read-IsPage device image index bytes _ m found)
      ]

==-eq : (a b : ℕ) → (a == b) ≡ true → a ≡ b
==-eq a b h = ground arith

pub find_page-IsPage :
    (image : List ℕ) (pages : List Entry) (index : ℕ) (page : Page)
    → All (λ (e : Entry). IsPage image e.index e.page) pages
    → find_page pages index ≡ some page
    → IsPage image index page
unfolding find_page
find_page-IsPage image [] index page all = λ h. cc
find_page-IsPage image (e ∷ es) index page all = elim (Bool-cases (e.index == index)) [
  | inl same ↦
      rw same λ h. subst₂ (IsPage image) (==-eq e.index index same) (some-injective _ _ h) all.0
  | inr differs ↦ rw differs λ h. find_page-IsPage image es index page all.1 h
]

insert_or_assign-IsPage :
    (image : List ℕ) (pages : List Entry) (index : ℕ) (page : Page)
    → IsPage image index page
    → All (λ (e : Entry). IsPage image e.index e.page) pages
    → All (λ (e : Entry). IsPage image e.index e.page) (insert_or_assign pages index page)
unfolding insert_or_assign
insert_or_assign-IsPage image [] index page new all = (new, tt)
insert_or_assign-IsPage image (e ∷ es) index page new all = elim (Bool-cases (e.index == index)) [
  | inl same ↦
      rw same (subst (λ (i : ℕ). IsPage image i page) (sym (==-eq e.index index same)) new, all.1)
  | inr differs ↦ rw differs (all.0, insert_or_assign-IsPage image es index page new all.1)
]

erase_at-IsPage :
    (image : List ℕ) (k : ℕ) (pages : List Entry)
    → All (λ (e : Entry). IsPage image e.index e.page) pages
    → All (λ (e : Entry). IsPage image e.index e.page) (erase_at k pages)
unfolding erase_at
erase_at-IsPage image k [] all = tt
erase_at-IsPage image zero (e ∷ es) all = all.1
erase_at-IsPage image (suc k) (e ∷ es) all = (all.0, erase_at-IsPage image k es all.1)

length-erase_at :
    (k : ℕ) (pages : List Entry) → k < length pages → length (erase_at k pages) + 1 ≡ length pages
unfolding erase_at
length-erase_at k [] h = absurd (omega arith)
length-erase_at zero (e ∷ es) h = omega arith
length-erase_at (suc k) (e ∷ es) h = omega (arith, length-erase_at k es (omega arith))

length-insert_or_assign-le :
    (pages : List Entry) (index : ℕ) (page : Page)
    → length (insert_or_assign pages index page) ≤ length pages + 1
unfolding insert_or_assign
length-insert_or_assign-le [] index page = omega arith
length-insert_or_assign-le (e ∷ es) index page =
    ground (arith, length-insert_or_assign-le es index page)

contains_later :
    (e : Entry) (es : List Entry) (index : ℕ)
    → (e.index == index) ≡ false
    → contains_page (e ∷ es) index ≡ contains_page es index
unfolding find_page
contains_later e es index h = rw (contains_page, find_page, h) refl

-- a page that is there keeps its place
length-assign :
    (pages : List Entry) (index : ℕ) (page : Page)
    → contains_page pages index ≡ true
    → length (insert_or_assign pages index page) ≡ length pages
unfolding insert_or_assign find_page
length-assign [] index page h = cc
length-assign (e ∷ es) index page h = elim (Bool-cases (e.index == index)) [
  | inl same ↦ rw same refl
  | inr differs ↦
      rw differs
        (ap suc (length-assign es index page (sym (contains_later e es index differs) ∙ h)))
]

room_left :
    (pages : List Entry) (index : ℕ) (page : Page)
    → length pages ≤ max_pages
    → (not (contains_page pages index) && (leb max_pages (length pages) && not (length pages == 0)))
      ≡ false
    → length (insert_or_assign pages index page) ≤ max_pages
room_left pages index page bounded free = elim (Bool-cases (contains_page pages index)) [
  | inl there ↦ omega (arith, length-assign pages index page there)
  | inr absent ↦
      let le = length-insert_or_assign-le pages index page in
      let short : length pages < max_pages = ground arith in omega arith
]

store_page-IsCoherent :
    (begin : List Entry → ℕ) (image : List ℕ) (c : ReadCache) (index : ℕ) (page : Page)
    → IsBegin begin
    → IsPage image index page
    → IsCoherent image c
    → IsCoherent image (store_page begin c index page)
unfolding store_page
store_page-IsCoherent begin image c index page first new h =
    let bounded = h.bounded in
    elim (Bool-cases (
      not (contains_page c.pages index)
      && (leb max_pages (length c.pages) && not (length c.pages == 0)))) [
        | inl full ↦
            let some_pages : 0 < length c.pages = ground arith in
            let one_less = length-erase_at (begin c.pages) c.pages (first c.pages some_pages) in
            let le = length-insert_or_assign-le (erase_at (begin c.pages) c.pages) index page in
            rw full (record {
              mirrors = h.mirrors;
              pages =
                  insert_or_assign-IsPage image _ index page new
                    (erase_at-IsPage image (begin c.pages) c.pages h.pages);
              bounded = omega arith;
            })
        | inr free ↦ rw free (record {
          mirrors = h.mirrors;
          pages = insert_or_assign-IsPage image c.pages index page new h.pages;
          bounded = room_left c.pages index page bounded free;
        })
      ]

-- Every step keeps the invariant.
pub Step-IsCoherent :
    (begin : List Entry → ℕ) (image : List ℕ) {c d : ReadCache}
    → IsBegin begin
    → Step begin c d
    → IsCoherent image c
    → IsCoherent image d
Step-IsCoherent begin image first (counted c stats) h = record {
  mirrors = h.mirrors;
  pages = h.pages;
  bounded = h.bounded;
}
Step-IsCoherent begin image first (stored c index page loaded) h =
    store_page-IsCoherent begin image c index page first
      (load_page-IsPage c.inner image index page h.mirrors loaded) h
Step-IsCoherent begin image first (cleared c) h = record {
  mirrors = h.mirrors;
  pages = tt;
  bounded = omega arith;
}

-- Whatever order the steps of the readers of a cache come in, its pages hold the bytes of the device
-- and there are at most 4096 of them.
pub Run-IsCoherent :
    (begin : List Entry → ℕ) (image : List ℕ) (c d : ReadCache)
    → IsBegin begin
    → IsCoherent image c
    → Run begin c d
    → IsCoherent image d
Run-IsCoherent begin image c d first h here = h
Run-IsCoherent begin image c d first h (next run step) =
    Step-IsCoherent begin image first step (Run-IsCoherent begin image c _ first h run)
