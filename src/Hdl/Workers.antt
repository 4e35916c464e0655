-- ===== src/Hdl/Workers.antt =====
-- The workers of host/hdl_enrichment.cpp give the catalog that `read_catalog` of core/hdl.cpp reads, in
-- whatever order they come to their games.
use ps2_driveforge.Base.{
  ℕ, suc, ap₂, ◌+◌, ◌≤◌, ◌<◌, ◌≡◌, refl, ap, sym, ◌∙◌, subst, List, [], ◌∷◌, length, length-append,
  Bool, false, not, ◌==◌, Option, none, some, arith, Bool-cases, inl, inr,
}
use ps2_driveforge.Device.{Device}
use ps2_driveforge.Apa.Header.{Partition}
use ps2_driveforge.Apa.Scan.{ScanResult}
use ps2_driveforge.Hdl.Game.{GameResult, read_game_info}
use ps2_driveforge.Hdl.Catalog.{
  CatalogResult, CatalogRun, candidates, add_game, catalog_loop, empty_run, read_catalog,
}
use ps2_driveforge.Hdl.Enrichment.{
  Enrichment, no_results, start_enrichment, take_index, finish_game, Work, taken, left, finished,
  Works, started, worked, add_result, collect, finish_catalog, gather,
}
use ps2_driveforge.Hdl.Slots.{Slots, Slots-widen, Slots-stored}

module _ (device : Device) where
  abbrev IsFilled : List Partition → Enrichment → Type 0
  IsFilled partitions s = Slots device s.next s.in_flight 0 partitions s.results

  none_filled :
      (i : ℕ) (partitions : List Partition) → Slots device 0 [] i partitions (no_results partitions)
  none_filled i [] = tt
  none_filled i (p ∷ partitions) =
      ((λ before. absurd (omega arith)), none_filled (suc i) partitions)

  Work-IsFilled :
      (partitions : List Partition) (worker_count : ℕ) (s t : Enrichment)
      → Work device partitions worker_count s t
      → IsFilled partitions s
      → IsFilled partitions t
  unfolding take_index finish_game
  Work-IsFilled partitions worker_count s t (taken more free) h =
      Slots-widen device s.next (s.next + 1) s.in_flight (s.next ∷ s.in_flight) (length partitions)
        0 partitions s.results (omega arith)
        (λ j inside held before. elim (Bool-cases (j == s.next)) [
          | inl same ↦ ground arith
          | inr other ↦
              let below : j < s.next = ground arith in let there = held below in ground arith
        ])
        h
  Work-IsFilled partitions worker_count s t (left past) h =
      Slots-widen device s.next (s.next + 1) s.in_flight s.in_flight (length partitions) 0
        partitions s.results (omega arith) (λ j inside held before. held (omega arith)) h
  Work-IsFilled partitions worker_count s t (finished index held) h =
      Slots-stored device s.next s.in_flight index 0 index partitions s.results (omega arith) h

  Works-IsFilled :
      (partitions : List Partition) (worker_count : ℕ) (s t : Enrichment)
      → Works device partitions worker_count s t
      → IsFilled partitions s
      → IsFilled partitions t
  Works-IsFilled partitions worker_count s t started h = h
  Works-IsFilled partitions worker_count s t (worked {t = m} works work) h =
      Work-IsFilled partitions worker_count m t work
        (Works-IsFilled partitions worker_count s m works h)

  -- the results when no worker is left
  abbrev all_results : List Partition → List (Option GameResult)
  all_results [] = []
  all_results (p ∷ partitions) = some (read_game_info device p) ∷ all_results partitions

  all_filled :
      (next i : ℕ) (partitions : List Partition) (results : List (Option GameResult))
      → i + length partitions ≤ next
      → Slots device next [] i partitions results
      → results ≡ all_results partitions
  all_filled next i [] [] h k = refl
  all_filled next i [] (r ∷ results) h k = absurd k
  all_filled next i (p ∷ partitions) [] h k = absurd k
  all_filled next i (p ∷ partitions) (none ∷ results) h k = absurd (cc (k.0 (omega arith)))
  all_filled next i (p ∷ partitions) (some result ∷ results) h k =
      ap₂ (λ g rest. some g ∷ rest) k.0
        (all_filled next (suc i) partitions results (omega arith) k.1)

collect-loop :
    (device : Device) (partitions : List Partition) (s : CatalogRun)
    → (catalog_loop device false (λ n. false) partitions s).catalog
      ≡ collect s.catalog (all_results device partitions)
unfolding catalog_loop collect add_game add_result
collect-loop device [] s = refl
collect-loop device (p ∷ partitions) s =
    collect-loop device partitions (add_game false s (read_game_info device p))

collect-counts :
    (device : Device) (partitions : List Partition) (c : CatalogResult)
    → (length (collect c (all_results device partitions)).entries
        ≡ length c.entries + length partitions)
      × ((collect c (all_results device partitions)).total_candidates ≡ c.total_candidates)
      × ((collect c (all_results device partitions)).cancelled ≡ c.cancelled)
unfolding collect add_result
collect-counts device [] c = (omega arith, refl, refl)
collect-counts device (p ∷ partitions) c =
    let result = read_game_info device p in
    let (entries, total, cancelled) = collect-counts device partitions (add_result c result) in
    (omega (arith, entries, length-append c.entries (result ∷ [])), total, cancelled)

abbrev no_entries : ℕ → CatalogResult
no_entries total = (empty_run total).catalog

finish_complete :
    (c : CatalogResult)
    → length c.entries ≡ c.total_candidates
    → c.cancelled ≡ false
    → finish_catalog c ≡ c
unfolding finish_catalog
finish_complete c complete running =
    let flag : not (length c.entries == c.total_candidates) ≡ c.cancelled = ground arith in
    ap (λ (cancelled : Bool). record c { cancelled = cancelled }) flag

-- When no worker holds a game any more and every index is taken, the catalog of the workers is the one
-- that the serial `read_catalog` reads with no stop: the same games in the same order, with the same
-- counters; whatever the number of workers and the order of their sections.
pub gather-read_catalog :
    (sort : List Partition → List Partition) (device : Device) (scan : ScanResult)
    (worker_count : ℕ) (s : Enrichment)
    → Works device
        (sort (candidates scan.partitions))
        worker_count
        (start_enrichment (sort (candidates scan.partitions)))
        s
    → s.in_flight ≡ []
    → length (sort (candidates scan.partitions)) ≤ s.next
    → gather (sort (candidates scan.partitions)) s
      ≡ (read_catalog sort device scan false (λ n. false)).catalog
unfolding gather read_catalog
gather-read_catalog sort device scan worker_count s works idle taken_all =
    let partitions = sort (candidates scan.partitions) in
    let filled =
      Works-IsFilled device partitions worker_count (start_enrichment partitions) s works
        (none_filled device 0 partitions) in
    let stored =
      all_filled device s.next 0 partitions s.results (omega arith)
        (subst (λ held. Slots device s.next held 0 partitions s.results) idle filled) in
    let (entries, total, cancelled) =
      collect-counts device partitions (no_entries (length partitions)) in
    ap (λ results. finish_catalog (collect (no_entries (length partitions)) results)) stored
    ∙ finish_complete (collect (no_entries (length partitions)) (all_results device partitions))
        (omega (arith, entries, total)) cancelled
    ∙ sym (collect-loop device partitions (empty_run (length partitions)))
