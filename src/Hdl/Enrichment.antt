-- ===== src/Hdl/Enrichment.antt =====
-- host/hdl_enrichment.cpp: how many games are read at once, and the workers that read them. A worker
-- takes the next index, reads the game, and stores it; the sections of several workers come in any
-- order, and each is one step. A worker that sees a stop takes no more indices. The calls of the
-- progress callback are left out.
use ps2_driveforge.Base.{
  ℕ, zero, suc, ◌+◌, ◌<◌, ◌≡◌, List, [], ◌∷◌, ◌++◌, length, Bool, true, false, not, ◌==◌, ◌||◌, min,
  Option, none, some, if◌then◌else◌,
}
use ps2_driveforge.Device.{Device}
use ps2_driveforge.Apa.Header.{Partition}
use ps2_driveforge.Hdl.Game.{GameResult, read_game_info}
use ps2_driveforge.Hdl.Catalog.{CatalogResult}

pub data StorageMediaClass : Type 0 where
  unknown rotational solid_state : StorageMediaClass

abbrev pub is_solid_state : StorageMediaClass → Bool
is_solid_state unknown = false
is_solid_state rotational = false
is_solid_state solid_state = true

-- `max_in_flight` of the policy; `max_in_flight_override` is 0 where there is none
unfoldable pub choose_hdl_enrichment_policy : StorageMediaClass → ℕ → ℕ → ℕ
choose_hdl_enrichment_policy media_class candidates max_in_flight_override =
    if candidates == 0
    then 0
    else if not (max_in_flight_override == 0)
    then min max_in_flight_override candidates
    else if is_solid_state media_class
    then min 4 candidates
    else 1

-- what the workers share; `in_flight` are the indices that are taken and not yet stored
pub record Enrichment : Type 0 where
  pub next : ℕ
  pub completed : ℕ
  pub in_flight : List ℕ
  pub results : List (Option GameResult)

abbrev pub mem_index : ℕ → List ℕ → Bool
mem_index i [] = false
mem_index i (j ∷ rest) = i == j || mem_index i rest

unfoldable pub remove_index : ℕ → List ℕ → List ℕ
remove_index i [] = []
remove_index i (j ∷ rest) = let others = remove_index i rest in if i == j then rest else j ∷ others

abbrev pub no_results : List Partition → List (Option GameResult)
no_results [] = []
no_results (p ∷ partitions) = none ∷ no_results partitions

abbrev pub start_enrichment : List Partition → Enrichment
start_enrichment partitions = record {
  next = 0;
  completed = 0;
  in_flight = [];
  results = no_results partitions;
}

-- `results[index] = read_game_info(device, *partitions[index])`
unfoldable pub store_game :
    Device → ℕ → List Partition → List (Option GameResult) → List (Option GameResult)
store_game device i [] results = results
store_game device i (p ∷ partitions) [] = []
store_game device zero (p ∷ partitions) (r ∷ results) = some (read_game_info device p) ∷ results
store_game device (suc i) (p ∷ partitions) (r ∷ results) =
    r ∷ store_game device i partitions results

unfoldable pub take_index : Enrichment → Enrichment
take_index s = record s { next = s.next + 1; in_flight = s.next ∷ s.in_flight }

unfoldable pub finish_game : Device → List Partition → ℕ → Enrichment → Enrichment
finish_game device partitions index s = record s {
  completed = s.completed + 1;
  in_flight = remove_index index s.in_flight;
  results = store_game device index partitions s.results;
}

-- a section of one of `worker_count` workers; one that takes an index past the end leaves its loop
pub data Work (device : Device) (partitions : List Partition) (worker_count : ℕ) (s : Enrichment)
    : Enrichment → Type 0 where
  taken :
      s.next < length partitions
      → length s.in_flight < worker_count
      → Work device partitions worker_count s (take_index s)
  left :
      length partitions < s.next + 1
      → Work device partitions worker_count s (record s { next = s.next + 1 })
  finished :
      (index : ℕ)
      → mem_index index s.in_flight ≡ true
      → Work device partitions worker_count s (finish_game device partitions index s)

pub data Works (device : Device) (partitions : List Partition) (worker_count : ℕ) (s : Enrichment)
    : Enrichment → Type 0 where
  started : Works device partitions worker_count s s
  worked :
      {t u : Enrichment}
      → Works device partitions worker_count s t
      → Work device partitions worker_count t u
      → Works device partitions worker_count s u

unfoldable pub add_result : CatalogResult → GameResult → CatalogResult
add_result c result = record c {
  entries = c.entries ++ result ∷ [];
  readable = if result.ok then c.readable + 1 else c.readable;
  unreadable = if result.ok then c.unreadable else c.unreadable + 1;
}

-- the loop over the results when the workers are done
unfoldable pub collect : CatalogResult → List (Option GameResult) → CatalogResult
collect c [] = c
collect c (none ∷ results) = collect c results
collect c (some result ∷ results) = collect (add_result c result) results

unfoldable pub finish_catalog : CatalogResult → CatalogResult
finish_catalog c = record c { cancelled = not (length c.entries == c.total_candidates) }

unfoldable pub gather : List Partition → Enrichment → CatalogResult
gather partitions s = finish_catalog (
    collect
      (record {
        entries = [];
        total_candidates = length partitions;
        readable = 0;
        unreadable = 0;
        cancelled = false;
      })
      s.results)
