-- ===== src/Hdl/CatalogOrder.antt =====
-- The order and the completeness of what `read_catalog` of core/hdl.cpp returns.
use mathlib.Core.Bool.{false≢true}
use mathlib.Core.List.{Perm}
use mathlib.Core.List.Perm
use ps2_driveforge.Base.{
  ℕ, ◌+◌, ◌≤◌, ◌≡◌, inl, inr, refl, ap, sym, ◌∙◌, subst, List, [], ◌∷◌, map, take, length, Bool,
  false, arith, length-map, All,
}
use ps2_driveforge.Device.{Device}
use ps2_driveforge.Apa.Header.{Partition}
use ps2_driveforge.Apa.Scan.{ScanResult}
use ps2_driveforge.Hdl.Game.{GameResult, read_game_info}
use ps2_driveforge.Hdl.GameErrors.{read_game_info-Reports}
use ps2_driveforge.Hdl.Catalog.{CatalogRun, CatalogResult, candidates, read_catalog}
use ps2_driveforge.Hdl.CatalogRead.{Reads, read_ok, read_catalog-Reads}

-- each partition starts no earlier than those before it
abbrev pub Ascending : List Partition → Type 0
Ascending [] = Unit
Ascending (p ∷ ps) = All (λ (q : Partition). p.start_lba ≤ q.start_lba) ps × Ascending ps

-- what std::sort promises with the comparison by start
pub record Sorts (sort : List Partition → List Partition) : Type 0 where
  pub ordered : (ps : List Partition) → Ascending (sort ps)
  pub permuted : (ps : List Partition) → Perm (sort ps) ps

-- the results of partitions that start in ascending order
abbrev pub AscendingGames : List GameResult → Type 0
AscendingGames [] = Unit
AscendingGames (g ∷ gs) =
    All (λ (h : GameResult). g.game.start_lba ≤ h.game.start_lba) gs × AscendingGames gs

no_earlier :
    (device : Device) (p : Partition) (ps : List Partition)
    → All (λ (q : Partition). p.start_lba ≤ q.start_lba) ps
    → All
        (λ (h : GameResult). (read_game_info device p).game.start_lba ≤ h.game.start_lba)
        (map (read_game_info device) ps)
no_earlier device p [] h = tt
no_earlier device p (q ∷ ps) h =
    let a = (read_game_info-Reports device p).lba in
    let b = (read_game_info-Reports device q).lba in
    let le = h.0 in (omega arith, no_earlier device p ps h.1)

map-AscendingGames :
    (device : Device) (ps : List Partition)
    → Ascending ps
    → AscendingGames (map (read_game_info device) ps)
map-AscendingGames device [] h = tt
map-AscendingGames device (p ∷ ps) h =
    (no_earlier device p ps h.0, map-AscendingGames device ps h.1)

take-length : (ps : List Partition) → take (length ps) ps ≡ ps
take-length [] = refl
take-length (p ∷ ps) = ap (◌∷◌ p) (take-length ps)

-- a catalog that holds a result for every candidate
pub record IsCatalog (device : Device) (scan : ScanResult) (c : CatalogResult) : Type 0 where
  pub complete : Perm c.entries (map (read_game_info device) (candidates scan.partitions))
  pub ascending : AscendingGames c.entries
  pub total : c.total_candidates ≡ length c.entries
  pub counted : c.readable + c.unreadable ≡ c.total_candidates
  pub readable : c.readable ≡ read_ok c.entries
  pub not_cancelled : c.cancelled ≡ false

-- A catalog that is not stopped has the result of every main HDL partition of the scan, exactly
-- once, in ascending order of their start, whatever sort is used that meets the promise of std::sort.
pub read_catalog-IsCatalog :
    (sort : List Partition → List Partition) (device : Device) (scan : ScanResult)
    (has_callback : Bool) (stop : ℕ → Bool)
    → Sorts sort
    → ((n : ℕ) → stop n ≡ false)
    → IsCatalog device scan (read_catalog sort device scan has_callback stop).catalog
read_catalog-IsCatalog sort device scan has_callback stop sorts never =
    let ps = sort (candidates scan.partitions) in
    let r = read_catalog-Reads sort device scan has_callback stop in
    let (kept, all) = not_stopped r in
    let whole : (read_catalog sort device scan has_callback stop).catalog.entries
        ≡ map (read_game_info device) ps =
      r.entries
      ∙ ap (λ (qs : List Partition). map (read_game_info device) qs)
          (ap (λ (n : ℕ). take n ps) all ∙ take-length ps) in
    let n : length (map (read_game_info device) ps) ≡ length ps =
      length-map ps (read_game_info device) in
    record {
      complete =
          subst
            (λ (es : List GameResult).
              Perm es (map (read_game_info device) (candidates scan.partitions)))
            (sym whole)
            (Perm.map (read_game_info device) (sorts.permuted (candidates scan.partitions)));
      ascending = subst AscendingGames (sym whole) (map-AscendingGames device ps (sorts.ordered _));
      total = r.total ∙ sym (ap length whole ∙ n);
      counted = omega (arith, r.counted, all, r.total);
      readable = omega (arith, r.readable, ap read_ok r.entries);
      not_cancelled = kept;
    }
  where
    not_stopped :
        {ps : List Partition} {s t : CatalogRun} (r : Reads device has_callback stop ps s t)
        → (t.catalog.cancelled ≡ s.catalog.cancelled) × (r.done ≡ length ps)
    not_stopped r = elim r.ended [
      | inl both ↦ both
      | inr (c, asked, lt) ↦ absurd (false≢true (sym (never _) ∙ asked))
    ]
