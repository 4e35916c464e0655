-- ===== src/Hdl/CatalogRead.antt =====
-- What `read_catalog` of core/hdl.cpp reads, stopped or not.
use ps2_driveforge.Base.{
  ℕ, zero, suc, ◌+◌, ◌≤◌, ◌<◌, ◌≡◌, ◌⊎◌, inl, inr, refl, ap, sym, ◌∙◌, List, [], ◌∷◌, ◌++◌, map,
  take, length, Bool, true, false, arith, Bool-cases, if◌then◌else◌, append-nil, append_assoc,
  length-append,
}
use ps2_driveforge.Device.{Device}
use ps2_driveforge.Apa.Header.{Partition}
use ps2_driveforge.Apa.Scan.{ScanResult}
use ps2_driveforge.Hdl.Game.{GameResult, read_game_info}
use ps2_driveforge.Hdl.Catalog.{
  CatalogRun, Progress, candidates, add_game, cancel, catalog_loop, empty_run, read_catalog,
}

-- the callback after each of these games, `done` having been read before
abbrev pub announced : Bool → ℕ → ℕ → List GameResult → List Progress
announced has_callback total done [] = []
announced false total done (g ∷ gs) = []
announced true total done (g ∷ gs) =
    record { completed = done + 1; total = total; game = g } ∷ announced true total (done + 1) gs

-- the games that were read
abbrev pub read_ok : List GameResult → ℕ
read_ok [] = 0
read_ok (g ∷ gs) = if g.ok then suc (read_ok gs) else read_ok gs

added_reports :
    (has_callback : Bool) (s : CatalogRun) (g : GameResult) (gs : List GameResult)
    → (add_game has_callback s g).reports
        ++ announced has_callback s.catalog.total_candidates
            (length (s.catalog.entries ++ g ∷ []))
            gs
      ≡ s.reports
        ++ announced has_callback s.catalog.total_candidates (length s.catalog.entries) (g ∷ gs)
unfolding add_game
added_reports false s g [] = refl
added_reports false s g (h ∷ gs) = refl
added_reports true s g gs =
    rw (length-append s.catalog.entries (g ∷ [])) (append_assoc s.reports _ _)

module _ (device : Device) (has_callback : Bool) (stop : ℕ → Bool) where
  abbrev pub games : List Partition → List GameResult
  games ps = map (read_game_info device) ps

  -- a loop that went from `s` to `t` over `ps`
  pub record Reads (ps : List Partition) (s t : CatalogRun) : Type 0 where
    pub done : ℕ
    pub short : done ≤ length ps
    pub entries : t.catalog.entries ≡ s.catalog.entries ++ games (take done ps)
    pub total : t.catalog.total_candidates ≡ s.catalog.total_candidates
    pub readable : t.catalog.readable ≡ s.catalog.readable + read_ok (games (take done ps))
    pub counted :
        t.catalog.readable + t.catalog.unreadable ≡ s.catalog.readable + s.catalog.unreadable + done
    pub asked : (k : ℕ) → k < done → stop (length s.catalog.entries + k) ≡ false
    pub ended :
        ((t.catalog.cancelled ≡ s.catalog.cancelled) × (done ≡ length ps))
        ⊎ ((t.catalog.cancelled ≡ true)
            × (stop (length s.catalog.entries + done) ≡ true)
            × (done < length ps))
    pub reports :
        t.reports
        ≡ s.reports
          ++ announced has_callback s.catalog.total_candidates
              (length s.catalog.entries)
              (games (take done ps))

  nothing_read :
      (ps : List Partition) (s : CatalogRun)
      → stop (length s.catalog.entries) ≡ true
      → 0 < length ps
      → Reads ps s (cancel s)
  unfolding cancel
  nothing_read ps s h some = record {
    done = 0;
    short = omega arith;
    entries = sym (append-nil _);
    total = refl;
    readable = omega arith;
    counted = omega arith;
    asked = λ k lt. absurd (omega arith);
    ended = inr (refl, ap stop (omega arith) ∙ h, some);
    reports = sym (append-nil _);
  }

  first_asked :
      (p : Partition) (s : CatalogRun) (done : ℕ)
      → stop (length s.catalog.entries) ≡ false
      → ((k : ℕ)
          → k < done
          → stop (length (s.catalog.entries ++ read_game_info device p ∷ []) + k) ≡ false)
      → (k : ℕ) → k < suc done
      → stop (length s.catalog.entries + k) ≡ false
  first_asked p s done h later zero lt = ap stop (omega arith) ∙ h
  first_asked p s done h later (suc k) lt =
      let longer = length-append s.catalog.entries (read_game_info device p ∷ []) in
      ap stop (omega arith) ∙ later k (omega arith)

  one_more :
      (p : Partition) (ps : List Partition) (s t : CatalogRun)
      → stop (length s.catalog.entries) ≡ false
      → Reads ps (add_game has_callback s (read_game_info device p)) t
      → Reads (p ∷ ps) s t
  unfolding add_game
  one_more p ps s t h r =
      let longer = length-append s.catalog.entries (read_game_info device p ∷ []) in
      record {
        done = suc r.done;
        short = omega (arith, r.short);
        entries = r.entries ∙ append_assoc s.catalog.entries _ _;
        total = r.total;
        readable = ground (arith, r.readable);
        counted = ground (arith, r.counted);
        asked = λ k lt. first_asked p s r.done h r.asked k lt;
        ended = elim r.ended [
          | inl (c, e) ↦ inl (c, ap suc e)
          | inr (c, e, lt) ↦ inr (c, ap stop (omega arith) ∙ e, omega arith)
        ];
        reports = r.reports ∙ added_reports has_callback s (read_game_info device p) _;
      }

  catalog_loop-Reads :
      (ps : List Partition) (s : CatalogRun)
      → Reads ps s (catalog_loop device has_callback stop ps s)
  unfolding catalog_loop
  catalog_loop-Reads [] s = record {
    done = 0;
    short = omega arith;
    entries = sym (append-nil _);
    total = refl;
    readable = omega arith;
    counted = omega arith;
    asked = λ k lt. absurd (omega arith);
    ended = inl (refl, refl);
    reports = sym (append-nil _);
  }
  catalog_loop-Reads (p ∷ ps) s = elim (Bool-cases (stop (length s.catalog.entries))) [
    | inl e ↦ rw (e, catalog_loop) (nothing_read (p ∷ ps) s e (omega arith))
    | inr e ↦ rw (e, catalog_loop) (one_more p ps s _ e (catalog_loop-Reads ps _))
  ]

-- A catalog, whether it was stopped or not, has the results of the first partitions of the order, as
-- many as the token allowed, each asked for before it is read; the counters add up; and the callback
-- was called once for each, with the count so far and the total.
pub read_catalog-Reads :
    (sort : List Partition → List Partition) (device : Device) (scan : ScanResult)
    (has_callback : Bool) (stop : ℕ → Bool)
    → Reads device has_callback stop
        (sort (candidates scan.partitions))
        (empty_run (length (sort (candidates scan.partitions))))
        (read_catalog sort device scan has_callback stop)
unfolding read_catalog
read_catalog-Reads sort device scan has_callback stop =
    catalog_loop-Reads device has_callback stop (sort (candidates scan.partitions)) _
