-- ===== src/Session/Coherent.antt =====
-- What the caches of a session hold: the answers that the disk gives, each under a key of its own.
use ps2_driveforge.Base.{
  ℕ, ◌≡◌, refl, ap, ap₂, sym, ◌∙◌, subst, List, All, Result, ok, err, ◌>>=◌, ok_injective, inl, inr,
  Option-cases, fun_ext,
}
use ps2_driveforge.Device.{Device}
use ps2_driveforge.Apa.Header.{Partition}
use ps2_driveforge.Apa.Scan.{ScanResult}
use ps2_driveforge.Volume.{make_volume}
use ps2_driveforge.Pfs.Types.{Node}
use ps2_driveforge.Pfs.Probe.{ProbeResult, probe}
use ps2_driveforge.Pfs.Metadata.{Reader}
use ps2_driveforge.Session.Paths.{normalize_cache_path, make_cache_key}
use ps2_driveforge.Session.Store.{find}
use ps2_driveforge.Session.Kept.{find-All, bounded_store-All}
use ps2_driveforge.Session.Keys.{NoUnit, make_cache_key_injective}
use ps2_driveforge.Session.Components.{resolve-normalize}
use ps2_driveforge.Session.State.{
  Session, SessionError, BrowseResult, StatResult, select_partition, probe_for, check_reader,
  open_selected, open_reader, lift, SessionCacheStats, Operations, max_probe_cache_entries,
}
use ps2_driveforge.Session.Browse.{list_path}
use ps2_driveforge.Session.Files.{stat_result}
use ps2_driveforge.Session.Fresh.{
  open_fresh, browse_listing, browse_opened, browse_fresh, node_fresh, stat_fresh,
  list_path-normalize,
}

module _ (device : Device) (scan : ScanResult) where
  abbrev pub HoldsProbe : List ℕ × ProbeResult → Type 0
  HoldsProbe (id, result) =
      (partition : Partition)
      → select_partition scan id ≡ ok partition
      → result ≡ probe (make_volume device partition)

  -- a value is what `fresh` gives for each partition and path of the key
  abbrev pub Holds : {A : Type 0} → (List ℕ → List ℕ → A) → List ℕ → A → Type 0
  Holds fresh key value =
      (id path : List ℕ) → NoUnit id → key ≡ make_cache_key id path → value ≡ fresh id path

  abbrev pub HoldsBrowse : List ℕ × BrowseResult → Type 0
  HoldsBrowse (key, result) = Holds (browse_fresh device scan) key result

  abbrev pub HoldsStat : List ℕ × StatResult → Type 0
  HoldsStat (key, result) = Holds (stat_fresh device scan) key result

  abbrev pub HoldsNode : List ℕ × Node → Type 0
  HoldsNode (key, node) = Holds (node_fresh device scan) key (ok node)

  pub record IsCoherent (s : Session) : Type 0 where
    pub same_device : s.device ≡ device
    pub same_scan : s.scan ≡ scan
    pub probes : All HoldsProbe s.probe_cache
    pub browses : All HoldsBrowse s.browse_cache
    pub stats : All HoldsStat s.stat_cache
    pub nodes : All HoldsNode s.node_cache

  pub node_fresh-normalize :
      (id path : List ℕ)
      → node_fresh device scan id (normalize_cache_path path) ≡ node_fresh device scan id path
  unfolding node_fresh
  node_fresh-normalize id path =
      ap (λ (next : Reader → Result SessionError Node). open_fresh device scan id >>= next)
        (fun_ext λ (r : Reader). ap lift (resolve-normalize r path))

  -- an answer that depends on the normalized path alone may be kept under the key
  Holds-keyed :
      {A : Type 0} (fresh : List ℕ → List ℕ → A)
      → ((id a b : List ℕ)
          → normalize_cache_path a ≡ normalize_cache_path b
          → fresh id a ≡ fresh id b)
      → (p x : List ℕ) (value : A) → NoUnit p
      → value ≡ fresh p x
      → Holds fresh (make_cache_key p x) value
  Holds-keyed fresh respects p x value h e id path k same =
      let (one, other) = make_cache_key_injective p id x path h k same in
      e ∙ ap (λ q. fresh q x) one ∙ respects id x path other

  pub node_fresh-same :
      (id a b : List ℕ)
      → normalize_cache_path a ≡ normalize_cache_path b
      → node_fresh device scan id a ≡ node_fresh device scan id b
  node_fresh-same id a b h =
      sym (node_fresh-normalize id a) ∙ ap (node_fresh device scan id) h ∙ node_fresh-normalize id b

  pub Holds-node :
      (p x : List ℕ) (node : Node)
      → NoUnit p
      → ok node ≡ node_fresh device scan p x
      → HoldsNode (make_cache_key p x, node)
  Holds-node p x node h e = Holds-keyed (node_fresh device scan) node_fresh-same p x (ok node) h e

  pub stat_fresh-same :
      (id a b : List ℕ)
      → normalize_cache_path a ≡ normalize_cache_path b
      → stat_fresh device scan id a ≡ stat_fresh device scan id b
  unfolding stat_fresh
  stat_fresh-same id a b h = ap₂ stat_result h (node_fresh-same id a b h)

  pub Holds-stat :
      (p x : List ℕ) (result : StatResult)
      → NoUnit p
      → result ≡ stat_fresh device scan p x
      → HoldsStat (make_cache_key p x, result)
  Holds-stat p x result h e = Holds-keyed (stat_fresh device scan) stat_fresh-same p x result h e

  browse_opened-same :
      (a b : List ℕ)
      → normalize_cache_path a ≡ normalize_cache_path b
      → (opened : Result SessionError Reader) → browse_opened a opened ≡ browse_opened b opened
  browse_opened-same a b h (err e) = refl
  browse_opened-same a b h (ok r) =
      ap (browse_listing r)
        (sym (list_path-normalize r a) ∙ ap (list_path r) h ∙ list_path-normalize r b)

  pub browse_fresh-same :
      (id a b : List ℕ)
      → normalize_cache_path a ≡ normalize_cache_path b
      → browse_fresh device scan id a ≡ browse_fresh device scan id b
  unfolding browse_fresh
  browse_fresh-same id a b h = browse_opened-same a b h (open_fresh device scan id)

  pub Holds-browse :
      (p x : List ℕ) (result : BrowseResult)
      → NoUnit p
      → result ≡ browse_fresh device scan p x
      → HoldsBrowse (make_cache_key p x, result)
  Holds-browse p x result h e =
      Holds-keyed (browse_fresh device scan) browse_fresh-same p x result h e

  -- counters do not matter
  pub counted :
      (s : Session) (cache : SessionCacheStats) (operations : Operations)
      → IsCoherent s
      → IsCoherent (record s { cache = cache; operations = operations })
  counted s cache operations c = record {
    same_device = c.same_device;
    same_scan = c.same_scan;
    probes = c.probes;
    browses = c.browses;
    stats = c.stats;
    nodes = c.nodes;
  }

  module _ (begin : List (List ℕ) → ℕ) where
    -- the probe of a partition, from the cache or from the disk
    probe_for-exact :
        (s : Session) (id : List ℕ) (partition : Partition)
        → IsCoherent s
        → select_partition scan id ≡ ok partition
        → ((probe_for begin s id (make_volume device partition)).0
            ≡ probe (make_volume device partition))
          × IsCoherent (probe_for begin s id (make_volume device partition)).1
    unfolding probe_for
    probe_for-exact s id partition c found = elim (Option-cases (find id s.probe_cache)) [
      | inr (result, hit) ↦
          rw (hit, probe_for)
            (
              find-All HoldsProbe s.probe_cache id result c.probes hit partition found,
              counted s _ s.operations c,
            )
      | inl miss ↦
          rw (miss, probe_for)
            (
              refl,
              record {
                same_device = c.same_device;
                same_scan = c.same_scan;
                probes =
                    bounded_store-All HoldsProbe begin max_probe_cache_entries s.probe_cache id
                      (probe (make_volume device partition)) s.cache.evictions c.probes
                      (λ other same.
                        ap (λ p. probe (make_volume device p)) (ok_injective (sym found ∙ same)));
                browses = c.browses;
                stats = c.stats;
                nodes = c.nodes;
              },
            )
    ]

    open_selected-exact :
        (s : Session) (id : List ℕ) (selected : Result SessionError Partition)
        → IsCoherent s
        → select_partition scan id ≡ selected
        → ((open_selected begin s id device selected).0 ≡ open_fresh device scan id)
          × IsCoherent (open_selected begin s id device selected).1
    unfolding open_selected open_fresh
    open_selected-exact s id (err e) c bad = rw bad (refl, c)
    open_selected-exact s id (ok partition) c found =
        let (same, kept) = probe_for-exact s id partition c found in
        (ap (check_reader (make_volume device partition)) same ∙ rw found refl, kept)

    pub open_reader-exact :
        (s : Session) (id : List ℕ)
        → IsCoherent s
        → ((open_reader begin s id).0 ≡ open_fresh device scan id)
          × IsCoherent (open_reader begin s id).1
    unfolding open_reader
    open_reader-exact s id c =
        let opened : open_reader begin s id
            ≡ open_selected begin s id device (select_partition scan id) =
          ap₂ (open_selected begin s id) c.same_device
            (ap (λ sc. select_partition sc id) c.same_scan) in
        subst
          (λ (o : Result SessionError Reader × Session).
            (o.0 ≡ open_fresh device scan id) × IsCoherent o.1)
          (sym opened) (open_selected-exact s id (select_partition scan id) c refl)
