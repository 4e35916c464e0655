-- ===== src/Session/Bounded.antt =====
-- The bounds of the caches of a session, and that opening and browsing keep them.
use ps2_driveforge.Base.{
  ℕ, ◌≤◌, List, length, arith, Result, ok, err, Result-cases, Option-cases, inl, inr,
}
use ps2_driveforge.Pfs.Types.{Node}
use ps2_driveforge.Pfs.Metadata.{Reader}
use ps2_driveforge.Volume.{ApaVolume, make_volume}
use ps2_driveforge.Device.{Device}
use ps2_driveforge.Apa.Header.{Partition}
use ps2_driveforge.Session.Store.{find}
use ps2_driveforge.Session.Kept.{IsBegin, bounded_store_size, store_all_size}
use ps2_driveforge.Session.Paths.{normalize_cache_path, make_cache_key}
use ps2_driveforge.Session.State.{
  Session, SessionError, BrowseResult, max_probe_cache_entries, max_browse_cache_entries,
  max_stat_cache_entries, max_node_cache_entries, SessionCacheStats, Operations, select_partition,
  probe_for, open_selected, open_reader,
}
use ps2_driveforge.Session.Browse.{
  list_path, with_keys, with_stats, keep_listing, browse_reader, browse_opened_with, browse_miss,
  browse, count_browse, count_browse_miss,
}

pub record IsBounded (s : Session) : Type 0 where
  pub probes : length s.probe_cache ≤ max_probe_cache_entries
  pub browses : length s.browse_cache ≤ max_browse_cache_entries
  pub stats : length s.stat_cache ≤ max_stat_cache_entries
  pub nodes : length s.node_cache ≤ max_node_cache_entries

module _ (begin : List (List ℕ) → ℕ) where
  module _ (is_begin : IsBegin begin) where
    probe_for-IsBounded :
        (s : Session) (id : List ℕ) (volume : ApaVolume)
        → IsBounded s
        → IsBounded (probe_for begin s id volume).1
    unfolding probe_for
    probe_for-IsBounded s id volume b = elim (Option-cases (find id s.probe_cache)) [
      | inr (result, hit) ↦
          rw (hit, probe_for)
            (record { probes = b.probes; browses = b.browses; stats = b.stats; nodes = b.nodes })
      | inl miss ↦
          rw (miss, probe_for)
            (record {
              probes =
                  bounded_store_size begin is_begin max_probe_cache_entries (omega arith)
                    s.probe_cache id _ s.cache.evictions b.probes;
              browses = b.browses;
              stats = b.stats;
              nodes = b.nodes;
            })
    ]

    open_selected-IsBounded :
        (s : Session) (id : List ℕ) (device : Device) (selected : Result SessionError Partition)
        → IsBounded s
        → IsBounded (open_selected begin s id device selected).1
    unfolding open_selected
    open_selected-IsBounded s id device (err e) b = b
    open_selected-IsBounded s id device (ok partition) b =
        probe_for-IsBounded s id (make_volume device partition) b

    pub open_reader-IsBounded :
        (s : Session) (id : List ℕ) → IsBounded s → IsBounded (open_reader begin s id).1
    unfolding open_reader
    open_reader-IsBounded s id = open_selected-IsBounded s id s.device (select_partition s.scan id)

    keep_listing-IsBounded :
        (s : Session) (id key : List ℕ) (nodes : List (List ℕ × Node)) (result : BrowseResult)
        → IsBounded s
        → IsBounded (keep_listing begin s id key nodes result)
    unfolding keep_listing
    keep_listing-IsBounded s id key nodes result b = record {
      probes = b.probes;
      browses =
          bounded_store_size begin is_begin max_browse_cache_entries (omega arith) s.browse_cache
            key result _ b.browses;
      stats =
          store_all_size begin is_begin max_stat_cache_entries (omega arith) s.stat_cache
            (with_stats id nodes) _ b.stats;
      nodes =
          store_all_size begin is_begin max_node_cache_entries (omega arith) s.node_cache
            (with_keys id nodes) _ b.nodes;
    }

    browse_reader-IsBounded :
        (s : Session) (r : Reader) (id path key : List ℕ)
        → IsBounded s
        → IsBounded (browse_reader begin s r id path key).1
    unfolding browse_reader
    browse_reader-IsBounded s r id path key b = elim (Result-cases (list_path r path)) [
      | inr (e, bad) ↦ rw (bad, browse_reader) b
      | inl (listing, found) ↦ rw (found, browse_reader) (keep_listing-IsBounded s id key _ _ b)
    ]

    browse_opened-IsBounded :
        (opened : Result SessionError Reader) (s : Session) (id path key : List ℕ)
        → IsBounded s
        → IsBounded (browse_opened_with begin opened s id path key).1
    unfolding browse_opened_with
    browse_opened-IsBounded (err e) s id path key b = b
    browse_opened-IsBounded (ok r) s id path key b = browse_reader-IsBounded s r id path key b

    -- counters do not matter
    pub recounted :
        (s : Session) (cache : SessionCacheStats) (operations : Operations)
        → IsBounded s
        → IsBounded (record s { cache = cache; operations = operations })
    recounted s cache operations b = record {
      probes = b.probes;
      browses = b.browses;
      stats = b.stats;
      nodes = b.nodes;
    }

    pub browse-IsBounded :
        (s : Session) (id path : List ℕ) → IsBounded s → IsBounded (browse begin s id path).1
    unfolding browse browse_miss
    browse-IsBounded s id path b =
        let normal = normalize_cache_path path in
        let key = make_cache_key id normal in
        elim (Option-cases (find key s.browse_cache)) [
          | inr (result, hit) ↦ rw (hit, browse) (recounted s _ _ b)
          | inl miss ↦
              rw (miss, browse)
                (browse_opened-IsBounded _ _ id normal key (
                  open_reader-IsBounded (count_browse_miss (count_browse s)) id
                    (recounted s _ _ b)))
        ]
