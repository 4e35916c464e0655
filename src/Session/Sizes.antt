-- ===== src/Session/Sizes.antt =====
-- The caches of a session stay within their bounds, whatever operations it runs.
use ps2_driveforge.Base.{ℕ, List, arith, Result, ok, err, Result-cases, Option-cases, inl, inr}
use ps2_driveforge.Pfs.Types.{Node}
use ps2_driveforge.Pfs.Metadata.{Reader}
use ps2_driveforge.Pfs.Directory.{resolve}
use ps2_driveforge.Session.Store.{find}
use ps2_driveforge.Session.Kept.{IsBegin, bounded_store_size}
use ps2_driveforge.Session.Paths.{normalize_cache_path, make_cache_key}
use ps2_driveforge.Session.State.{
  Session, SessionError, StatResult, max_stat_cache_entries, max_node_cache_entries, clear_caches,
  reset_stats, scan_session,
}
use ps2_driveforge.Session.Files.{
  count_node_miss, count_stat, count_stat_miss, count_read, keep_stat, keep_node, resolve_and_keep,
  stat_opened, stat_miss, stat_node, stat, find_node, read_opened, read_file,
}
use ps2_driveforge.Session.Steps.{
  Step, scanned, browsed, statted, read, cleared, counters_reset, Run, here, next,
}
use ps2_driveforge.Session.Bounded.{IsBounded, open_reader-IsBounded, recounted, browse-IsBounded}

module _ (begin : List (List ℕ) → ℕ) (is_begin : IsBegin begin) where
  keep_stat-IsBounded :
      (s : Session) (key : List ℕ) (result : StatResult)
      → IsBounded s
      → IsBounded (keep_stat begin s key result)
  unfolding keep_stat
  keep_stat-IsBounded s key result b = record {
    probes = b.probes;
    browses = b.browses;
    stats =
        bounded_store_size begin is_begin max_stat_cache_entries (omega arith) s.stat_cache key
          result _ b.stats;
    nodes = b.nodes;
  }

  keep_node-IsBounded :
      (s : Session) (key : List ℕ) (node : Node)
      → IsBounded s
      → IsBounded (keep_node begin s key node)
  unfolding keep_node
  keep_node-IsBounded s key node b = record {
    probes = b.probes;
    browses = b.browses;
    stats = b.stats;
    nodes =
        bounded_store_size begin is_begin max_node_cache_entries (omega arith) s.node_cache key node
          _ b.nodes;
  }

  resolve_and_keep-IsBounded :
      (s : Session) (r : Reader) (path key : List ℕ)
      → IsBounded s
      → IsBounded (resolve_and_keep begin s r path key).1
  unfolding resolve_and_keep
  resolve_and_keep-IsBounded s r path key b = elim (Result-cases (resolve r path)) [
    | inr (e, bad) ↦ rw (bad, resolve_and_keep) b
    | inl (node, found) ↦
        rw (found, resolve_and_keep)
          (keep_stat-IsBounded _ key _ (keep_node-IsBounded s key node b))
  ]

  find_node-IsBounded :
      (s : Session) (r : Reader) (path key : List ℕ)
      → IsBounded s
      → IsBounded (find_node begin s r path key).1
  unfolding find_node
  find_node-IsBounded s r path key b = elim (Option-cases (find key s.node_cache)) [
    | inr (node, hit) ↦ rw (hit, find_node) (recounted begin is_begin s _ _ b)
    | inl miss ↦
        rw (miss, find_node)
          (resolve_and_keep-IsBounded _ r path key (recounted begin is_begin s _ _ b))
  ]

  stat_opened-IsBounded :
      (opened : Result SessionError Reader) (s : Session) (path key : List ℕ)
      → IsBounded s
      → IsBounded (stat_opened begin opened s path key).1
  unfolding stat_opened
  stat_opened-IsBounded (err e) s path key b = b
  stat_opened-IsBounded (ok r) s path key b = resolve_and_keep-IsBounded s r path key b

  stat_node-IsBounded :
      (s : Session) (id path key : List ℕ)
      → IsBounded s
      → IsBounded (stat_node begin s id path key).1
  unfolding stat_node stat_miss
  stat_node-IsBounded s id path key b = elim (Option-cases (find key s.node_cache)) [
    | inr (node, hit) ↦
        rw (hit, stat_node) (keep_stat-IsBounded _ key _ (recounted begin is_begin s _ _ b))
    | inl miss ↦
        rw (miss, stat_node)
          (stat_opened-IsBounded _ _ path key (
            open_reader-IsBounded begin is_begin (count_node_miss s) id
              (recounted begin is_begin s _ _ b)))
  ]

  stat-IsBounded :
      (s : Session) (id path : List ℕ) → IsBounded s → IsBounded (stat begin s id path).1
  unfolding stat
  stat-IsBounded s id path b =
      let normal = normalize_cache_path path in
      let key = make_cache_key id normal in
      elim (Option-cases (find key s.stat_cache)) [
        | inr (result, hit) ↦ rw (hit, stat) (recounted begin is_begin s _ _ b)
        | inl miss ↦
            rw (miss, stat)
              (stat_node-IsBounded (count_stat_miss (count_stat s)) id normal key
                (recounted begin is_begin s _ _ b))
      ]

  read_opened-IsBounded :
      (opened : Result SessionError Reader) (s : Session) (path key : List ℕ) (offset size : ℕ)
      → IsBounded s
      → IsBounded (read_opened begin opened s path key offset size).1
  unfolding read_opened
  read_opened-IsBounded (err e) s path key offset size b = b
  read_opened-IsBounded (ok r) s path key offset size b = find_node-IsBounded s r path key b

  Step-IsBounded : (s t : Session) → Step begin s t → IsBounded s → IsBounded t
  unfolding read_file scan_session clear_caches reset_stats
  Step-IsBounded s t (scanned _ max_headers) b = record {
    probes = omega arith;
    browses = omega arith;
    stats = omega arith;
    nodes = omega arith;
  }
  Step-IsBounded s t (browsed _ id path) b = browse-IsBounded begin is_begin s id path b
  Step-IsBounded s t (statted _ id path) b = stat-IsBounded s id path b
  Step-IsBounded s t (read _ id path offset size) b =
      read_opened-IsBounded _ _ (normalize_cache_path path) _ offset size
        (open_reader-IsBounded begin is_begin (count_read s) id (recounted begin is_begin s _ _ b))
  Step-IsBounded s t (cleared _) b = record {
    probes = omega arith;
    browses = omega arith;
    stats = omega arith;
    nodes = omega arith;
  }
  Step-IsBounded s t (counters_reset _) b = recounted begin is_begin s _ _ b

-- Whatever row of scans, browses, stats, reads, clears and resets a session runs, its caches hold at
-- most 256 probes, 1024 listings, 8192 stats and 8192 nodes.
pub Run-IsBounded :
    (begin : List (List ℕ) → ℕ)
    → IsBegin begin
    → (s t : Session) → Run begin s t
    → IsBounded s
    → IsBounded t
Run-IsBounded begin is_begin s t here b = b
Run-IsBounded begin is_begin s t (next {t = m} run step) b =
    Step-IsBounded begin is_begin m t step (Run-IsBounded begin is_begin s m run b)
