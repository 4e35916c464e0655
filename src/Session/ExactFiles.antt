-- ===== src/Session/ExactFiles.antt =====
-- `stat` and `read_file` of a session answer as if there were no caches.
use ps2_driveforge.Base.{
  ℕ, ◌≡◌, refl, ap, ap₂, sym, ◌∙◌, List, Result, ok, err, Result-cases, inl, inr, Option-cases,
}
use ps2_driveforge.Device.{Device}
use ps2_driveforge.Apa.Scan.{ScanResult}
use ps2_driveforge.Pfs.Types.{Node}
use ps2_driveforge.Pfs.Metadata.{Reader}
use ps2_driveforge.Pfs.Directory.{resolve}
use ps2_driveforge.Session.Paths.{normalize_cache_path, make_cache_key}
use ps2_driveforge.Session.Store.{find}
use ps2_driveforge.Session.Kept.{find-All, bounded_store-All}
use ps2_driveforge.Session.Keys.{NoUnit, normalize_cache_path_idem}
use ps2_driveforge.Session.Components.{resolve-normalize}
use ps2_driveforge.Session.State.{
  Session, SessionError, StatResult, open_reader, lift, stat_from_node, max_stat_cache_entries,
  max_node_cache_entries,
}
use ps2_driveforge.Session.Files.{
  keep_stat, keep_node, count_node_hit, count_node_miss, count_stat, count_stat_miss, count_read,
  resolve_and_keep, stat_result, stat_opened, stat_miss, stat_node, stat, find_node, read_result,
  read_opened, read_file,
}
use ps2_driveforge.Session.Fresh.{open_fresh, node_fresh, stat_fresh, read_opened_fresh, read_fresh}
use ps2_driveforge.Session.Coherent.{
  HoldsNode, HoldsStat, IsCoherent, Holds-node, Holds-stat, stat_fresh-same, counted,
  open_reader-exact,
}

module _ (device : Device) (scan : ScanResult) (begin : List (List ℕ) → ℕ) where
  keep_stat-IsCoherent :
      (s : Session) (key : List ℕ) (result : StatResult)
      → IsCoherent device scan s
      → HoldsStat device scan (key, result)
      → IsCoherent device scan (keep_stat begin s key result)
  unfolding keep_stat
  keep_stat-IsCoherent s key result c h = record {
    same_device = c.same_device;
    same_scan = c.same_scan;
    probes = c.probes;
    browses = c.browses;
    stats =
        bounded_store-All (HoldsStat device scan) begin max_stat_cache_entries s.stat_cache key
          result _ c.stats h;
    nodes = c.nodes;
  }

  keep_node-IsCoherent :
      (s : Session) (key : List ℕ) (node : Node)
      → IsCoherent device scan s
      → HoldsNode device scan (key, node)
      → IsCoherent device scan (keep_node begin s key node)
  unfolding keep_node
  keep_node-IsCoherent s key node c h = record {
    same_device = c.same_device;
    same_scan = c.same_scan;
    probes = c.probes;
    browses = c.browses;
    stats = c.stats;
    nodes =
        bounded_store-All (HoldsNode device scan) begin max_node_cache_entries s.node_cache key node
          _ c.nodes h;
  }

  module _ (id path : List ℕ) (no_unit : NoUnit id)
      (normal : normalize_cache_path path ≡ path) where
    -- the key of the path
    abbrev key : List ℕ
    key = make_cache_key id path

    abbrev IsNode : Result SessionError Node × Session → Type 0
    IsNode (found, s) = (found ≡ node_fresh device scan id path) × IsCoherent device scan s

    opened_node :
        (r : Reader)
        → open_fresh device scan id ≡ ok r
        → lift (resolve r path) ≡ node_fresh device scan id path
    unfolding node_fresh
    opened_node r opened = rw opened refl

    stat_of_node :
        (found : Result SessionError Node)
        → found ≡ node_fresh device scan id path
        → stat_result path found ≡ stat_fresh device scan id path
    unfolding stat_fresh
    stat_of_node found same = ap₂ stat_result (sym normal) same

    resolve_and_keep-exact :
        (s : Session) (r : Reader)
        → IsCoherent device scan s
        → open_fresh device scan id ≡ ok r
        → IsNode (resolve_and_keep begin s r path key)
    unfolding resolve_and_keep
    resolve_and_keep-exact s r c opened = elim (Result-cases (resolve r path)) [
      | inr (e, bad) ↦ rw (bad, resolve_and_keep) (sym (ap lift bad) ∙ opened_node r opened, c)
      | inl (node, found) ↦
          let same : ok node ≡ node_fresh device scan id path =
            sym (ap lift found) ∙ opened_node r opened in
          let kept =
            keep_node-IsCoherent s key node c (Holds-node device scan id path node no_unit same) in
          rw (found, resolve_and_keep)
            (
              same,
              keep_stat-IsCoherent (keep_node begin s key node) key (stat_from_node path node) kept
                  (Holds-stat device scan id path (stat_from_node path node) no_unit
                    (stat_of_node (ok node) same)),
            )
    ]

    find_node-exact :
        (s : Session) (r : Reader)
        → IsCoherent device scan s
        → open_fresh device scan id ≡ ok r
        → IsNode (find_node begin s r path key)
    unfolding find_node
    find_node-exact s r c opened = elim (Option-cases (find key s.node_cache)) [
      | inr (node, hit) ↦
          rw (hit, find_node)
            (
              find-All (HoldsNode device scan) s.node_cache key node c.nodes hit id path no_unit
                  refl,
              counted device scan s _ _ c,
            )
      | inl miss ↦
          rw (miss, find_node) (resolve_and_keep-exact _ r (counted device scan s _ _ c) opened)
    ]

    abbrev IsStat : StatResult × Session → Type 0
    IsStat (result, s) = (result ≡ stat_fresh device scan id path) × IsCoherent device scan s

    stat_opened-exact :
        (opened : Result SessionError Reader) (s : Session)
        → IsCoherent device scan s
        → opened ≡ open_fresh device scan id
        → IsStat (stat_opened begin opened s path key)
    unfolding stat_opened
    stat_opened-exact (err e) s c same =
        (stat_of_node (err e) (unfold node_fresh in rw (← same) refl), c)
    stat_opened-exact (ok r) s c same =
        let (found, kept) = resolve_and_keep-exact s r c (sym same) in
        (stat_of_node (resolve_and_keep begin s r path key).0 found, kept)

    stat_node-exact :
        (s : Session) → IsCoherent device scan s → IsStat (stat_node begin s id path key)
    unfolding stat_node stat_miss
    stat_node-exact s c = elim (Option-cases (find key s.node_cache)) [
      | inr (node, hit) ↦
          let same =
            find-All (HoldsNode device scan) s.node_cache key node c.nodes hit id path no_unit
              refl in
          rw (hit, stat_node)
            (
              stat_of_node (ok node) same,
              keep_stat-IsCoherent (count_node_hit s) key (stat_from_node path node)
                  (counted device scan s _ _ c)
                  (Holds-stat device scan id path (stat_from_node path node) no_unit
                    (stat_of_node (ok node) same)),
            )
      | inl miss ↦
          let (same, kept) =
            open_reader-exact device scan begin (count_node_miss s) id
              (counted device scan s _ _ c) in
          rw (miss, stat_node) (stat_opened-exact _ _ kept same)
    ]

    read_opened-exact :
        (opened : Result SessionError Reader) (s : Session) (offset size : ℕ)
        → IsCoherent device scan s
        → opened ≡ open_fresh device scan id
        → ((read_opened begin opened s path key offset size).0
            ≡ read_opened_fresh path offset size opened)
          × IsCoherent device scan (read_opened begin opened s path key offset size).1
    unfolding read_opened
    read_opened-exact (err e) s offset size c same = (refl, c)
    read_opened-exact (ok r) s offset size c same =
        let (found, kept) = find_node-exact s r c (sym same) in
        (ap (read_result r offset size) (found ∙ sym (opened_node r (sym same))), kept)

-- A stat answers what the disk gives for the partition and the path, with no cache at all, and leaves
-- the caches right; where the caches are right before it, each entry being what the disk gives for every
-- partition and path of its key, and the identity of the partition holds no unit separator.
pub stat-exact :
    (device : Device) (scan : ScanResult) (begin : List (List ℕ) → ℕ) (s : Session)
    (id path : List ℕ)
    → NoUnit id
    → IsCoherent device scan s
    → ((stat begin s id path).0 ≡ stat_fresh device scan id path)
      × IsCoherent device scan (stat begin s id path).1
unfolding stat
stat-exact device scan begin s id path no_unit c =
    let normal = normalize_cache_path path in
    let same = stat_fresh-same device scan id normal path (normalize_cache_path_idem path) in
    elim (Option-cases (find (make_cache_key id normal) s.stat_cache)) [
      | inr (result, hit) ↦
          rw (hit, stat)
            (
              find-All (HoldsStat device scan) s.stat_cache (make_cache_key id normal) result
                    c.stats hit id normal no_unit refl
                  ∙ same,
              counted device scan s _ _ c,
            )
      | inl miss ↦
          let (found, kept) =
            stat_node-exact device scan begin id normal no_unit (normalize_cache_path_idem path)
              (count_stat_miss (count_stat s)) (counted device scan s _ _ c) in
          rw (miss, stat) (found ∙ same, kept)
    ]

read_opened-normalize :
    (path : List ℕ) (offset size : ℕ) (opened : Result SessionError Reader)
    → read_opened_fresh (normalize_cache_path path) offset size opened
      ≡ read_opened_fresh path offset size opened
read_opened-normalize path offset size (err e) = refl
read_opened-normalize path offset size (ok r) =
    ap (λ found. read_result r offset size (lift found)) (resolve-normalize r path)

-- A read of a file answers what the disk gives for the partition, the path and the range, with no cache
-- at all, and leaves the caches right; where the caches are right before it, each entry being what the
-- disk gives for every partition and path of its key, and the identity of the partition holds no unit
-- separator.
pub read_file-exact :
    (device : Device) (scan : ScanResult) (begin : List (List ℕ) → ℕ) (s : Session)
    (id path : List ℕ) (offset size : ℕ)
    → NoUnit id
    → IsCoherent device scan s
    → ((read_file begin s id path offset size).0 ≡ read_fresh device scan id path offset size)
      × IsCoherent device scan (read_file begin s id path offset size).1
unfolding read_file read_fresh
read_file-exact device scan begin s id path offset size no_unit c =
    let (opened, kept) =
      open_reader-exact device scan begin (count_read s) id (counted device scan s _ _ c) in
    let (found, kept') =
      read_opened-exact device scan begin id (normalize_cache_path path) no_unit
        (normalize_cache_path_idem path) _ _ offset size kept opened in
    (
      found
          ∙ read_opened-normalize path offset size (open_reader begin (count_read s) id).0
          ∙ ap (read_opened_fresh path offset size) opened,
      kept',
    )
