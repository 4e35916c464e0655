-- ===== src/Session/Exact.antt =====
-- The operations of a session answer as if there were no caches, and keep what the caches hold right.
use ps2_driveforge.Base.{
  ℕ, ◌≡◌, refl, ap, sym, ◌∙◌, subst, List, map, All, Result, ok, err, ◌>>=◌, ◌>>◌, Result-cases,
  inl, inr, false, ok_injective, Option-cases,
}
use ps2_driveforge.Device.{Device}
use ps2_driveforge.Apa.Scan.{ScanResult}
use ps2_driveforge.Pfs.Types.{Node, DirectoryEntry}
use ps2_driveforge.Pfs.Metadata.{Fault, Reader}
use ps2_driveforge.Pfs.Directory.{resolve, list_directory}
use ps2_driveforge.Pfs.Children.{Distinct-found}
use ps2_driveforge.Session.Paths.{normalize_cache_path, make_cache_key}
use ps2_driveforge.Session.Store.{find}
use ps2_driveforge.Session.Kept.{find-All, bounded_store-All, store_all-All}
use ps2_driveforge.Session.Keys.{NoUnit, normalize_cache_path_idem}
use ps2_driveforge.Session.State.{
  Session, SessionError, BrowseResult, open_reader, lift, max_browse_cache_entries,
  max_stat_cache_entries, max_node_cache_entries,
}
use ps2_driveforge.Session.Browse.{
  make_child, list_path, listed, with_keys, with_stats, keep_listing, browse_reader,
  browse_opened_with, browse_miss, browse,
}
use ps2_driveforge.Session.Fresh.{open_fresh, browse_opened, browse_fresh}
use ps2_driveforge.Session.Coherent.{
  HoldsNode, HoldsStat, HoldsBrowse, IsCoherent, Holds-browse, browse_fresh-same, counted,
  open_reader-exact,
}
use ps2_driveforge.Session.Children.{
  HasNames, IsFound, found_keys, found_stats, resolved_node, children-IsFound,
}

abbrev Listing : Type 0
Listing = Result SessionError (Node × List DirectoryEntry)

-- `list_path` past the node
abbrev list_node :
    Node → Result SessionError (Unit {0}) → Result Fault (List DirectoryEntry) → Listing
list_node n check listing = do check; entries ← lift listing; ok (n, entries)

abbrev list_found :
    Result Fault Node
    → (Node → Result SessionError (Unit {0}))
    → (Node → Result Fault (List DirectoryEntry))
    → Listing
list_found found check listing = do n ← lift found; list_node n (check n) (listing n)

listed_parts :
    (n node : Node) (entries : List DirectoryEntry) (check : Result SessionError (Unit {0}))
    (listing : Result Fault (List DirectoryEntry))
    → list_node n check listing ≡ ok (node, entries)
    → (n ≡ node) × (listing ≡ ok entries)
listed_parts n node entries (err e) listing h = cc h
listed_parts n node entries (ok u) (err e) h = cc h
listed_parts n node entries (ok u) (ok es) h =
    let pair = ok_injective h in (ap (λ p. p.0) pair, ap ok (ap (λ p. p.1) pair))

found_parts :
    (found : Result Fault Node) (check : Node → Result SessionError (Unit {0}))
    (listing : Node → Result Fault (List DirectoryEntry)) (node : Node)
    (entries : List DirectoryEntry)
    → list_found found check listing ≡ ok (node, entries)
    → (found ≡ ok node) × (listing node ≡ ok entries)
found_parts (err e) check listing node entries h = cc h
found_parts (ok n) check listing node entries h =
    let (same, all) = listed_parts n node entries (check n) (listing n) h in
    (ap ok same, subst (λ m. listing m ≡ ok entries) same all)

-- what a listing says of its directory
pub list_path-parts :
    (r : Reader) (path : List ℕ) (node : Node) (entries : List DirectoryEntry)
    → list_path r path ≡ ok (node, entries)
    → (resolve r path ≡ ok node) × (list_directory r node false ≡ ok entries)
unfolding list_path
list_path-parts r path node entries h =
    found_parts (resolve r path) _ (λ n. list_directory r n false) node entries h

module _ (device : Device) (scan : ScanResult) (begin : List (List ℕ) → ℕ) where
  keep_listing-IsCoherent :
      (s : Session) (id path : List ℕ) (nodes : List (List ℕ × Node)) (result : BrowseResult)
      → IsCoherent device scan s
      → NoUnit id
      → All (IsFound device scan id) nodes
      → result ≡ browse_fresh device scan id path
      → IsCoherent device scan (keep_listing begin s id (make_cache_key id path) nodes result)
  unfolding keep_listing
  keep_listing-IsCoherent s id path nodes result c h found same = record {
    same_device = c.same_device;
    same_scan = c.same_scan;
    probes = c.probes;
    browses =
        bounded_store-All (HoldsBrowse device scan) begin max_browse_cache_entries s.browse_cache
          (make_cache_key id path) result _ c.browses
          (Holds-browse device scan id path result h same);
    stats =
        store_all-All (HoldsStat device scan) begin max_stat_cache_entries s.stat_cache
          (with_stats id nodes) _ c.stats (found_stats device scan id nodes h found);
    nodes =
        store_all-All (HoldsNode device scan) begin max_node_cache_entries s.node_cache
          (with_keys id nodes) _ c.nodes (found_keys device scan id nodes h found);
  }

  module _ (names : HasNames device scan) (id : List ℕ) (no_unit : NoUnit id) where
    -- an answer and the session after it
    abbrev IsAnswer : List ℕ → BrowseResult × Session → Type 0
    IsAnswer path (result, s) =
        (result ≡ browse_fresh device scan id path) × IsCoherent device scan s

    browse_reader-exact :
        (s : Session) (r : Reader) (path : List ℕ)
        → normalize_cache_path path ≡ path
        → IsCoherent device scan s
        → open_fresh device scan id ≡ ok r
        → IsAnswer path (browse_reader begin s r id path (make_cache_key id path))
    unfolding browse_reader browse_fresh
    browse_reader-exact s r path normal c opened = elim (Result-cases (list_path r path)) [
      | inr (e, bad) ↦ rw (bad, browse_reader, opened, bad) (refl, c)
      | inl ((node, entries), found) ↦
          let (resolved, listing) = list_path-parts r path node entries found in
          let named = names id path r node entries opened found in
          let children =
            children-IsFound device scan id path r node entries opened resolved listing entries
              (Distinct-found entries named.distinct) named.components in
          let same : listed (map (make_child r) entries)
              ≡ browse_opened path (open_fresh device scan id) =
            rw (opened, found) refl in
          rw (found, browse_reader)
            (
              same,
              keep_listing-IsCoherent s id path _ _ c no_unit
                  ((resolved_node device scan id path r node opened resolved, normal), children)
                  same,
            )
    ]

    browse_opened-exact :
        (path : List ℕ) (opened : Result SessionError Reader) (s : Session)
        → normalize_cache_path path ≡ path
        → opened ≡ open_fresh device scan id
        → IsCoherent device scan s
        → IsAnswer path (browse_opened_with begin opened s id path (make_cache_key id path))
    unfolding browse_opened_with browse_fresh
    browse_opened-exact path (err e) s normal same c = (ap (browse_opened path) same, c)
    browse_opened-exact path (ok r) s normal same c =
        browse_reader-exact s r path normal c (sym same)

    browse_miss-exact :
        (s : Session) (path : List ℕ)
        → normalize_cache_path path ≡ path
        → IsCoherent device scan s
        → IsAnswer path (browse_miss begin s id path (make_cache_key id path))
    unfolding browse_miss
    browse_miss-exact s path normal c =
        let (same, kept) = open_reader-exact device scan begin s id c in
        browse_opened-exact path (open_reader begin s id).0 (open_reader begin s id).1 normal same
          kept

    browse_normal :
        (s : Session) (path : List ℕ)
        → IsCoherent device scan s
        → IsAnswer (normalize_cache_path path) (browse begin s id path)
    unfolding browse
    browse_normal s path c =
        let normal = normalize_cache_path path in
        let key = make_cache_key id normal in
        elim (Option-cases (find key s.browse_cache)) [
          | inr (result, hit) ↦
              rw (hit, browse)
                (
                  find-All (HoldsBrowse device scan) s.browse_cache key result c.browses hit id
                      normal no_unit refl,
                  counted device scan s _ _ c,
                )
          | inl miss ↦
              rw (miss, browse)
                (browse_miss-exact _ normal (normalize_cache_path_idem path)
                  (counted device scan s _ _ c))
        ]

pub browse-exact :
    (device : Device) (scan : ScanResult) (begin : List (List ℕ) → ℕ) (s : Session)
    (id path : List ℕ)
    → HasNames device scan
    → NoUnit id
    → IsCoherent device scan s
    → ((browse begin s id path).0 ≡ browse_fresh device scan id path)
      × IsCoherent device scan (browse begin s id path).1
browse-exact device scan begin s id path names no_unit c =
    let (same, kept) = browse_normal device scan begin names id no_unit s path c in
    (same ∙ browse_fresh-same device scan id _ path (normalize_cache_path_idem path), kept)
