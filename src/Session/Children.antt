-- ===== src/Session/Children.antt =====
-- The nodes that `browse` of host/drive_session.cpp keeps for the entries of a directory are those that
-- their paths name.
use ps2_driveforge.Base.{
  ℕ, ◌≡◌, refl, ap₂, sym, subst, List, [], ◌∷◌, map, All, Result, ok, ◌>>=◌, Result-cases, inl, inr,
  some, false,
}
use ps2_driveforge.Device.{Device}
use ps2_driveforge.Apa.Scan.{ScanResult}
use ps2_driveforge.Pfs.Types.{Node, DirectoryEntry}
use ps2_driveforge.Pfs.Metadata.{Fault, Reader, read_inode}
use ps2_driveforge.Pfs.Directory.{resolve, find_entry, list_directory}
use ps2_driveforge.Pfs.Children.{IsComponent, IsWellNamed, enter-listed}
use ps2_driveforge.Pfs.ChildPaths.{resolve-child}
use ps2_driveforge.Session.Paths.{normalize_cache_path, child_path}
use ps2_driveforge.Session.Keys.{NoUnit, normalize-child_path}
use ps2_driveforge.Session.Components.{child_path-components}
use ps2_driveforge.Session.State.{stat_from_node}
use ps2_driveforge.Session.Browse.{
  child_of, keep_child, make_child, list_path, child_nodes, with_keys, with_stats,
}
use ps2_driveforge.Session.Files.{stat_result}
use ps2_driveforge.Session.Fresh.{open_fresh, node_fresh, stat_fresh}
use ps2_driveforge.Session.Coherent.{HoldsNode, HoldsStat, Holds-node, Holds-stat}

module _ (device : Device) (scan : ScanResult) where
  -- the names of every directory of the disk tell its entries apart
  abbrev pub HasNames : Type 0
  HasNames =
      (id path : List ℕ) (r : Reader) (node : Node) (entries : List DirectoryEntry)
      → open_fresh device scan id ≡ ok r
      → list_path r path ≡ ok (node, entries)
      → IsWellNamed entries

  -- a path in normal form, and its node
  abbrev pub IsFound : List ℕ → List ℕ × Node → Type 0
  IsFound id (path, node) =
      (ok node ≡ node_fresh device scan id path) × (normalize_cache_path path ≡ path)

  pub found_keys :
      (id : List ℕ) (nodes : List (List ℕ × Node))
      → NoUnit id
      → All (IsFound id) nodes
      → All (HoldsNode device scan) (with_keys id nodes)
  found_keys id [] h found = tt
  found_keys id ((path, node) ∷ nodes) h found =
      (Holds-node device scan id path node h found.0.0, found_keys id nodes h found.1)

  found_stat :
      (id path : List ℕ) (node : Node)
      → IsFound id (path, node)
      → stat_from_node path node ≡ stat_fresh device scan id path
  unfolding stat_fresh
  found_stat id path node found = ap₂ stat_result (sym found.1) found.0

  pub found_stats :
      (id : List ℕ) (nodes : List (List ℕ × Node))
      → NoUnit id
      → All (IsFound id) nodes
      → All (HoldsStat device scan) (with_stats id nodes)
  found_stats id [] h found = tt
  found_stats id ((path, node) ∷ nodes) h found = (
    Holds-stat device scan id path (stat_from_node path node) h (found_stat id path node found.0),
    found_stats id nodes h found.1,
  )

  pub resolved_node :
      (id path : List ℕ) (r : Reader) (node : Node)
      → open_fresh device scan id ≡ ok r
      → resolve r path ≡ ok node
      → ok node ≡ node_fresh device scan id path
  unfolding node_fresh
  resolved_node id path r node opened resolved = rw (opened, ◌>>=◌, resolved) refl

  module _ (id path : List ℕ) (r : Reader) (node : Node) (entries : List DirectoryEntry)
      (opened : open_fresh device scan id ≡ ok r) (resolved : resolve r path ≡ ok node)
      (listing : list_directory r node false ≡ ok entries) where
    child-IsFound :
        (e : DirectoryEntry) (child : Node)
        → find_entry e.name entries ≡ some e
        → IsComponent e.name
        → read_inode r e.inode ≡ ok child
        → IsFound id (child_path path e.name, child)
    child-IsFound e child first named readable =
        let entered = enter-listed r node child entries e listing first named readable in
        let reached =
          resolve-child r path (child_path path e.name) e.name node child resolved
            (child_path-components path e.name named) named entered in
        (
          resolved_node id (child_path path e.name) r child opened reached,
          normalize-child_path path e.name named.no_separator named.some_bytes,
        )

    pub children-IsFound :
        (es : List DirectoryEntry)
        → All (λ (e : DirectoryEntry). find_entry e.name entries ≡ some e) es
        → All (λ (e : DirectoryEntry). IsComponent e.name) es
        → All (IsFound id) (child_nodes path (map (make_child r) es))
    unfolding child_nodes make_child
    children-IsFound [] first named = tt
    children-IsFound (e ∷ es) first named =
        let rest = children-IsFound es first.1 named.1 in
        let P = λ (found : Result Fault Node).
          All (IsFound id)
            (keep_child path (child_of e found) (child_nodes path (map (make_child r) es))) in
        elim (Result-cases (read_inode r e.inode)) [
          | inr (fault, bad) ↦ subst P (sym bad) rest
          | inl (child, readable) ↦
              subst P (sym readable) (child-IsFound e child first.0 named.0 readable, rest)
        ]
