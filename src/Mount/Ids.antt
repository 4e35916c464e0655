-- ===== src/Mount/Ids.antt =====
-- The identities of the partitions that the answers of host/mount_view.cpp name hold no unit separator,
-- which separates the two parts of a key in the caches of the session.
use ps2_driveforge.Base.{
  ℕ, ◌≡◌, refl, ◌∙◌, subst, List, [], ◌∷◌, All, true, false, not, Option, none, some, not,
  Result-cases, Bool-cases, ◌||◌, ◌==◌, inl, inr, arith,
}
use ps2_driveforge.Base.Bytes.{codes}
use ps2_driveforge.Apa.Header.{Partition, is_sub, type_pfs}
use ps2_driveforge.Apa.Scan.{ScanResult}
use ps2_driveforge.Names.{uppercase_ascii, sanitize_host_filename, unique_name}
use ps2_driveforge.Session.Keys.{NoUnit}
use ps2_driveforge.Session.State.{BrowseResult}
use ps2_driveforge.Mount.Aliases.{
  Shown, AliasEntry, equal_windows_name, name_aliases, shown_partitions, make_partition_aliases,
  find_alias,
}
use ps2_driveforge.Mount.View.{
  split_path, join_pfs_path, MountLookupResult, any_forbidden, is_empty, choose_entry, reached,
  in_partition,
}
use ps2_driveforge.Mount.Fresh.{
  walk_fresh, partition_fresh, namespace_fresh, parts_fresh, lookup_fresh,
}

-- the identities of the partitions of the scan hold no unit separator
abbrev pub HasIds : ScanResult → Type 0
HasIds scan = All (λ (p : Partition). NoUnit p.id) scan.partitions

shown-NoUnit :
    (ps : List Partition)
    → All (λ (p : Partition). NoUnit p.id) ps
    → All (λ (s : Shown). NoUnit s.backing) (shown_partitions ps)
unfolding shown_partitions
shown-NoUnit [] h = tt
shown-NoUnit (p ∷ ps) h = elim (Bool-cases (is_sub p || not (p.type == type_pfs))) [
  | inl hidden ↦ rw (hidden, shown_partitions) (shown-NoUnit ps h.1)
  | inr shown ↦ rw (shown, shown_partitions) (h.0, shown-NoUnit ps h.1)
]

named-NoUnit :
    (used : List (List ℕ)) (shown : List Shown)
    → All (λ (s : Shown). NoUnit s.backing) shown
    → All (λ (a : AliasEntry). NoUnit a.shown.backing) (name_aliases used shown)
unfolding name_aliases
named-NoUnit used [] h = tt
named-NoUnit used (s ∷ shown) h = (
  h.0,
  named-NoUnit (uppercase_ascii (unique_name used (sanitize_host_filename s.backing)) ∷ used) shown
      h.1,
)

hit_first :
    (as' : List AliasEntry) (name : List ℕ) (a b : AliasEntry)
    → equal_windows_name b.visible name ≡ true
    → find_alias (b ∷ as') name ≡ some a
    → b ≡ a
unfolding find_alias
hit_first as' name a b hit e = ground arith

miss_first :
    (as' : List AliasEntry) (name : List ℕ) (b : AliasEntry)
    → equal_windows_name b.visible name ≡ false
    → find_alias as' name ≡ find_alias (b ∷ as') name
unfolding find_alias
miss_first as' name b miss = ground arith

-- a found alias is one of those searched
pub find_alias-All :
    (P : AliasEntry → Type 0) (as' : List AliasEntry) (name : List ℕ) (a : AliasEntry)
    → All P as'
    → find_alias as' name ≡ some a
    → P a
unfolding find_alias
find_alias-All P [] name a h e = cc e
find_alias-All P (b ∷ as') name a h e = elim (Bool-cases (equal_windows_name b.visible name)) [
  | inl hit ↦ subst P (hit_first as' name a b hit e) h.0
  | inr miss ↦ find_alias-All P as' name a h.1 (miss_first as' name b miss ∙ e)
]

pub partition-NoUnit :
    (scan : ScanResult) (name : List ℕ) (a : AliasEntry)
    → HasIds scan
    → find_alias (make_partition_aliases scan) name ≡ some a
    → NoUnit a.shown.backing
unfolding make_partition_aliases
partition-NoUnit scan name a ids found =
    find_alias-All (λ (b : AliasEntry). NoUnit b.shown.backing) _ name a
      (named-NoUnit [] _ (shown-NoUnit scan.partitions ids)) found

-- the partition of an answer has the identity of one of the scan, or none
module _ (ask : List ℕ → List ℕ → BrowseResult) (scan : ScanResult) where
  walk-NoUnit :
      (result : MountLookupResult) (path : List ℕ) (parts : List (List ℕ))
      → NoUnit result.partition
      → NoUnit (walk_fresh ask scan result path parts).partition
  unfolding walk_fresh
  walk-NoUnit result path [] h = h
  walk-NoUnit result path (name ∷ parts) h =
      let last = is_empty parts in
      elim (Result-cases (choose_entry (ask result.partition path) name last)) [
        | inr (e, bad) ↦ rw (bad, walk_fresh) h
        | inl (entry, found) ↦
            rw (found, walk_fresh)
              (walk-NoUnit (reached result entry last) (join_pfs_path path entry.shown.backing)
                parts h)
      ]

  partition_fresh-NoUnit :
      (found : Option AliasEntry) (parts : List (List ℕ))
      → ((a : AliasEntry) → found ≡ some a → NoUnit a.shown.backing)
      → NoUnit (partition_fresh ask scan found parts).partition
  unfolding partition_fresh
  partition_fresh-NoUnit none parts h = tt
  partition_fresh-NoUnit (some a) parts h = walk-NoUnit (in_partition a) [] parts (h a refl)

  namespace-NoUnit :
      (rest : List (List ℕ)) → HasIds scan → NoUnit (namespace_fresh ask scan rest).partition
  unfolding namespace_fresh
  namespace-NoUnit [] ids = tt
  namespace-NoUnit (name ∷ rest) ids =
      partition_fresh-NoUnit _ rest (λ a found. partition-NoUnit scan name a ids found)

  parts-NoUnit :
      (parts : List (List ℕ)) → HasIds scan → NoUnit (parts_fresh ask scan parts).partition
  unfolding parts_fresh namespace_fresh
  parts-NoUnit [] ids = tt
  parts-NoUnit (first ∷ rest) ids = elim (Bool-cases (any_forbidden (first ∷ rest))) [
    | inl dots ↦ rw (dots, parts_fresh) tt
    | inr plain ↦ elim (Bool-cases (equal_windows_name first (codes "Partitions"))) [
      | inl here ↦ rw (plain, here, parts_fresh) (namespace-NoUnit rest ids)
      | inr other ↦ rw (plain, other, parts_fresh) tt
    ]
  ]

  pub lookup-NoUnit : (path : List ℕ) → HasIds scan → NoUnit (lookup_fresh ask scan path).partition
  unfolding lookup_fresh
  lookup-NoUnit path ids = parts-NoUnit (split_path path) ids
