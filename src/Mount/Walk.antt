-- ===== src/Mount/Walk.antt =====
-- A name behind a path: the walk along the path, and one step more in the directory that it reaches.
use ps2_driveforge.Base.{
  ℕ, ◌≡◌, refl, ap, sym, ◌∙◌, subst, List, [], ◌∷◌, ◌++◌, All, Bool, true, false, not, Option, none,
  some, Result, ok, err, Result-cases, Bool-cases, inl, inr, arith, if◌then◌else◌, ◌>>=◌, ◌>>◌,
  fail_if, from_option, ok_injective, ◌&&◌, ◌||◌,
}
use ps2_driveforge.Session.State.{SessionEntry, BrowseResult, is_directory, is_regular}
use ps2_driveforge.Apa.Scan.{ScanResult}
use ps2_driveforge.Names.{uppercase_ascii, sanitize_host_filename, unique_name}
use ps2_driveforge.Mount.Aliases.{
  MountNodeKind, root, namespace_directory, pfs_directory, pfs_file, Shown, AliasEntry,
  name_aliases, shown_entries, make_entry_aliases,
}
use ps2_driveforge.Mount.View.{
  MountError, no_pfs_path, through_file, session_error, join_pfs_path, MountLookupResult,
  is_pfs_directory, is_empty, choose_entry, reached, lookup_failed,
}
use ps2_driveforge.Mount.Fresh.{walk_fresh}
use ps2_driveforge.Mount.Ids.{find_alias-All}

abbrev pub is_pfs_kind : MountNodeKind → Bool
is_pfs_kind root = false
is_pfs_kind namespace_directory = false
is_pfs_kind pfs_directory = true
is_pfs_kind pfs_file = true

abbrev pub IsPfsKind : Shown → Type 0
IsPfsKind s = is_pfs_kind s.kind ≡ true

pub named-All :
    (P : Shown → Type 0) (used : List (List ℕ)) (shown : List Shown)
    → All P shown
    → All (λ (a : AliasEntry). P a.shown) (name_aliases used shown)
unfolding name_aliases
named-All P used [] h = tt
named-All P used (s ∷ shown) h = (
  h.0,
  named-All P (uppercase_ascii (unique_name used (sanitize_host_filename s.backing)) ∷ used) shown
      h.1,
)

kind_of_entry : (b : Bool) → is_pfs_kind (if b then pfs_directory else pfs_file) ≡ true
kind_of_entry true = refl
kind_of_entry false = refl

pub entries-IsPfsKind : (es : List SessionEntry) → All IsPfsKind (shown_entries es)
unfolding shown_entries
entries-IsPfsKind [] = tt
entries-IsPfsKind (e ∷ es) =
    elim (Bool-cases (not e.inode_readable || (not (is_directory e) && not (is_regular e)))) [
      | inl hidden ↦ rw (hidden, shown_entries) (entries-IsPfsKind es)
      | inr shown ↦ rw (shown, shown_entries) (kind_of_entry (is_directory e), entries-IsPfsKind es)
    ]

-- `choose_entry` with the result of the search
abbrev pub chosen : BrowseResult → Option AliasEntry → Bool → Result MountError AliasEntry
chosen browsed found last = do
  fail_if (not browsed.ok) (session_error browsed.error)
  entry ← from_option no_pfs_path found
  fail_if (not last && not (is_pfs_directory entry.shown.kind)) through_file
  ok entry

two_guards :
    (one two : Result MountError (Unit {0})) (x a : AliasEntry)
    → (one >>= λ u. two >>= λ v. ok x) ≡ ok a
    → x ≡ a
two_guards (err e) two x a h = cc h
two_guards (ok u) (err e) x a h = cc h
two_guards (ok u) (ok v) x a h = ok_injective h

one_guard :
    (one : Result MountError (Unit {0})) (inner : Bool) (x a : AliasEntry)
    → inner ≡ true
    → (one >>= λ u. ok x) ≡ ok a
    → (one >>= λ u. fail_if (not inner) through_file >>= λ v. ok x) ≡ ok a
one_guard one true x a e h = h
one_guard one false x a e h = cc e

chosen_found :
    (b : BrowseResult) (found : Option AliasEntry) (last : Bool) (a : AliasEntry)
    → chosen b found last ≡ ok a
    → found ≡ some a
chosen_found b none true a h = ground arith
chosen_found b none false a h = ground arith
chosen_found b (some x) last a h = ap some (two_guards _ _ x a h)

chosen_inner :
    (b : BrowseResult) (found : Option AliasEntry) (a : AliasEntry)
    → chosen b found true ≡ ok a
    → is_pfs_directory a.shown.kind ≡ true
    → chosen b found false ≡ ok a
chosen_inner b none a h directory = ground arith
chosen_inner b (some x) a h directory =
    let same = two_guards (fail_if (not b.ok) (session_error b.error)) (ok tt) x a h in
    one_guard (fail_if (not b.ok) (session_error b.error)) (is_pfs_directory x.shown.kind) x a
      (subst (λ y. is_pfs_directory y.shown.kind ≡ true) (sym same) directory) h

chosen-IsPfsKind :
    (b : BrowseResult) (name : List ℕ) (last : Bool) (a : AliasEntry)
    → choose_entry b name last ≡ ok a
    → IsPfsKind a.shown
unfolding choose_entry make_entry_aliases
chosen-IsPfsKind b name last a h =
    find_alias-All (λ (x : AliasEntry). IsPfsKind x.shown) _ name a
      (named-All IsPfsKind [] _ (entries-IsPfsKind b.entries)) (chosen_found b _ last a h)

-- the node is what the entry says
abbrev pub IsReached : AliasEntry → MountLookupResult → Type 0
IsReached a node = (node.ok ≡ true) × (node.kind ≡ a.shown.kind) × (node.size ≡ a.shown.size)

reached_kind :
    (r : MountLookupResult) (a : AliasEntry) (last : Bool)
    → IsPfsKind a.shown
    → is_pfs_kind r.kind ≡ true
    → is_pfs_kind (reached r a last).kind ≡ true
reached_kind r a true h k = h
reached_kind r a false h k = k

module _ (ask : List ℕ → List ℕ → BrowseResult) (scan : ScanResult) where
  pub walk-kind :
      (r : MountLookupResult) (path : List ℕ) (parts : List (List ℕ))
      → is_pfs_kind r.kind ≡ true
      → is_pfs_kind (walk_fresh ask scan r path parts).kind ≡ true
  unfolding walk_fresh
  walk-kind r path [] h = h
  walk-kind r path (name ∷ parts) h =
      elim (Result-cases (choose_entry (ask r.partition path) name (is_empty parts))) [
        | inr (e, bad) ↦ rw (bad, walk_fresh) h
        | inl (a, found) ↦
            rw (found, walk_fresh)
              (walk-kind _ (join_pfs_path path a.shown.backing) parts (
                reached_kind r a (is_empty parts)
                  (chosen-IsPfsKind (ask r.partition path) name (is_empty parts) a found) h))
      ]

  pub walk_partition :
      (r : MountLookupResult) (path : List ℕ) (parts : List (List ℕ))
      → (walk_fresh ask scan r path parts).partition ≡ r.partition
  unfolding walk_fresh
  walk_partition r path [] = refl
  walk_partition r path (name ∷ parts) =
      elim (Result-cases (choose_entry (ask r.partition path) name (is_empty parts))) [
        | inr (e, bad) ↦ rw (bad, walk_fresh) refl
        | inl (a, found) ↦
            rw (found, walk_fresh)
              (walk_partition (reached r a (is_empty parts)) (join_pfs_path path a.shown.backing)
                parts)
      ]

  step :
      (r : MountLookupResult) (path name : List ℕ) (a : AliasEntry)
      → choose_entry (ask r.partition path) name true ≡ ok a
      → IsReached a (walk_fresh ask scan r path (name ∷ []))
  unfolding walk_fresh
  step r path name a found = rw (found, walk_fresh) (refl, refl, refl)

  walk_next :
      (r : MountLookupResult) (path : List ℕ) (parts : List (List ℕ)) (name : List ℕ)
      (a : AliasEntry)
      → choose_entry (ask r.partition path) name (is_empty parts) ≡ ok a
      → walk_fresh ask scan r path (name ∷ parts)
        ≡ walk_fresh ask scan
            (reached r a (is_empty parts))
            (join_pfs_path path a.shown.backing)
            parts
  unfolding walk_fresh
  walk_next r path parts name a h = rw (h, walk_fresh) refl

  walk_failed :
      (r : MountLookupResult) (path : List ℕ) (parts : List (List ℕ)) (name : List ℕ)
      (e : MountError)
      → choose_entry (ask r.partition path) name (is_empty parts) ≡ err e
      → walk_fresh ask scan r path (name ∷ parts) ≡ lookup_failed r e
  unfolding walk_fresh
  walk_failed r path parts name e h = rw (h, walk_fresh) refl

  pub walk-append :
      (r : MountLookupResult) (path : List ℕ) (parts : List (List ℕ)) (name : List ℕ)
      (a : AliasEntry)
      → r.ok ≡ false
      → (walk_fresh ask scan r path parts).ok ≡ true
      → is_pfs_directory (walk_fresh ask scan r path parts).kind ≡ true
      → choose_entry (ask r.partition (walk_fresh ask scan r path parts).pfs_path) name true ≡ ok a
      → IsReached a (walk_fresh ask scan r path (parts ++ name ∷ []))
  unfolding walk_fresh choose_entry
  walk-append r path [] name a before good directory found = step r path name a found
  walk-append r path (m ∷ []) name a before good directory found =
      elim (Result-cases (choose_entry (ask r.partition path) m true)) [
        | inr (e, bad) ↦
            absurd (cc (sym good ∙ ap (λ w. w.ok) (walk_failed r path [] m e bad) ∙ before))
        | inl (b, first) ↦
            let next = join_pfs_path path b.shown.backing in
            let ended = walk_next r path [] m b first in
            let inner =
              chosen_inner (ask r.partition path) _ b first
                (subst (λ w. is_pfs_directory w.kind ≡ true) ended directory) in
            subst (IsReached a) (sym (walk_next r path (name ∷ []) m b inner)) (
              step (reached r b false) next name a (
                subst (λ w. choose_entry (ask r.partition w.pfs_path) name true ≡ ok a) ended
                  found))
      ]
  walk-append r path (m ∷ p ∷ parts) name a before good directory found =
      elim (Result-cases (choose_entry (ask r.partition path) m false)) [
        | inr (e, bad) ↦
            absurd
              (cc (sym good ∙ ap (λ w. w.ok) (walk_failed r path (p ∷ parts) m e bad) ∙ before))
        | inl (b, inner) ↦
            let next = walk_next r path (p ∷ parts) m b inner in
            subst (IsReached a) (sym (walk_next r path (p ∷ parts ++ name ∷ []) m b inner)) (
              walk-append (reached r b false) (join_pfs_path path b.shown.backing) (p ∷ parts) name
                a before (subst (λ w. w.ok ≡ true) next good)
                (subst (λ w. is_pfs_directory w.kind ≡ true) next directory)
                (subst (λ w. choose_entry (ask r.partition w.pfs_path) name true ≡ ok a) next
                  found))
      ]
