-- ===== src/Mount/Shown.antt =====
-- What a listing of the mounted drive says of the nodes behind its names, and the names that
-- host/mount_view.cpp finds and allows.
use ps2_driveforge.Base.{
  ℕ, suc, ◌≢◌, ◌+◌, ◌<◌, ◌^◌, ◌≡◌, refl, ap, ◌∙◌, List, [], ◌∷◌, ◌++◌, length, map, All, true,
  false, not, some, ok, Bool-cases, inl, inr, arith, ◌||◌, ◌==◌, ◌>>=◌, fail_if,
}
use ps2_driveforge.Base.Bytes.{bytes_eq, bytes_eq→eq, codes}
use ps2_driveforge.Apa.Header.{Partition, is_sub, type_pfs}
use ps2_driveforge.Session.State.{BrowseResult}
use ps2_driveforge.Pfs.Children.{IsComponent}
use ps2_driveforge.Mount.Aliases.{
  pfs_directory, Shown, AliasEntry, name_aliases, shown_partitions, make_entry_aliases, find_alias,
}
use ps2_driveforge.Mount.View.{
  session_error, MountEntry, MountLookupResult, MountListResult, is_forbidden_component,
  any_forbidden, choose_entry, mount_entry,
}
use ps2_driveforge.Mount.Unique.{aliases-found, aliases-IsComponent}
use ps2_driveforge.Mount.Walk.{chosen}

-- the node is what the listing says of it
abbrev pub IsShown : MountEntry → MountLookupResult → Type 0
IsShown e node = (node.ok ≡ true) × (node.kind ≡ e.kind) × (node.size ≡ e.size)

-- fewer names than numbers of `unique_name`
abbrev pub IsFew : MountListResult → Type 0
IsFew result = length result.entries + 2 < 2 ^ 32

pub map-All :
    {A B : Type 0} (P : B → Type 0) (f : A → B) (xs : List A)
    → All (λ x. P (f x)) xs
    → All P (map f xs)
map-All P f [] h = tt
map-All P f (x ∷ xs) h = (h.0, map-All P f xs h.1)

length-entries :
    (shown : List Shown) (used : List (List ℕ))
    → length (map mount_entry (name_aliases used shown)) ≡ length shown
unfolding name_aliases
length-entries [] used = refl
length-entries (s ∷ shown) used = ap suc (length-entries shown _)

differs : (left right : List ℕ) → left ≢ right → bytes_eq left right ≡ false
differs left right h = elim (Bool-cases (bytes_eq left right)) [
  | inl same ↦ absurd (h (bytes_eq→eq left right same))
  | inr other ↦ other
]

pub allowed : (name : List ℕ) → IsComponent name → is_forbidden_component name ≡ false
allowed name named =
    let dot = differs name (codes ".") named.no_dot in
    let dots = differs name (codes "..") named.no_dots in ground arith

pub any_forbidden-append :
    (parts : List (List ℕ)) (name : List ℕ)
    → any_forbidden parts ≡ false
    → is_forbidden_component name ≡ false
    → any_forbidden (parts ++ name ∷ []) ≡ false
unfolding any_forbidden
any_forbidden-append [] name h k = ground arith
any_forbidden-append (p ∷ parts) name h k =
    let rest = any_forbidden-append parts name (ground arith) k in ground arith

-- a partition is shown as an empty directory
abbrev pub IsPartition : Shown → Type 0
IsPartition s = (s.kind ≡ pfs_directory) × (s.size ≡ 0)

pub partitions-IsPartition : (ps : List Partition) → All IsPartition (shown_partitions ps)
unfolding shown_partitions
partitions-IsPartition [] = tt
partitions-IsPartition (p ∷ ps) = elim (Bool-cases (is_sub p || not (p.type == type_pfs))) [
  | inl hidden ↦ rw (hidden, shown_partitions) (partitions-IsPartition ps)
  | inr shown ↦ rw (shown, shown_partitions) ((refl, refl), partitions-IsPartition ps)
]

-- what is known of an alias that is shown
abbrev pub IsFoundIn : List AliasEntry → AliasEntry → Type 0
IsFoundIn aliases a = (find_alias aliases a.visible ≡ some a) × IsComponent a.visible

pub both :
    {A : Type 0} (P Q : A → Type 0) (xs : List A) → All P xs → All Q xs → All (λ x. P x × Q x) xs
both P Q [] h k = tt
both P Q (x ∷ xs) h k = ((h.0, k.0), both P Q xs h.1 k.1)

pub implies :
    {A : Type 0} (P Q : A → Type 0) (xs : List A) → ((x : A) → P x → Q x) → All P xs → All Q xs
implies P Q [] f h = tt
implies P Q (x ∷ xs) f h = (f x h.0, implies P Q xs f h.1)

pub names-IsFoundIn :
    (shown : List Shown)
    → length (map mount_entry (name_aliases [] shown)) + 2 < 2 ^ 32
    → All (IsFoundIn (name_aliases [] shown)) (name_aliases [] shown)
names-IsFoundIn shown few =
    both _ _ (name_aliases [] shown)
      (aliases-found [] shown (omega (arith, length-entries shown [])))
      (aliases-IsComponent [] shown)

pub choose_found :
    (b : BrowseResult) (a : AliasEntry)
    → b.ok ≡ true
    → find_alias (make_entry_aliases b.entries) a.visible ≡ some a
    → choose_entry b a.visible true ≡ ok a
unfolding choose_entry
choose_found b a good found =
    ap (λ option. chosen b option true) found
    ∙ ap (λ t. fail_if (not t) (session_error b.error) >>= λ u. ok a) good
