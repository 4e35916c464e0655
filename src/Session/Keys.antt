-- ===== src/Session/Keys.antt =====
-- The cache keys of host/drive_session.cpp: a normalized path is not changed again, and a key says
-- which partition and which path it is for.
use ps2_driveforge.Base.{
  ℕ, ◌≡◌, ◌≢◌, ◌⊎◌, inl, inr, refl, ap, ap₂, sym, subst, ◌∙◌, List, [], ◌∷◌, ◌++◌, Bool, true,
  false, Bool-cases, ◌==◌, arith, All, get_or, drop,
}
use ps2_driveforge.Pfs.Directory.{is_separator}
use ps2_driveforge.Session.Paths.{
  join_child, child_path, map_separator, collapse, trim_step, trim_slashes, normalize_cache_path,
  unit_separator, make_cache_key,
}

-- no backslash, and no slash at the front or after a slash
abbrev Semi : Bool → List ℕ → Type 0
Semi previous_slash [] = Unit
Semi previous_slash (c ∷ cs) =
    (c ≢ b'\\') × ((c ≡ b'/') → previous_slash ≡ false) × Semi (c == b'/') cs

-- and no slash at the end
abbrev Clean : Bool → List ℕ → Type 0
Clean previous_slash [] = previous_slash ≡ false
Clean previous_slash (c ∷ cs) =
    (c ≢ b'\\') × ((c ≡ b'/') → previous_slash ≡ false) × Clean (c == b'/') cs

collapse-Semi :
    (previous_slash : Bool) (path : List ℕ) → Semi previous_slash (collapse previous_slash path)
unfolding collapse
collapse-Semi previous_slash [] = tt
collapse-Semi true (c ∷ cs) = elim (Bool-cases (map_separator c == b'/')) [
  | inr other ↦
      let after_byte =
        subst (λ (b : Bool). Semi b (collapse false cs)) (sym other) (collapse-Semi false cs) in
      rw other (ground arith, λ e. ground arith, after_byte)
  | inl slash ↦ rw slash (collapse-Semi true cs)
]
collapse-Semi false (c ∷ cs) = elim (Bool-cases (map_separator c == b'/')) [
  | inr other ↦
      let after_byte =
        subst (λ (b : Bool). Semi b (collapse false cs)) (sym other) (collapse-Semi false cs) in
      rw other (ground arith, λ e. refl, after_byte)
  | inl slash ↦ rw slash (λ e. absurd (omega arith), λ e. refl, collapse-Semi true cs)
]

collapse-Clean :
    (previous_slash : Bool) (path : List ℕ)
    → Clean previous_slash path
    → collapse previous_slash path ≡ path
unfolding collapse
collapse-Clean previous_slash [] h = refl
collapse-Clean previous_slash (c ∷ cs) h =
    let ih = collapse-Clean (c == b'/') cs h.2 in ground (arith, h.1)

trim-Clean :
    (previous_slash : Bool) (path : List ℕ) → Clean previous_slash path → trim_slashes path ≡ path
unfolding trim_slashes
trim-Clean previous_slash [] h = refl
trim-Clean previous_slash (c ∷ []) h = ground arith
trim-Clean previous_slash (c ∷ d ∷ ds) h = ap (trim_step c) (trim-Clean (c == b'/') (d ∷ ds) h.2)

trim_step-Clean :
    (previous_slash : Bool) (c : ℕ) (trimmed : List ℕ)
    → c ≢ b'\\'
    → ((c ≡ b'/') → previous_slash ≡ false)
    → (trimmed ≡ []) ⊎ Clean (c == b'/') trimmed
    → (trim_step c trimmed ≡ []) ⊎ Clean previous_slash (trim_step c trimmed)
trim_step-Clean previous_slash c [] h k rest = elim (Bool-cases (c == b'/')) [
  | inl slash ↦ rw slash (inl refl)
  | inr other ↦ rw other (inr (h, k, other))
]
trim_step-Clean previous_slash c (d ∷ ds) h k (inl none) = cc
trim_step-Clean previous_slash c (d ∷ ds) h k (inr clean) = inr (h, k, clean)

trim-Semi :
    (previous_slash : Bool) (path : List ℕ)
    → Semi previous_slash path
    → (trim_slashes path ≡ []) ⊎ Clean previous_slash (trim_slashes path)
unfolding trim_slashes
trim-Semi previous_slash [] h = inl refl
trim-Semi previous_slash (c ∷ cs) h =
    trim_step-Clean previous_slash c (trim_slashes cs) h.0 h.1 (trim-Semi (c == b'/') cs h.2)

normalized :
    (path : List ℕ) → (normalize_cache_path path ≡ []) ⊎ Clean true (normalize_cache_path path)
unfolding normalize_cache_path
normalized path = trim-Semi true (collapse true path) (collapse-Semi true path)

Clean-normal : (path : List ℕ) → Clean true path → normalize_cache_path path ≡ path
unfolding normalize_cache_path
Clean-normal path clean =
    ap trim_slashes (collapse-Clean true path clean) ∙ trim-Clean true path clean

pub normalize_cache_path_idem :
    (path : List ℕ) → normalize_cache_path (normalize_cache_path path) ≡ normalize_cache_path path
normalize_cache_path_idem path = elim (normalized path) [
  | inl empty ↦ rw empty (unfold normalize_cache_path collapse trim_slashes in refl)
  | inr clean ↦ Clean-normal _ clean
]

-- the bytes before the unit separator, and those behind it
abbrev pub NoUnit : List ℕ → Type 0
NoUnit = All (λ (c : ℕ). c ≢ unit_separator)

first_unit :
    (a b : List ℕ) {x y : List ℕ}
    → NoUnit a
    → NoUnit b
    → a ++ unit_separator ∷ x ≡ b ++ unit_separator ∷ y
    → (a ≡ b) × (x ≡ y)
first_unit [] [] h k e = (refl, ap (drop 1) e)
first_unit [] (b ∷ bs) h k e = absurd (k.0 (sym (ap (λ (cs : List ℕ). get_or cs 0 0) e)))
first_unit (a ∷ as') [] h k e = absurd (h.0 (ap (λ (cs : List ℕ). get_or cs 0 0) e))
first_unit (a ∷ as') (b ∷ bs) h k e =
    let (rest, tail) = first_unit as' bs h.1 k.1 (ap (drop 1) e) in
    (ap₂ ◌∷◌ (ap (λ (cs : List ℕ). get_or cs 0 0) e) rest, tail)

-- A key names one partition and one path, where the identities of partitions hold no unit separator.
pub make_cache_key_injective :
    (p q x y : List ℕ)
    → NoUnit p
    → NoUnit q
    → make_cache_key p x ≡ make_cache_key q y
    → (p ≡ q) × (normalize_cache_path x ≡ normalize_cache_path y)
unfolding make_cache_key
make_cache_key_injective p q x y h k e = first_unit p q h k e

-- the path of a child is normalized where that of its directory is, and its name is one component
Clean-component :
    (previous_slash : Bool) (name : List ℕ)
    → All (λ (c : ℕ). is_separator c ≡ false) name
    → name ≢ []
    → Clean previous_slash name
Clean-component previous_slash [] h some_bytes = absurd (some_bytes refl)
Clean-component previous_slash (c ∷ []) h some_bytes =
    let first = h.0 in (ground arith, λ e. absurd (ground arith), ground arith)
Clean-component previous_slash (c ∷ d ∷ ds) h some_bytes =
    let first = h.0 in
    (ground arith, λ e. absurd (ground arith), Clean-component (c == b'/') (d ∷ ds) h.1 (λ e. cc))

Clean-child :
    (previous_slash : Bool) (path name : List ℕ)
    → Clean previous_slash path
    → All (λ (c : ℕ). is_separator c ≡ false) name
    → name ≢ []
    → Clean previous_slash (path ++ b'/' ∷ name)
Clean-child previous_slash [] name h k some_bytes =
    (λ e. absurd (omega arith), λ e. h, Clean-component true name k some_bytes)
Clean-child previous_slash (c ∷ cs) name h k some_bytes =
    (h.0, h.1, Clean-child (c == b'/') cs name h.2 k some_bytes)

join_child-normal :
    (path name : List ℕ)
    → (path ≡ []) ⊎ Clean true path
    → All (λ (c : ℕ). is_separator c ≡ false) name
    → name ≢ []
    → normalize_cache_path (join_child path name) ≡ join_child path name
join_child-normal [] name h k some_bytes =
    Clean-normal name (Clean-component true name k some_bytes)
join_child-normal (c ∷ cs) name (inl empty) k some_bytes = cc
join_child-normal (c ∷ cs) name (inr clean) k some_bytes =
    Clean-normal _ (Clean-child true (c ∷ cs) name clean k some_bytes)

pub normalize-child_path :
    (path name : List ℕ)
    → All (λ (c : ℕ). is_separator c ≡ false) name
    → name ≢ []
    → normalize_cache_path (child_path path name) ≡ child_path path name
unfolding child_path
normalize-child_path path name h some_bytes =
    join_child-normal (normalize_cache_path path) name (normalized path) h some_bytes
