-- ===== src/Pfs/Components.antt =====
-- A path as the list of its components, apart from the loops that read it, and `Reader::resolve` of
-- core/pfs.cpp as a walk along that list.
use ps2_driveforge.Base.{
  ℕ, zero, suc, ◌≤◌, ◌≡◌, refl, ap, sym, ◌∙◌, List, [], ◌∷◌, ◌++◌, append_assoc, append-nil, length,
  true, false, Bool-cases, inl, inr, arith, if◌then◌else◌, Result, ok, ◌>>=◌, fun_ext,
}
use ps2_driveforge.Base.Bytes.{bytes_eq, codes}
use ps2_driveforge.Pfs.Types.{Node}
use ps2_driveforge.Pfs.Metadata.{Fault, Reader, root}
use ps2_driveforge.Pfs.Directory.{
  is_separator, split_component, skip_separators, enter, resolve_loop, resolve,
}
use ps2_driveforge.Pfs.Ends.{skipped, skip_separators-le, split_component-lt}

abbrev pub flush : List ℕ → List (List ℕ)
flush [] = []
flush (c ∷ cs) = (c ∷ cs) ∷ []

-- the components of a path, after the bytes `current` of one
unfoldable pub components_from : List ℕ → List ℕ → List (List ℕ)
components_from current [] = flush current
components_from current (c ∷ cs) =
    if is_separator c
    then flush current ++ components_from [] cs
    else components_from (current ++ c ∷ []) cs

abbrev pub components : List ℕ → List (List ℕ)
components path = components_from [] path

pub components_sep :
    (current : List ℕ) (c : ℕ) (cs : List ℕ)
    → is_separator c ≡ true
    → components_from current (c ∷ cs) ≡ flush current ++ components cs
unfolding components_from
components_sep current c cs h = rw h refl

pub components_byte :
    (current : List ℕ) (c : ℕ) (cs : List ℕ)
    → is_separator c ≡ false
    → components_from current (c ∷ cs) ≡ components_from (current ++ c ∷ []) cs
unfolding components_from
components_byte current c cs h = rw h refl

pub components_skip : (path : List ℕ) → components (skip_separators path) ≡ components path
unfolding skip_separators
components_skip [] = refl
components_skip (c ∷ cs) = elim (Bool-cases (is_separator c)) [
  | inl sep ↦ rw (skips c cs sep) (components_skip cs ∙ sym (components_sep [] c cs sep))
  | inr other ↦ rw (keeps c cs other) refl
]
  where
    skips :
        (c : ℕ) (cs : List ℕ)
        → is_separator c ≡ true
        → skip_separators (c ∷ cs) ≡ skip_separators cs
    skips c cs h = rw h refl

    keeps : (c : ℕ) (cs : List ℕ) → is_separator c ≡ false → skip_separators (c ∷ cs) ≡ c ∷ cs
    keeps c cs h = rw h refl

split_sep : (c : ℕ) (cs : List ℕ) → is_separator c ≡ true → split_component (c ∷ cs) ≡ ([], c ∷ cs)
unfolding split_component
split_sep c cs h = rw h refl

split_byte :
    (c : ℕ) (cs : List ℕ)
    → is_separator c ≡ false
    → split_component (c ∷ cs) ≡ (c ∷ (split_component cs).0, (split_component cs).1)
unfolding split_component
split_byte c cs h = rw h refl

components_split :
    (current path : List ℕ)
    → components_from current path
      ≡ flush (current ++ (split_component path).0) ++ components (split_component path).1
components_split current [] =
    unfold components_from split_component in
    rw (append-nil current, append-nil (flush current)) refl
components_split current (c ∷ cs) = elim (Bool-cases (is_separator c)) [
  | inl sep ↦
      components_sep current c cs sep
      ∙ rw (split_sep c cs sep, append-nil current)
          (ap (λ rest. flush current ++ rest) (sym (components_sep [] c cs sep)))
  | inr other ↦
      components_byte current c cs other
      ∙ components_split (current ++ c ∷ []) cs
      ∙ rw (split_byte c cs other) (
          ap (λ name. flush name ++ components (split_component cs).1)
            (append_assoc current (c ∷ []) (split_component cs).0))
]

pub components_first :
    (c : ℕ) (cs : List ℕ)
    → is_separator c ≡ false
    → components (c ∷ cs) ≡ (split_component (c ∷ cs)).0 ∷ components (split_component (c ∷ cs)).1
components_first c cs other = components_split [] (c ∷ cs) ∙ rw (split_byte c cs other) refl

-- the components one after the other, the dots skipped
unfoldable pub walk_components : Reader → Node → List (List ℕ) → Result Fault Node
walk_components r node [] = ok node
walk_components r node (c ∷ cs) = elim (bytes_eq c (codes ".")) [
  | true ↦ walk_components r node cs
  | false ↦ do next ← enter r node c; walk_components r next cs
]

-- one round of the loop takes the first component
walk_round :
    (fuel : ℕ) (r : Reader) (current : Node) (path left : List ℕ)
    → length path ≤ suc fuel
    → ((node : Node) (rest : List ℕ)
        → length rest ≤ fuel
        → resolve_loop fuel r node rest ≡ walk_components r node (components rest))
    → skip_separators path ≡ left
    → resolve_loop (suc fuel) r current path ≡ walk_components r current (components left)
unfolding resolve_loop walk_components
walk_round fuel r current path [] h ih e = rw (resolve_loop, e) (unfold components_from in refl)
walk_round fuel r current path (c ∷ cs) h ih e =
    let other = skipped path c cs e in
    let shorter = split_component-lt c cs other in
    let le = skip_separators-le path in
    let same : length (skip_separators path) ≡ length (c ∷ cs) = ap length e in
    let name = (split_component (c ∷ cs)).0 in
    let rest = (split_component (c ∷ cs)).1 in
    let fewer : length rest ≤ fuel = omega arith in
    elim (Bool-cases (bytes_eq name (codes "."))) [
      | inl dot ↦
          rw (components_first c cs other, resolve_loop, e, dot, walk_components)
            (ih current rest fewer)
      | inr named ↦
          rw (components_first c cs other, resolve_loop, e, named, walk_components)
            (ap (λ (next : Node → Result Fault Node). enter r current name >>= next)
              (fun_ext λ (node : Node). ih node rest fewer))
    ]

walk-loop :
    (fuel : ℕ) (r : Reader) (current : Node) (path : List ℕ)
    → length path ≤ fuel
    → resolve_loop fuel r current path ≡ walk_components r current (components path)
walk-loop zero r current [] h = unfold resolve_loop components_from walk_components in refl
walk-loop zero r current (c ∷ cs) h = absurd (omega arith)
walk-loop (suc fuel) r current path h =
    walk_round fuel r current path (skip_separators path) h (walk-loop fuel r) refl
    ∙ ap (walk_components r current) (components_skip path)

-- `resolve` enters the components of the path one after the other, from the root.
pub resolve-walk :
    (r : Reader) (path : List ℕ)
    → resolve r path ≡ (root r >>= λ current. walk_components r current (components path))
unfolding resolve
resolve-walk r path =
    ap (λ (next : Node → Result Fault Node). root r >>= next)
      (fun_ext λ (current : Node). walk-loop (length path) r current path (omega arith))
