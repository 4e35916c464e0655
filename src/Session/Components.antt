-- ===== src/Session/Components.antt =====
-- A normalized path has the components of the path, so that it names the same node.
use ps2_driveforge.Base.{
  ℕ, ◌≡◌, refl, ap, sym, ◌∙◌, List, [], ◌∷◌, ◌++◌, append-nil, Bool, true, false, Bool-cases, inl,
  inr, ◌==◌, arith, ◌>>=◌,
}
use ps2_driveforge.Pfs.Metadata.{Reader, root}
use ps2_driveforge.Pfs.Directory.{is_separator, resolve}
use ps2_driveforge.Pfs.Components.{
  flush, components_from, components, components_sep, components_byte, walk_components,
  resolve-walk,
}
use ps2_driveforge.Pfs.Children.{IsComponent}
use ps2_driveforge.Pfs.ChildPaths.{components-append, components-name}
use ps2_driveforge.Session.Paths.{
  join_child, child_path, map_separator, collapse, trim_step, trim_slashes, normalize_cache_path,
}

components_collapse :
    (previous_slash : Bool) (current path : List ℕ)
    → (previous_slash ≡ true → current ≡ [])
    → components_from current (collapse previous_slash path) ≡ components_from current path
unfolding collapse
components_collapse previous_slash current [] h = refl
components_collapse true current (c ∷ cs) h = elim (Bool-cases (is_separator c)) [
  | inl sep ↦
      let slash : (map_separator c == b'/') ≡ true = ground arith in
      rw (slash, h refl)
        (components_collapse true [] cs (λ e. refl) ∙ sym (components_sep [] c cs sep))
  | inr other ↦
      let same : map_separator c ≡ c = ground arith in
      let no_slash : (c == b'/') ≡ false = ground arith in
      rw (same, no_slash)
        (components_byte current c _ other
          ∙ components_collapse false (current ++ c ∷ []) cs (λ e. cc)
          ∙ sym (components_byte current c cs other))
]
components_collapse false current (c ∷ cs) h = elim (Bool-cases (is_separator c)) [
  | inl sep ↦
      let slash : (map_separator c == b'/') ≡ true = ground arith in
      rw slash (
        components_sep current b'/' _ refl
        ∙ ap (λ rest. flush current ++ rest) (components_collapse true [] cs (λ e. refl))
        ∙ sym (components_sep current c cs sep))
  | inr other ↦
      let same : map_separator c ≡ c = ground arith in
      let no_slash : (c == b'/') ≡ false = ground arith in
      rw (same, no_slash)
        (components_byte current c _ other
          ∙ components_collapse false (current ++ c ∷ []) cs (λ e. cc)
          ∙ sym (components_byte current c cs other))
]

components_cons :
    (c : ℕ) (x y : List ℕ)
    → ((current : List ℕ) → components_from current x ≡ components_from current y)
    → (current : List ℕ) → components_from current (c ∷ x) ≡ components_from current (c ∷ y)
unfolding components_from
components_cons c x y h current = rw (h [], h (current ++ c ∷ [])) refl

components_step :
    (current : List ℕ) (c : ℕ) (trimmed : List ℕ)
    → components_from current (trim_step c trimmed) ≡ components_from current (c ∷ trimmed)
components_step current c [] = elim (Bool-cases (c == b'/')) [
  | inl slash ↦
      let sep : is_separator c ≡ true = ground arith in
      rw slash (unfold components_from in rw (sep, append-nil (flush current)) refl)
  | inr other ↦ rw other refl
]
components_step current c (d ∷ ds) = refl

components_trim :
    (path current : List ℕ)
    → components_from current (trim_slashes path) ≡ components_from current path
unfolding trim_slashes
components_trim [] current = refl
components_trim (c ∷ cs) current =
    components_step current c (trim_slashes cs)
    ∙ components_cons c (trim_slashes cs) cs (components_trim cs) current

pub components-normalize :
    (path : List ℕ) → components (normalize_cache_path path) ≡ components path
unfolding normalize_cache_path
components-normalize path =
    components_trim (collapse true path) [] ∙ components_collapse true [] path (λ e. refl)

-- so the path that a session resolves is the one that it was given
pub resolve-normalize :
    (r : Reader) (path : List ℕ) → resolve r (normalize_cache_path path) ≡ resolve r path
resolve-normalize r path =
    resolve-walk r (normalize_cache_path path)
    ∙ ap (λ (parts : List (List ℕ)). root r >>= λ current. walk_components r current parts)
        (components-normalize path)
    ∙ sym (resolve-walk r path)

join_child-components :
    (path name : List ℕ)
    → IsComponent name
    → components (join_child path name) ≡ components path ++ name ∷ []
join_child-components [] name named = unfold components_from in components-name name named
join_child-components (c ∷ cs) name named =
    components-append b'/' (c ∷ cs) name refl
    ∙ ap (λ parts. components (c ∷ cs) ++ parts) (components-name name named)

pub child_path-components :
    (path name : List ℕ)
    → IsComponent name
    → components (child_path path name) ≡ components path ++ name ∷ []
unfolding child_path
child_path-components path name named =
    join_child-components (normalize_cache_path path) name named
    ∙ ap (λ parts. parts ++ name ∷ []) (components-normalize path)
