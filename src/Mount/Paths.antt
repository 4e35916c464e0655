-- ===== src/Mount/Paths.antt =====
-- `split_path` of host/mount_view.cpp gives the components of a path.
use ps2_driveforge.Base.{
  ℕ, zero, suc, ◌≤◌, ◌≡◌, refl, ap, sym, ◌∙◌, List, [], ◌∷◌, ◌++◌, length, arith,
}
use ps2_driveforge.Pfs.Directory.{split_component, skip_separators}
use ps2_driveforge.Pfs.Ends.{skipped, skip_separators-le, split_component-lt}
use ps2_driveforge.Pfs.Children.{IsComponent}
use ps2_driveforge.Pfs.ChildPaths.{components-append, components-name}
use ps2_driveforge.Pfs.Components.{components_from, components, components_first, components_skip}
use ps2_driveforge.Mount.View.{split_loop, split_path}

split_round :
    (fuel : ℕ) (path left : List ℕ)
    → length path ≤ suc fuel
    → ((rest : List ℕ) → length rest ≤ fuel → split_loop fuel rest ≡ components rest)
    → skip_separators path ≡ left
    → split_loop (suc fuel) path ≡ components left
unfolding split_loop
split_round fuel path [] h ih e = rw (split_loop, e) (unfold components_from in refl)
split_round fuel path (c ∷ cs) h ih e =
    let other = skipped path c cs e in
    let shorter = split_component-lt c cs other in
    let le = skip_separators-le path in
    let same : length (skip_separators path) ≡ length (c ∷ cs) = ap length e in
    let rest = (split_component (c ∷ cs)).1 in
    rw (components_first c cs other, split_loop, e)
      (ap (◌∷◌ (split_component (c ∷ cs)).0) (ih rest (omega arith)))

split_loop-components :
    (fuel : ℕ) (path : List ℕ) → length path ≤ fuel → split_loop fuel path ≡ components path
split_loop-components zero [] h = unfold split_loop components_from in refl
split_loop-components zero (c ∷ cs) h = absurd (omega arith)
split_loop-components (suc fuel) path h =
    split_round fuel path (skip_separators path) h (split_loop-components fuel) refl
    ∙ components_skip path

pub split_path-components : (path : List ℕ) → split_path path ≡ components path
unfolding split_path
split_path-components path = split_loop-components (length path) path (omega arith)

-- a name behind a path is its last part
pub split_path-child :
    (path name : List ℕ)
    → IsComponent name
    → split_path (path ++ b'\\' ∷ name) ≡ split_path path ++ name ∷ []
split_path-child path name named =
    split_path-components (path ++ b'\\' ∷ name)
    ∙ components-append b'\\' path name refl
    ∙ ap (λ parts. components path ++ parts) (components-name name named)
    ∙ ap (λ parts. parts ++ name ∷ []) (sym (split_path-components path))
