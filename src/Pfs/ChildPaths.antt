-- ===== src/Pfs/ChildPaths.antt =====
-- The path of a child of a directory: one component behind those of the directory, which
-- `Reader::resolve` of core/pfs.cpp enters last.
use ps2_driveforge.Base.{
  ℕ, ◌≡◌, refl, ap, sym, ◌∙◌, List, [], ◌∷◌, ◌++◌, append_assoc, append-nil, Bool-cases, inl, inr,
  All, true, false, Result, ok, err, ◌>>=◌, fun_ext,
}
use ps2_driveforge.Base.Bytes.{bytes_eq, codes}
use ps2_driveforge.Pfs.Types.{Node}
use ps2_driveforge.Pfs.Metadata.{Fault, Reader, root}
use ps2_driveforge.Pfs.Directory.{is_separator, enter, resolve}
use ps2_driveforge.Pfs.Children.{IsComponent, bytes_eq-apart}
use ps2_driveforge.Pfs.Components.{
  flush, components_from, components, components_sep, components_byte, walk_components,
  resolve-walk,
}

components_from-append :
    (separator : ℕ) (current x y : List ℕ)
    → is_separator separator ≡ true
    → components_from current (x ++ separator ∷ y) ≡ components_from current x ++ components y
components_from-append separator current [] y h =
    components_sep current separator y h ∙ (unfold components_from in refl)
components_from-append separator current (c ∷ cs) y h = elim (Bool-cases (is_separator c)) [
  | inl sep ↦
      components_sep current c _ sep
      ∙ ap (λ rest. flush current ++ rest) (components_from-append separator [] cs y h)
      ∙ sym (append_assoc (flush current) (components cs) (components y))
      ∙ ap (λ parts. parts ++ components y) (sym (components_sep current c cs sep))
  | inr other ↦
      components_byte current c _ other
      ∙ components_from-append separator (current ++ c ∷ []) cs y h
      ∙ ap (λ parts. parts ++ components y) (sym (components_byte current c cs other))
]

pub components-append :
    (separator : ℕ) (x y : List ℕ)
    → is_separator separator ≡ true
    → components (x ++ separator ∷ y) ≡ components x ++ components y
components-append separator = components_from-append separator []

one_component :
    (current name : List ℕ)
    → All (λ (c : ℕ). is_separator c ≡ false) name
    → components_from current name ≡ flush (current ++ name)
one_component current [] h = unfold components_from in ap flush (sym (append-nil current))
one_component current (c ∷ cs) h =
    components_byte current c cs h.0
    ∙ one_component (current ++ c ∷ []) cs h.1
    ∙ ap flush (append_assoc current (c ∷ []) cs)

pub components-name : (name : List ℕ) → IsComponent name → components name ≡ name ∷ []
components-name [] h = absurd (h.some_bytes refl)
components-name (c ∷ cs) h = one_component [] (c ∷ cs) h.no_separator

>>=-assoc :
    (first : Result Fault Node) (f g : Node → Result Fault Node)
    → (first >>= λ a. f a >>= g) ≡ ((first >>= f) >>= g)
>>=-assoc (ok a) f g = refl
>>=-assoc (err e) f g = refl

walk-append :
    (r : Reader) (node : Node) (xs ys : List (List ℕ))
    → walk_components r node (xs ++ ys)
      ≡ (walk_components r node xs >>= λ next. walk_components r next ys)
unfolding walk_components
walk-append r node [] ys = refl
walk-append r node (c ∷ cs) ys = elim (Bool-cases (bytes_eq c (codes "."))) [
  | inl dot ↦ rw (dot, walk_components) (walk-append r node cs ys)
  | inr named ↦
      rw (named, walk_components)
        (ap (λ (next : Node → Result Fault Node). enter r node c >>= next)
            (fun_ext λ (next : Node). walk-append r next cs ys)
          ∙ >>=-assoc (enter r node c) _ _)
]

walk-one :
    (r : Reader) (node : Node) (name : List ℕ)
    → IsComponent name
    → (child : Node) → enter r node name ≡ ok child
    → walk_components r node (name ∷ []) ≡ ok child
unfolding walk_components
walk-one r node name named child entered =
    rw (bytes_eq-apart name (codes ".") named.no_dot, walk_components, entered) refl

-- a path of one more component names what is entered from the node of the path
pub resolve-child :
    (r : Reader) (path longer name : List ℕ) (node child : Node)
    → resolve r path ≡ ok node
    → components longer ≡ components path ++ name ∷ []
    → IsComponent name
    → enter r node name ≡ ok child
    → resolve r longer ≡ ok child
resolve-child r path longer name node child found parts named entered =
    resolve-walk r longer
    ∙ ap (λ ps. root r >>= λ current. walk_components r current ps) parts
    ∙ finish (root r) whole
  where
    whole : (root r >>= λ current. walk_components r current (components path)) ≡ ok node
    whole = sym (resolve-walk r path) ∙ found

    finish :
        (start : Result Fault Node)
        → (start >>= λ current. walk_components r current (components path)) ≡ ok node
        → (start >>= λ current. walk_components r current (components path ++ name ∷ [])) ≡ ok child
    finish (err e) h = cc h
    finish (ok current) h =
        walk-append r current (components path) (name ∷ [])
        ∙ rw (h, ◌>>=◌) (walk-one r node name named child entered)
