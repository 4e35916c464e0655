-- ===== src/Mount/Unique.antt =====
-- The names that the mounted drive shows are distinct for Windows, and each is one component of a path.
use ps2_driveforge.Base.{
  ℕ, ◌+◌, ◌<◌, ◌^◌, ◌≡◌, ◌≢◌, refl, ap, sym, subst, List, [], ◌∷◌, length, length-append, false,
  inl, inr, arith, All, All-append, some,
}
use ps2_driveforge.Base.Bytes.{bytes_eq, bytes_eq_refl}
use ps2_driveforge.Names.{
  uppercase_ascii, sanitize_host_filename, mem_name, suffixed, to_string, unique_name,
}
use ps2_driveforge.Names.Decimal.{IsDigit, decimal-digits, length-decimal}
use ps2_driveforge.Names.Safe.{IsSafeByte, IsSafe, last_byte, sanitize-IsSafe}
use ps2_driveforge.Names.Unique.{unique_name-new, unique_name_shape}
use ps2_driveforge.Pfs.Directory.{is_separator}
use ps2_driveforge.Pfs.Children.{IsComponent}
use ps2_driveforge.Mount.Aliases.{Shown, AliasEntry, equal_windows_name, name_aliases, find_alias}

abbrev Taken : List (List ℕ) → AliasEntry → Type 0
Taken used a = mem_name (uppercase_ascii a.visible) used ≡ false

not-Taken :
    (name : List ℕ) (used : List (List ℕ)) (as' : List AliasEntry)
    → All (Taken (name ∷ used)) as'
    → All (Taken used) as'
unfolding mem_name
not-Taken name used [] h = tt
not-Taken name used (a ∷ rest) h = let first = h.0 in (ground arith, not-Taken name used rest h.1)

aliases_new :
    (used : List (List ℕ)) (shown : List Shown)
    → length used + length shown + 2 < 2 ^ 32
    → All (Taken used) (name_aliases used shown)
unfolding name_aliases
aliases_new used [] h = tt
aliases_new used (s ∷ shown) h =
    let base = sanitize_host_filename s.backing in
    let visible = unique_name used base in
    (
      unique_name-new used base (omega arith),
      not-Taken (uppercase_ascii visible) used _
          (aliases_new (uppercase_ascii visible ∷ used) shown (omega arith)),
    )

-- an alias is found behind one that has another name
found_behind :
    (used : List (List ℕ)) (first : AliasEntry) (rest as' : List AliasEntry)
    → All (Taken (uppercase_ascii first.visible ∷ used)) as'
    → All (λ (a : AliasEntry). find_alias rest a.visible ≡ some a) as'
    → All (λ (a : AliasEntry). find_alias (first ∷ rest) a.visible ≡ some a) as'
unfolding find_alias equal_windows_name mem_name
found_behind used first rest [] h k = tt
found_behind used first rest (a ∷ as') h k =
    let new = h.0 in
    let other : bytes_eq (uppercase_ascii first.visible) (uppercase_ascii a.visible) ≡ false =
      ground arith in
    (rw other k.0, found_behind used first rest as' h.1 k.1)

found_first : (a : AliasEntry) (rest : List AliasEntry) → find_alias (a ∷ rest) a.visible ≡ some a
unfolding find_alias equal_windows_name
found_first a rest = rw (bytes_eq_refl (uppercase_ascii a.visible)) refl

-- each alias is found under the name that it shows
pub aliases-found :
    (used : List (List ℕ)) (shown : List Shown)
    → length used + length shown + 2 < 2 ^ 32
    → All
        (λ (a : AliasEntry). find_alias (name_aliases used shown) a.visible ≡ some a)
        (name_aliases used shown)
unfolding name_aliases
aliases-found used [] h = tt
aliases-found used (s ∷ shown) h =
    let visible = unique_name used (sanitize_host_filename s.backing) in
    let names = uppercase_ascii visible ∷ used in
    let rest = name_aliases names shown in
    (
      found_first _ rest,
      found_behind used (record { visible = visible; shown = s }) rest rest
          (aliases_new names shown (omega arith)) (aliases-found names shown (omega arith)),
    )

-- bytes of a name that no path splits
abbrev NoSeparator : ℕ → Type 0
NoSeparator c = is_separator c ≡ false

safe_bytes : (name : List ℕ) → All IsSafeByte name → All NoSeparator name
safe_bytes [] h = tt
safe_bytes (c ∷ cs) h =
    let slash = (h.0).no_slash in
    let backslash = (h.0).no_backslash in (ground arith, safe_bytes cs h.1)

digit_bytes : (name : List ℕ) → All IsDigit name → All NoSeparator name
digit_bytes [] h = tt
digit_bytes (c ∷ cs) h = let digit = h.0 in (ground arith, digit_bytes cs h.1)

safe-IsComponent : (name : List ℕ) → IsSafe name → IsComponent name
safe-IsComponent name s = record {
  some_bytes = s.some_bytes;
  no_dot = λ e. s.no_dot (ap last_byte e);
  no_dots = λ e. s.no_dot (ap last_byte e);
  no_separator = safe_bytes name s.bytes;
}

-- a name with a number behind it is longer than the dots
length-suffixed : (base : List ℕ) (n : ℕ) → base ≢ [] → 2 < length (suffixed base n)
length-suffixed [] n h = absurd (h refl)
length-suffixed (c ∷ cs) n h =
    omega (arith, length-append cs (b'_' ∷ to_string n), length-decimal 9 n)

suffixed-IsComponent : (base : List ℕ) (n : ℕ) → IsSafe base → IsComponent (suffixed base n)
suffixed-IsComponent base n s =
    let long = length-suffixed base n s.some_bytes in
    record {
      some_bytes = λ e. absurd (omega (arith, ap length e));
      no_dot = λ e. absurd (omega (arith, ap length e));
      no_dots = λ e. absurd (omega (arith, ap length e));
      no_separator =
          All-append NoSeparator base (b'_' ∷ to_string n) (safe_bytes base s.bytes)
            (refl, digit_bytes (to_string n) (decimal-digits 10 n));
    }

unique-IsComponent :
    (used : List (List ℕ)) (base : List ℕ) → IsSafe base → IsComponent (unique_name used base)
unique-IsComponent used base s = elim (unique_name_shape used base) [
  | inl same ↦ subst IsComponent (sym same) (safe-IsComponent base s)
  | inr (n, numbered) ↦ subst IsComponent (sym numbered) (suffixed-IsComponent base n s)
]

pub aliases-IsComponent :
    (used : List (List ℕ)) (shown : List Shown)
    → All (λ (a : AliasEntry). IsComponent a.visible) (name_aliases used shown)
unfolding name_aliases
aliases-IsComponent used [] = tt
aliases-IsComponent used (s ∷ shown) = (
  unique-IsComponent used (sanitize_host_filename s.backing) (sanitize-IsSafe s.backing),
  aliases-IsComponent (uppercase_ascii (unique_name used (sanitize_host_filename s.backing)) ∷ used)
      shown,
)
