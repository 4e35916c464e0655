-- ===== src/Names/Safe.antt =====
-- What `sanitize_host_filename` of host/pfs_export.cpp gives: a name that Windows takes, and the name
-- itself where Windows takes it.
use ps2_driveforge.Base.{
  ℕ, ◌≤◌, ◌≡◌, ◌≢◌, ◌↔◌, subst, refl, ap, sym, ◌∙◌, List, [], ◌∷◌, All, false, Bool-cases, inl, inr,
  arith, ◌==◌, ◌||◌, if◌then◌else◌,
}
use ps2_driveforge.Base.Bytes.{codes, bytes_eq}
use ps2_driveforge.Names.{
  upper_byte, uppercase_ascii, stem_of, is_one_of, reserved_stem, reserved_windows_name,
  is_forbidden, replace_forbidden, replace_dots, replace_last, sanitize_host_filename,
}
use ps2_driveforge.Names.Devices.{IsNoDevice, not_reserved, reserved_device, underscored}

-- a byte that a Windows name may hold
pub record IsSafeByte (c : ℕ) : Type 0 where
  pub printable : 0x20 ≤ c
  pub no_less : c ≢ b'<'
  pub no_greater : c ≢ b'>'
  pub no_colon : c ≢ b':'
  pub no_quote : c ≢ b'"'
  pub no_slash : c ≢ b'/'
  pub no_backslash : c ≢ b'\\'
  pub no_bar : c ≢ b'|'
  pub no_question : c ≢ b'?'
  pub no_star : c ≢ b'*'

abbrev pub last_byte : List ℕ → ℕ
last_byte [] = 0
last_byte (c ∷ []) = c
last_byte (c ∷ d ∷ cs) = last_byte (d ∷ cs)

pub record IsSafe (name : List ℕ) : Type 0 where
  pub some_bytes : name ≢ []
  pub bytes : All IsSafeByte name
  pub no_space : last_byte name ≢ b' '
  pub no_dot : last_byte name ≢ b'.'
  pub no_device : IsNoDevice (uppercase_ascii (stem_of name))

safe_byte : (c : ℕ) → is_forbidden c ≡ false → IsSafeByte c
unfolding is_forbidden
safe_byte c h = ground arith

allowed : (c : ℕ) → IsSafeByte c → is_forbidden c ≡ false
unfolding is_forbidden
allowed c s = ground arith

underscore : IsSafeByte b'_'
underscore = safe_byte b'_' (unfold is_forbidden in refl)

replace_forbidden-safe : (name : List ℕ) → All IsSafeByte (replace_forbidden name)
unfolding replace_forbidden
replace_forbidden-safe [] = tt
replace_forbidden-safe (c ∷ cs) = elim (Bool-cases (is_forbidden c)) [
  | inl bad ↦ rw bad (underscore, replace_forbidden-safe cs)
  | inr good ↦ rw good (safe_byte c good, replace_forbidden-safe cs)
]

replace_forbidden-id : (name : List ℕ) → All IsSafeByte name → replace_forbidden name ≡ name
unfolding replace_forbidden
replace_forbidden-id [] h = refl
replace_forbidden-id (c ∷ cs) h = rw (allowed c h.0) (ap (◌∷◌ c) (replace_forbidden-id cs h.1))

replace_dots-safe :
    (name : List ℕ)
    → All IsSafeByte name
    → All IsSafeByte (replace_dots name) × (replace_dots name ≢ [])
unfolding replace_dots bytes_eq
replace_dots-safe [] h = ((underscore, tt), λ e. cc)
replace_dots-safe (c ∷ cs) h =
    elim (Bool-cases (is_one_of (c ∷ cs) ([] ∷ codes "." ∷ codes ".." ∷ []))) [
      | inl dots ↦ rw dots ((underscore, tt), λ e. cc)
      | inr other ↦ rw other (h, λ e. cc)
    ]

-- what the last byte becomes
record IsEnding (from to : List ℕ) : Type 0 where
  bytes : All IsSafeByte to
  some_bytes : to ≢ []
  no_space : last_byte to ≢ b' '
  no_dot : last_byte to ≢ b'.'

replace_last-ne : (c : ℕ) (cs : List ℕ) → replace_last (c ∷ cs) ≢ []
unfolding replace_last
replace_last-ne c [] h = cc
replace_last-ne c (d ∷ cs) h = cc

last_byte-cons : (c : ℕ) (cs : List ℕ) → cs ≢ [] → last_byte (c ∷ cs) ≡ last_byte cs
last_byte-cons c [] h = absurd (h refl)
last_byte-cons c (d ∷ cs) h = refl

one_byte : (c : ℕ) → IsSafeByte c → IsEnding (c ∷ []) (replace_last (c ∷ []))
unfolding replace_last
one_byte c h = elim (Bool-cases (c == b' ' || c == b'.')) [
  | inl bad ↦ rw bad (record {
    bytes = (underscore, tt);
    some_bytes = λ e. cc;
    no_space = λ e. cc;
    no_dot = λ e. cc;
  })
  | inr good ↦ rw good (record {
    bytes = (h, tt);
    some_bytes = λ e. cc;
    no_space = ground arith;
    no_dot = ground arith;
  })
]

more_bytes :
    (c : ℕ) (cs : List ℕ)
    → IsSafeByte c
    → IsEnding cs (replace_last cs)
    → IsEnding (c ∷ cs) (c ∷ replace_last cs)
more_bytes c cs h ends =
    let last = last_byte-cons c (replace_last cs) ends.some_bytes in
    record {
      bytes = (h, ends.bytes);
      some_bytes = λ e. cc;
      no_space = λ e. ends.no_space (sym last ∙ e);
      no_dot = λ e. ends.no_dot (sym last ∙ e);
    }

replace_last-cons : (c d : ℕ) (cs : List ℕ) → replace_last (c ∷ d ∷ cs) ≡ c ∷ replace_last (d ∷ cs)
unfolding replace_last
replace_last-cons c d cs = refl

replace_last-safe :
    (name : List ℕ) → All IsSafeByte name → name ≢ [] → IsEnding name (replace_last name)
replace_last-safe [] h some_bytes = absurd (some_bytes refl)
replace_last-safe (c ∷ []) h some_bytes = one_byte c h.0
replace_last-safe (c ∷ d ∷ cs) h some_bytes =
    rw (replace_last-cons c d cs)
      (more_bytes c (d ∷ cs) h.0 (replace_last-safe (d ∷ cs) h.1 (λ e. cc)))

replace_last-id :
    (name : List ℕ) → last_byte name ≢ b' ' → last_byte name ≢ b'.' → replace_last name ≡ name
unfolding replace_last
replace_last-id [] h k = refl
replace_last-id (c ∷ []) h k = ground arith
replace_last-id (c ∷ d ∷ cs) h k = ap (◌∷◌ c) (replace_last-id (d ∷ cs) h k)

stem-underscored :
    (name : List ℕ)
    → uppercase_ascii (stem_of (b'_' ∷ name)) ≡ b'_' ∷ uppercase_ascii (stem_of name)
unfolding uppercase_ascii stem_of upper_byte
stem-underscored name = refl

finish-IsSafe :
    (name : List ℕ)
    → IsEnding name name
    → IsSafe (if reserved_windows_name name then b'_' ∷ name else name)
unfolding reserved_windows_name
finish-IsSafe name ends = elim (Bool-cases (reserved_stem (uppercase_ascii (stem_of name)))) [
  | inr free ↦ rw free (record {
    some_bytes = ends.some_bytes;
    bytes = ends.bytes;
    no_space = ends.no_space;
    no_dot = ends.no_dot;
    no_device = not_reserved _ free;
  })
  | inl reserved ↦
      let last = last_byte-cons b'_' name ends.some_bytes in
      rw reserved (record {
        some_bytes = λ e. cc;
        bytes = (underscore, ends.bytes);
        no_space = λ e. ends.no_space (sym last ∙ e);
        no_dot = λ e. ends.no_dot (sym last ∙ e);
        no_device = rw (stem-underscored name) (underscored _);
      })
]

pub sanitize-IsSafe : (name : List ℕ) → IsSafe (sanitize_host_filename name)
unfolding sanitize_host_filename
sanitize-IsSafe name =
    let (bytes, some_bytes) =
      replace_dots-safe (replace_forbidden name) (replace_forbidden-safe name) in
    let ends = replace_last-safe (replace_dots (replace_forbidden name)) bytes some_bytes in
    finish-IsSafe _ (record {
      bytes = ends.bytes;
      some_bytes = ends.some_bytes;
      no_space = ends.no_space;
      no_dot = ends.no_dot;
    })

replace_dots-id : (name : List ℕ) → IsSafe name → replace_dots name ≡ name
unfolding replace_dots bytes_eq
replace_dots-id [] s = absurd (s.some_bytes refl)
replace_dots-id (c ∷ []) s = let dot = s.no_dot in ground arith
replace_dots-id (c ∷ d ∷ []) s = let dot = s.no_dot in ground arith
replace_dots-id (c ∷ d ∷ e ∷ cs) s = ground arith

safe-sanitize : (name : List ℕ) → IsSafe name → sanitize_host_filename name ≡ name
unfolding sanitize_host_filename reserved_windows_name
safe-sanitize name s =
    rw
      (
        replace_forbidden-id name s.bytes,
        replace_dots-id name s,
        replace_last-id name s.no_space s.no_dot,
        reserved_device _ s.no_device,
      )
      refl

-- The host name of every byte string is one that Windows takes: it is not empty, none of its bytes is
-- a control byte or a reserved sign, it does not end with a space or a dot, and it names no device;
-- and a name that is such already stays as it is.
pub sanitize_host_filename-IsSafe :
    (name : List ℕ)
    → IsSafe (sanitize_host_filename name) × (IsSafe name ↔ (sanitize_host_filename name ≡ name))
sanitize_host_filename-IsSafe name =
    (sanitize-IsSafe name, (safe-sanitize name, λ e. subst IsSafe e (sanitize-IsSafe name)))
