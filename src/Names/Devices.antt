-- ===== src/Names/Devices.antt =====
-- The names of devices that `reserved_windows_name` of host/pfs_export.cpp refuses.
use ps2_driveforge.Base.{
  ℕ, ◌≤◌, ◌≡◌, ◌≢◌, refl, ap, sym, ◌∙◌, List, [], ◌∷◌, ◌++◌, true, false, Bool-cases, inl, inr,
  arith, ◌==◌, ◌&&◌, leb, length, take, get_or,
}
use ps2_driveforge.Base.Bytes.{codes, bytes_eq, bytes_eq→eq}
use ps2_driveforge.Names.{reserved_stem}

-- the part before the first dot is no device of Windows, in any case of its letters
pub record IsNoDevice (stem : List ℕ) : Type 0 where
  pub con : stem ≢ codes "CON"
  pub prn : stem ≢ codes "PRN"
  pub aux : stem ≢ codes "AUX"
  pub nul : stem ≢ codes "NUL"
  pub com_port : (d : ℕ) → b'1' ≤ d → d ≤ b'9' → stem ≢ codes "COM" ++ d ∷ []
  pub lpt_port : (d : ℕ) → b'1' ≤ d → d ≤ b'9' → stem ≢ codes "LPT" ++ d ∷ []

com_reserved : (d : ℕ) → b'1' ≤ d → d ≤ b'9' → reserved_stem (codes "COM" ++ d ∷ []) ≡ true
unfolding reserved_stem bytes_eq
com_reserved d lo hi = ground arith

lpt_reserved : (d : ℕ) → b'1' ≤ d → d ≤ b'9' → reserved_stem (codes "LPT" ++ d ∷ []) ≡ true
unfolding reserved_stem bytes_eq
lpt_reserved d lo hi = ground arith

fixed_reserved :
    (reserved_stem (codes "CON") ≡ true)
    × (reserved_stem (codes "PRN") ≡ true)
    × (reserved_stem (codes "AUX") ≡ true)
    × (reserved_stem (codes "NUL") ≡ true)
unfolding reserved_stem bytes_eq
fixed_reserved = (refl, refl, refl, refl)

apart :
    (stem device : List ℕ)
    → reserved_stem stem ≡ false
    → reserved_stem device ≡ true
    → stem ≢ device
apart stem device h k e = cc (sym h ∙ ap reserved_stem e ∙ k)

pub not_reserved : (stem : List ℕ) → reserved_stem stem ≡ false → IsNoDevice stem
not_reserved stem h = record {
  con = apart stem (codes "CON") h fixed_reserved.0;
  prn = apart stem (codes "PRN") h fixed_reserved.1;
  aux = apart stem (codes "AUX") h fixed_reserved.2;
  nul = apart stem (codes "NUL") h fixed_reserved.3;
  com_port = λ d lo hi. apart stem (codes "COM" ++ d ∷ []) h (com_reserved d lo hi);
  lpt_port = λ d lo hi. apart stem (codes "LPT" ++ d ∷ []) h (lpt_reserved d lo hi);
}

bytes_eq-ne : (a b : List ℕ) → b ≢ a → bytes_eq a b ≡ false
bytes_eq-ne a b h = elim (Bool-cases (bytes_eq a b)) [
  | inl same ↦ absurd (h (sym (bytes_eq→eq a b same)))
  | inr other ↦ other
]

port_apart :
    (stem port : List ℕ)
    → ((d : ℕ) → b'1' ≤ d → d ≤ b'9' → stem ≢ port ++ d ∷ [])
    → length stem ≡ 4
    → take 3 stem ≡ port
    → (leb b'1' (get_or stem 3 0) && leb (get_or stem 3 0) b'9') ≡ false
port_apart (a ∷ b ∷ c ∷ d ∷ []) port h four e = elim (Bool-cases (leb b'1' d && leb d b'9')) [
  | inl digit ↦ absurd (h d (ground arith) (ground arith) (ap (λ p. p ++ d ∷ []) e))
  | inr other ↦ other
]
port_apart stem port h four e = absurd (omega arith)

pub reserved_device : (stem : List ℕ) → IsNoDevice stem → reserved_stem stem ≡ false
unfolding reserved_stem
reserved_device stem h =
    let c = bytes_eq-ne (codes "CON") stem h.con in
    let p = bytes_eq-ne (codes "PRN") stem h.prn in
    let a = bytes_eq-ne (codes "AUX") stem h.aux in
    let n = bytes_eq-ne (codes "NUL") stem h.nul in
    elim (Bool-cases (length stem == 4)) [
      | inr other ↦ rw (c, p, a, n, other) refl
      | inl four ↦ elim (Bool-cases (bytes_eq (take 3 stem) (codes "COM"))) [
        | inl e ↦
            rw (c, p, a, n, four, e)
              (port_apart stem (codes "COM") h.com_port (ground arith) (bytes_eq→eq _ _ e))
        | inr no_com ↦ elim (Bool-cases (bytes_eq (take 3 stem) (codes "LPT"))) [
          | inl e ↦
              rw (c, p, a, n, four, no_com, e)
                (port_apart stem (codes "LPT") h.lpt_port (ground arith) (bytes_eq→eq _ _ e))
          | inr no_lpt ↦ rw (c, p, a, n, four, no_com, no_lpt) refl
        ]
      ]
    ]

head_apart : (c d : ℕ) (cs ds : List ℕ) → c ≢ d → c ∷ cs ≢ d ∷ ds
head_apart c d cs ds h e = h (ap (λ (xs : List ℕ). get_or xs 0 0) e)

-- a name that starts with an underscore is no device
pub underscored : (stem : List ℕ) → IsNoDevice (b'_' ∷ stem)
underscored stem = record {
  con = head_apart _ _ _ _ (omega arith);
  prn = head_apart _ _ _ _ (omega arith);
  aux = head_apart _ _ _ _ (omega arith);
  nul = head_apart _ _ _ _ (omega arith);
  com_port = λ d lo hi. head_apart _ _ _ _ (omega arith);
  lpt_port = λ d lo hi. head_apart _ _ _ _ (omega arith);
}
