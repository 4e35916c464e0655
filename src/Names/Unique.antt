-- ===== src/Names/Unique.antt =====
-- The loop over the suffixes ends with a name that is not taken: its tries differ from one another, so
-- that no more of them fail than names are taken.
use ps2_driveforge.Base.{
  ℕ, zero, suc, ◌+◌, ◌%◌, ◌^◌, ◌≤◌, ◌<◌, ◌≡◌, ◌≢◌, ◌⊎◌, inl, inr, refl, ap, sym, ◌∙◌, List, [], ◌∷◌,
  ◌++◌, map, length, length-append, drop, All, Bool-cases, true, false, ◌||◌, arith, if◌then◌else◌,
}
use mathlib.Core.List.{map-append}
use ps2_driveforge.Base.Bytes.{bytes_eq, bytes_eq→eq}
use ps2_driveforge.Names.Decimal.{to_string_injective, IsDigit, decimal-digits}
use ps2_driveforge.Names.{
  upper_byte, uppercase_ascii, to_string, mem_name, suffixed, unique_loop, unique_name,
}

pub drop_prefix : (xs ys : List ℕ) → drop (length xs) (xs ++ ys) ≡ ys
drop_prefix [] ys = refl
drop_prefix (x ∷ xs) ys = drop_prefix xs ys

digits-upper : (cs : List ℕ) → All IsDigit cs → uppercase_ascii cs ≡ cs
unfolding uppercase_ascii upper_byte
digits-upper [] h = refl
digits-upper (c ∷ cs) h =
    let (lo, hi) = h.0 in
    let same : upper_byte c ≡ c = ground arith in rw (same, digits-upper cs h.1) refl

upper-suffixed :
    (base : List ℕ) (n : ℕ)
    → uppercase_ascii (suffixed base n) ≡ uppercase_ascii base ++ b'_' ∷ to_string n
unfolding uppercase_ascii
upper-suffixed base n =
    map-append upper_byte base (b'_' ∷ to_string n)
    ∙ ap (λ cs. map upper_byte base ++ cs)
        (unfold upper_byte in ap (◌∷◌ b'_') (digits-upper (to_string n) (decimal-digits 10 n)))

suffixed_apart :
    (base : List ℕ) (n m : ℕ)
    → n < 2 ^ 32
    → m < 2 ^ 32
    → n ≢ m
    → uppercase_ascii (suffixed base n) ≢ uppercase_ascii (suffixed base m)
suffixed_apart base n m hn hm differ e =
    let whole = sym (upper-suffixed base n) ∙ e ∙ upper-suffixed base m in
    let upper = uppercase_ascii base in
    let rest : b'_' ∷ to_string n ≡ b'_' ∷ to_string m =
      sym (drop_prefix upper _) ∙ ap (drop (length upper)) whole ∙ drop_prefix upper _ in
    differ (to_string_injective n m hn hm (ap (drop 1) rest))

base_apart : (base : List ℕ) (n : ℕ) → uppercase_ascii base ≢ uppercase_ascii (suffixed base n)
base_apart base n e =
    let upper = uppercase_ascii base in
    let longer : length upper ≡ length (upper ++ b'_' ∷ to_string n) =
      ap length (e ∙ upper-suffixed base n) in
    absurd (omega (arith, length-append upper (b'_' ∷ to_string n)))

-- the names but for the first one that is `name`
erase : List ℕ → List (List ℕ) → List (List ℕ)
erase name [] = []
erase name (n ∷ ns) = let rest = erase name ns in if bytes_eq n name then ns else n ∷ rest

length-erase :
    (name : List ℕ) (ns : List (List ℕ))
    → mem_name name ns ≡ true
    → length (erase name ns) + 1 ≡ length ns
unfolding erase mem_name
length-erase name [] h = cc
length-erase name (n ∷ ns) h = elim (Bool-cases (bytes_eq n name)) [
  | inl same ↦ rw same (omega arith)
  | inr other ↦ rw other (omega (arith, length-erase name ns (rw other at h)))
]

mem_name-erase :
    (other name : List ℕ) (ns : List (List ℕ))
    → name ≢ other
    → mem_name other ns ≡ mem_name other (erase name ns)
unfolding erase mem_name
mem_name-erase other name [] h = refl
mem_name-erase other name (n ∷ ns) h = elim (Bool-cases (bytes_eq n name)) [
  | inr apart ↦ rw apart (ap (λ b. bytes_eq n other || b) (mem_name-erase other name ns h))
  | inl same ↦ elim (Bool-cases (bytes_eq n other)) [
    | inl both ↦ absurd (h (sym (bytes_eq→eq n name same) ∙ bytes_eq→eq n other both))
    | inr distinct ↦ rw (same, distinct) refl
  ]
]

module _ (used : List (List ℕ)) (base : List ℕ) where
  -- `left` holds the taken names that the tries to come may meet
  loop_is_new :
      (fuel : ℕ) (left : List (List ℕ)) (visible : List ℕ) (suffix : ℕ)
      → length left ≤ fuel
      → suffix + fuel < 2 ^ 32
      → mem_name (uppercase_ascii visible) used ≡ mem_name (uppercase_ascii visible) left
      → ((j : ℕ)
          → suffix ≤ j
          → j < 2 ^ 32
          → mem_name (uppercase_ascii (suffixed base j)) used
            ≡ mem_name (uppercase_ascii (suffixed base j)) left)
      → ((j : ℕ)
          → suffix ≤ j
          → j < 2 ^ 32
          → uppercase_ascii visible ≢ uppercase_ascii (suffixed base j))
      → mem_name (uppercase_ascii (unique_loop fuel used base visible suffix)) used ≡ false
  unfolding unique_loop
  loop_is_new zero [] visible suffix few small here later apart = here ∙ (unfold mem_name in refl)
  loop_is_new zero (n ∷ left) visible suffix few small here later apart = absurd (omega arith)
  loop_is_new (suc fuel) left visible suffix few small here later apart =
      elim (Bool-cases (mem_name (uppercase_ascii visible) used)) [
        | inr new ↦ rw (new, unique_loop) new
        | inl taken ↦
            let name = uppercase_ascii visible in
            let shorter = length-erase name left (sym here ∙ taken) in
            let step : (suffix + 1) % 2 ^ 32 ≡ suffix + 1 = omega arith in
            rw (taken, unique_loop, step)
              (loop_is_new fuel (erase name left) (suffixed base suffix) (suffix + 1) (omega arith)
                (omega arith)
                (later suffix (omega arith) (omega arith)
                  ∙ mem_name-erase _ name left (apart suffix (omega arith) (omega arith)))
                (λ j le lt.
                  later j (omega arith) lt ∙ mem_name-erase _ name left (apart j (omega arith) lt))
                (λ j le lt. suffixed_apart base suffix j (omega arith) lt (omega arith)))
      ]

-- The loop gives a name that is not taken, in any case of its letters: it ends, since it has as many
-- tries as there are taken names, and one more.
pub unique_name-new :
    (used : List (List ℕ)) (base : List ℕ)
    → length used + 2 < 2 ^ 32
    → mem_name (uppercase_ascii (unique_name used base)) used ≡ false
unfolding unique_name
unique_name-new used base few =
    loop_is_new used base (length used) used base 2 (omega arith) (omega arith) refl
      (λ j le lt. refl) (λ j le lt. base_apart base j)

loop_shape :
    (fuel : ℕ) (used : List (List ℕ)) (base visible : List ℕ) (suffix : ℕ)
    → (visible ≡ base) ⊎ ((n : ℕ) × (visible ≡ suffixed base n))
    → (unique_loop fuel used base visible suffix ≡ base)
      ⊎ ((n : ℕ) × (unique_loop fuel used base visible suffix ≡ suffixed base n))
unfolding unique_loop
loop_shape zero used base visible suffix h = h
loop_shape (suc fuel) used base visible suffix h =
    elim (Bool-cases (mem_name (uppercase_ascii visible) used)) [
      | inr new ↦ rw (new, unique_loop) h
      | inl taken ↦
          rw (taken, unique_loop)
            (loop_shape fuel used base (suffixed base suffix) _ (inr (suffix, refl)))
    ]

-- the name itself, or the name with a number behind it
pub unique_name_shape :
    (used : List (List ℕ)) (base : List ℕ)
    → (unique_name used base ≡ base) ⊎ ((n : ℕ) × (unique_name used base ≡ suffixed base n))
unfolding unique_name
unique_name_shape used base = loop_shape (length used) used base base 2 (inl refl)
