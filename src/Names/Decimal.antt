-- ===== src/Names/Decimal.antt =====
-- The decimal numbers that tell host names apart: two numbers have two prints.
use ps2_driveforge.Base.{
  ℕ, zero, suc, ◌+◌, ◌-◌, ◌*◌, ◌/◌, ◌%◌, ◌^◌, ◌<◌, ◌≡◌, sym, ap, ◌∙◌, List, [], ◌∷◌, ◌++◌, ltb,
  Bool-cases, inl, inr, arith, refl, All, All-append, ◌≤◌, length, length-append,
}
use native.Mathlib.Nat.{pow-suc}
use ps2_driveforge.Names.{decimal, to_string}

-- the number that digits stand for, after the digits of `acc`
value : ℕ → List ℕ → ℕ
value acc [] = acc
value acc (c ∷ cs) = value (acc * 10 + (c - b'0')) cs

value-append : (acc c : ℕ) (cs : List ℕ) → value acc (cs ++ c ∷ []) ≡ value acc cs * 10 + (c - b'0')
unfolding value
value-append acc c [] = refl
value-append acc c (d ∷ cs) = value-append (acc * 10 + (d - b'0')) c cs

value-decimal : (digits n : ℕ) → n < 10 ^ digits → value 0 (decimal digits n) ≡ n
unfolding value decimal
value-decimal zero n h = omega arith
value-decimal (suc digits) n h = elim (Bool-cases (ltb n 10)) [
  | inl small ↦ rw small (omega arith)
  | inr large ↦
      let ih = value-decimal digits (n / 10) (omega (arith, pow-suc 10 digits)) in
      rw large (omega (arith, value-append 0 (b'0' + n % 10) (decimal digits (n / 10)), ih))
]

pub to_string_injective : (n m : ℕ) → n < 2 ^ 32 → m < 2 ^ 32 → to_string n ≡ to_string m → n ≡ m
to_string_injective n m h k e =
    sym (value-decimal 10 n (omega arith)) ∙ ap (value 0) e ∙ value-decimal 10 m (omega arith)

-- a digit
abbrev pub IsDigit : ℕ → Type 0
IsDigit c = (b'0' ≤ c) × (c ≤ b'9')

pub decimal-digits : (digits n : ℕ) → All IsDigit (decimal digits n)
unfolding decimal
decimal-digits zero n = tt
decimal-digits (suc digits) n = elim (Bool-cases (ltb n 10)) [
  | inl small ↦ rw small (ground arith)
  | inr large ↦ rw large (
      All-append IsDigit (decimal digits (n / 10)) _ (decimal-digits digits (n / 10))
        (ground arith))
]

pub length-decimal : (digits n : ℕ) → 0 < length (decimal (suc digits) n)
unfolding decimal
length-decimal digits n = elim (Bool-cases (ltb n 10)) [
  | inl small ↦ rw small (omega arith)
  | inr large ↦
      rw large (omega (arith, length-append (decimal digits (n / 10)) ((b'0' + n % 10) ∷ [])))
]
