-- ===== src/Base/Powers.antt =====
-- `x & (x - 1) == 0` says that x is a power of two: the test of `valid_zone_size` in core/pfs.cpp.
use Prim.Native.Nat.{bit_and}
use native.Mathlib.Decide.{ℕ_discrete}
use native.Mathlib.Nat.{pow-suc}
use ps2_driveforge.Base.Digits.{bit_and_step}
use ps2_driveforge.Base.{
  ℕ, zero, suc, ◌-◌, ◌*◌, ◌/◌, ◌%◌, ◌^◌, ◌≤◌, ◌<◌, ◌≡◌, refl, ap, ◌⊎◌, inl, inr, arith,
}

bit_and_self_fuel : (n a : ℕ) → a ≤ n → bit_and a a ≡ a
bit_and_self_fuel n zero h = refl
bit_and_self_fuel zero (suc a) h = absurd (omega arith)
bit_and_self_fuel (suc n) (suc a) h =
    omega (arith, bit_and_step (suc a) (suc a), bit_and_self_fuel n (suc a / 2) (omega arith))

-- a number whose lowest set bit is its only one is 1, or twice such a number
halve :
    (z : ℕ)
    → 0 < z
    → bit_and z (z - 1) ≡ 0
    → (z ≡ 1) ⊎ ((z ≡ z / 2 * 2) × (bit_and (z / 2) (z / 2 - 1) ≡ 0))
halve z pos h = elim (ℕ_discrete (z % 2) 0) [
  | yes even ↦
      let e : (z - 1) / 2 ≡ z / 2 - 1 = omega arith in
      inr (omega arith, omega (arith, bit_and_step z (z - 1), ap (bit_and (z / 2)) e))
  | no odd ↦
      let e : (z - 1) / 2 ≡ z / 2 = omega arith in
      inl (
        omega (
          arith,
          bit_and_step z (z - 1),
          ap (bit_and (z / 2)) e,
          bit_and_self_fuel (z / 2) (z / 2) (omega arith),
        ))
]

power_fuel : (n z : ℕ) → z ≤ n → 0 < z → bit_and z (z - 1) ≡ 0 → (k : ℕ) × (z ≡ 2 ^ k)
power_fuel zero z le pos h = absurd (omega arith)
power_fuel (suc n) z le pos h = elim (halve z pos h) [
  | inl one ↦ (0, one)
  | inr (even, rest) ↦
      let (k, e) = power_fuel n (z / 2) (omega arith) (omega arith) rest in
      (suc k, omega (arith, pow-suc 2 k))
]

pub power_of_two : (z : ℕ) → 0 < z → bit_and z (z - 1) ≡ 0 → (k : ℕ) × (z ≡ 2 ^ k)
power_of_two z = power_fuel z z (omega arith)
