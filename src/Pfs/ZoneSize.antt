-- ===== src/Pfs/ZoneSize.antt =====
-- The zone sizes that `valid_zone_size` of core/pfs.cpp lets pass.
use native.Mathlib.Decide.{dec_lt}
use native.Mathlib.Nat.{pow-le-pow_right}
use ps2_driveforge.Base.{
  ℕ, ◌^◌, ◌≤◌, ◌≡◌, refl, ◌↔◌, ◌⊎◌, inl, inr, true, arith, ap, subst, sym, ◌∙◌,
}
use ps2_driveforge.Base.Powers.{power_of_two}
use ps2_driveforge.Pfs.Probe.{valid_zone_size}

-- 2 KiB, 4 KiB, ..., 128 KiB
pub record ZoneSize (zone_size : ℕ) : Type 0 where
  pub exponent : ℕ
  pub least : 11 ≤ exponent
  pub most : exponent ≤ 17
  pub power : zone_size ≡ 2 ^ exponent

abbrev pub Seven : ℕ → Type 0
Seven k = (k ≡ 11) ⊎ (k ≡ 12) ⊎ (k ≡ 13) ⊎ (k ≡ 14) ⊎ (k ≡ 15) ⊎ (k ≡ 16) ⊎ (k ≡ 17)

-- a property of the Seven sizes holds of every valid one
pub at_each_size {ℓ} :
    (P : ℕ → Type ℓ)
    → P (2 ^ 11)
    → P (2 ^ 12)
    → P (2 ^ 13)
    → P (2 ^ 14)
    → P (2 ^ 15)
    → P (2 ^ 16)
    → P (2 ^ 17)
    → (z : ℕ) → ZoneSize z
    → P z
at_each_size P a b c d e f g z size = pick seven_of
  where
    k : ℕ
    k = size.exponent

    seven_of : Seven k
    seven_of = omega arith

    at : (n : ℕ) → k ≡ n → P (2 ^ n) → P z
    at n q p = subst P (sym (size.power ∙ ap (λ (m : ℕ). 2 ^ m) q)) p

    pick : Seven k → P z
    pick (inl q) = at 11 q a
    pick (inr (inl q)) = at 12 q b
    pick (inr (inr (inl q))) = at 13 q c
    pick (inr (inr (inr (inl q)))) = at 14 q d
    pick (inr (inr (inr (inr (inl q))))) = at 15 q e
    pick (inr (inr (inr (inr (inr (inl q)))))) = at 16 q f
    pick (inr (inr (inr (inr (inr (inr q)))))) = at 17 q g

exponent_bounds : (k : ℕ) → 2 ^ 11 ≤ 2 ^ k → 2 ^ k ≤ 2 ^ 17 → (11 ≤ k) × (k ≤ 17)
exponent_bounds k lo hi = (least, most)
  where
    least : 11 ≤ k
    least = elim (dec_lt k 11) [
      | yes p ↦
          absurd
            (omega (arith, pow-le-pow_right {n = 2} (omega arith) {i = k} {j = 10} (omega arith)))
      | no p ↦ omega arith
    ]

    most : k ≤ 17
    most = elim (dec_lt 17 k) [
      | yes p ↦
          absurd
            (omega (arith, pow-le-pow_right {n = 2} (omega arith) {i = 18} {j = k} (omega arith)))
      | no p ↦ omega arith
    ]

valid→ZoneSize : (z : ℕ) → valid_zone_size z ≡ true → ZoneSize z
unfolding valid_zone_size
valid→ZoneSize z h =
    let (k, e) = power_of_two z (ground arith) (ground arith) in
    let (lo, hi) = exponent_bounds k (ground arith) (ground arith) in
    record { exponent = k; least = lo; most = hi; power = e }

-- The test by `&` accepts exactly the powers of two from 2 KiB to 128 KiB.
pub valid_zone_size_iff : (z : ℕ) → (valid_zone_size z ≡ true) ↔ ZoneSize z
unfolding valid_zone_size
valid_zone_size_iff z = (
  valid→ZoneSize z,
  at_each_size (λ n. valid_zone_size n ≡ true) refl refl refl refl refl refl refl z,
)
