-- ===== src/Base/Digits.antt =====
-- The digit-wise operations on native numbers, at variables: their lowest digit, and the rest. The
-- recursion of `digits` counts down from the first number; a larger count gives the same result.
use Prim.Native.Nat.{bit_and, bit_or, bit_and-bitwise, bit_or-bitwise, bitwise, digits, max}
use ps2_driveforge.Base.{ℕ, zero, suc, ◌+◌, ◌*◌, ◌/◌, ◌%◌, ◌≤◌, ◌≡◌, refl, ap, ◌∙◌, sym, min, arith}

module _ (past : ℕ → ℕ) (op : ℕ → ℕ → ℕ) where
  digits-zero : (count b : ℕ) → digits past op count 0 b ≡ past b
  digits-zero zero b = refl
  digits-zero (suc count) b = refl

  -- two counts that both cover the first number
  counts_agree : (n m a b : ℕ) → a ≤ n → a ≤ m → digits past op n a b ≡ digits past op m a b
  counts_agree n m zero b p q = digits-zero n b ∙ sym (digits-zero m b)
  counts_agree zero m (suc a) b p q = absurd (omega arith)
  counts_agree (suc n) zero (suc a) b p q = absurd (omega arith)
  counts_agree (suc n) (suc m) (suc a) b p q =
      ap (λ (rest : ℕ). rest * 2 + op (suc a % 2) (b % 2))
        (counts_agree n m (suc a / 2) (b / 2) (omega arith) (omega arith))

  digits-bitwise : (n a b : ℕ) → a ≤ n → digits past op n a b ≡ bitwise past op a b
  digits-bitwise n a b enough = counts_agree n a a b enough (omega arith)

pub bit_and_step : (a b : ℕ) → bit_and a b ≡ min (a % 2) (b % 2) + 2 * bit_and (a / 2) (b / 2)
bit_and_step zero b = omega (arith, bit_and-bitwise 0 b, bit_and-bitwise 0 (b / 2))
bit_and_step (suc a) b =
    let rest = digits-bitwise (λ _. zero) min a (suc a / 2) (b / 2) (omega arith) in
    omega (arith, bit_and-bitwise (suc a) b, bit_and-bitwise (suc a / 2) (b / 2), rest)

pub bit_or-zero_left : (b : ℕ) → bit_or 0 b ≡ b
bit_or-zero_left b = bit_or-bitwise 0 b

pub bit_or_step : (a b : ℕ) → bit_or a b ≡ max (a % 2) (b % 2) + 2 * bit_or (a / 2) (b / 2)
bit_or_step zero b = omega (arith, bit_or-zero_left b, bit_or-zero_left (b / 2))
bit_or_step (suc a) b =
    let rest = digits-bitwise (λ b. b) max a (suc a / 2) (b / 2) (omega arith) in
    omega (arith, bit_or-bitwise (suc a) b, bit_or-bitwise (suc a / 2) (b / 2), rest)
