-- ===== src/Base/Bits.antt =====
-- `|` on fields that do not overlap is a sum, for every width: the loads of core/apa.cpp and
-- core/hdl.cpp join shifted bytes by `|`.
use Prim.Native.Nat.{bit_or}
use native.Mathlib.Nat.{pow-suc}
use ps2_driveforge.Base.Digits.{bit_or-zero_left, bit_or_step}
use ps2_driveforge.Base.{ℕ, zero, suc, ◌+◌, ◌*◌, ◌/◌, ◌^◌, ◌<◌, ◌≡◌, ap, arith}

pow-pos : (k : ℕ) → 0 < 2 ^ k
pow-pos zero = omega arith
pow-pos (suc k) = omega (arith, pow-suc 2 k, pow-pos k)

double-pow : (k y : ℕ) → y * 2 ^ suc k ≡ 2 * (y * 2 ^ k)
double-pow k y = rw (pow-suc 2 k) (omega arith)

pub bit_or-shifted : (k x y : ℕ) → x < 2 ^ k → bit_or x (y * 2 ^ k) ≡ x + y * 2 ^ k
bit_or-shifted zero x y h =
    let e : x ≡ 0 = omega arith in rw e (omega (arith, bit_or-zero_left (y * 1)))
bit_or-shifted (suc k) x y h = rw (double-pow k y) (
    omega (
      arith,
      bit_or_step x (2 * (y * 2 ^ k)),
      ap (bit_or (x / 2)) half,
      bit_or-shifted k (x / 2) y (omega (arith, pow-suc 2 k)),
    ))
  where
    half : 2 * (y * 2 ^ k) / 2 ≡ y * 2 ^ k
    half = omega arith
