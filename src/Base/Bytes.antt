-- ===== src/Base/Bytes.antt =====
-- Little-endian loads from a byte buffer, and the word sum of the metadata checksums:
-- load_u16_le and load_u32_le of core/apa.cpp and core/hdl.cpp, the memcpy loads of core/pfs.cpp,
-- and the loop that both checksum functions run.
-- The host is little-endian (static_assert in both files), so that a memcpy into an unsigned
-- integer reads byte i with the weight 256 ^ i.
use Prim.Native.Nat.{bit_or}
use native.Mathlib.Decide.{ℕ_discrete}
use Prim.Native.Char.{code}
use Prim.Native.String.{String}
use ps2_driveforge.Base.{
  Bool, true, false, [], ◌∷◌, ◌&&◌, ◌==◌, ℕ, zero, suc, ◌+◌, ◌*◌, ◌%◌, ◌^◌, ◌≤◌, ◌<◌, ◌≡◌, refl, ap,
  ◌≢◌, List, get_or, arith,
}
use ps2_driveforge.Base.Bits.{bit_or-shifted}

abbrev pub u32_mod : ℕ
u32_mod = 2 ^ 32

abbrev pub u64_mod : ℕ
u64_mod = 2 ^ 64

-- `std::to_integer<unsigned char>(p[i])`
abbrev pub byte_at : List ℕ → ℕ → ℕ
byte_at p i = get_or p i 0 % 256

-- the explicit loads, by shift and `|`
unfoldable pub load_u16_le : List ℕ → ℕ → ℕ
load_u16_le p i = bit_or (byte_at p i) (byte_at p (i + 1) * 2 ^ 8)

unfoldable pub load_u32_le : List ℕ → ℕ → ℕ
load_u32_le p i =
    bit_or (bit_or (bit_or (byte_at p i) (byte_at p (i + 1) * 2 ^ 8)) (byte_at p (i + 2) * 2 ^ 16))
      (byte_at p (i + 3) * 2 ^ 24)

-- the loads by memcpy
unfoldable pub load_u16 : List ℕ → ℕ → ℕ
load_u16 p i = byte_at p i + byte_at p (i + 1) * 2 ^ 8

unfoldable pub load_u32 : List ℕ → ℕ → ℕ
load_u32 p i =
    byte_at p i
    + byte_at p (i + 1) * 2 ^ 8
    + byte_at p (i + 2) * 2 ^ 16
    + byte_at p (i + 3) * 2 ^ 24

unfoldable pub load_u64 : List ℕ → ℕ → ℕ
load_u64 p i = load_u32 p i + load_u32 p (i + 4) * 2 ^ 32

pub load_u16_le-eq : (p : List ℕ) (i : ℕ) → load_u16_le p i ≡ load_u16 p i
unfolding load_u16_le load_u16
load_u16_le-eq p i = bit_or-shifted 8 _ _ (omega arith)

pub load_u32_le-eq : (p : List ℕ) (i : ℕ) → load_u32_le p i ≡ load_u32 p i
unfolding load_u32_le load_u32
load_u32_le-eq p i =
    rw
      (
        bit_or-shifted 8 (byte_at p i) (byte_at p (i + 1)) (omega arith),
        bit_or-shifted 16 (byte_at p i + byte_at p (i + 1) * 2 ^ 8) (byte_at p (i + 2))
            (omega arith),
      )
      (bit_or-shifted 24 _ _ (omega arith))

pub load_u16-lt : (p : List ℕ) (i : ℕ) → load_u16 p i < 2 ^ 16
unfolding load_u16
load_u16-lt p i = omega arith

pub load_u32-lt : (p : List ℕ) (i : ℕ) → load_u32 p i < 2 ^ 32
unfolding load_u32
load_u32-lt p i = omega arith

pub load_u64-lt : (p : List ℕ) (i : ℕ) → load_u64 p i < 2 ^ 64
unfolding load_u64
load_u64-lt p i = omega (arith, load_u32-lt p i, load_u32-lt p (i + 4))

-- `for (; offset < size; offset += 4) sum += load(offset)` in uint32_t, over `n` words
unfoldable pub sum_words : (List ℕ → ℕ → ℕ) → ℕ → ℕ → List ℕ → ℕ → ℕ
sum_words load zero offset p sum = sum
sum_words load (suc n) offset p sum =
    sum_words load n (offset + 4) p ((sum + load p offset) % 2 ^ 32)

-- the exact sum of the words j, j + 1, ..., j + n - 1, with no wrap
unfoldable pub word_total : (ℕ → ℕ) → ℕ → ℕ → ℕ
word_total word zero j = 0
word_total word (suc n) j = word j + word_total word n (j + 1)

abbrev pub words_of : (List ℕ → ℕ → ℕ) → List ℕ → ℕ → ℕ
words_of load p j = load p (4 * j)

pub sum_words-eq :
    (load : List ℕ → ℕ → ℕ) (n j offset : ℕ) (p : List ℕ) (sum : ℕ)
    → offset ≡ 4 * j
    → sum < 2 ^ 32
    → sum_words load n offset p sum ≡ (sum + word_total (words_of load p) n j) % 2 ^ 32
unfolding sum_words word_total
sum_words-eq load zero j offset p sum e h = omega arith
sum_words-eq load (suc n) j offset p sum e h = omega (
  arith,
  ap (load p) e,
  sum_words-eq load n (j + 1) (offset + 4) p ((sum + load p offset) % 2 ^ 32) (omega arith)
      (omega arith),
)

pub word_total-same :
    (f g : ℕ → ℕ) (n j k : ℕ)
    → k < j
    → ((i : ℕ) → i ≢ k → f i ≡ g i)
    → word_total f n j ≡ word_total g n j
unfolding word_total
word_total-same f g zero j k h same = refl
word_total-same f g (suc n) j k h same =
    omega (arith, same j (omega arith), word_total-same f g n (j + 1) k (omega arith) same)

-- where only word `k` differs, the totals differ by that word alone
pub word_total-change :
    (f g : ℕ → ℕ) (n j k : ℕ)
    → j ≤ k
    → k < j + n
    → ((i : ℕ) → i ≢ k → f i ≡ g i)
    → word_total f n j + g k ≡ word_total g n j + f k
unfolding word_total
word_total-change f g zero j k lo hi same = absurd (omega arith)
word_total-change f g (suc n) j k lo hi same = elim (ℕ_discrete j k) [
  | yes e ↦ omega (arith, ap f e, ap g e, word_total-same f g n (j + 1) k (omega arith) same)
  | no d ↦
      omega (arith, same j d, word_total-change f g n (j + 1) k (omega arith) (omega arith) same)
]

-- so the sums differ modulo 2 ^ 32 too
pub word_total-detects :
    (f g : ℕ → ℕ) (n j k : ℕ)
    → j ≤ k
    → k < j + n
    → ((i : ℕ) → i ≢ k → f i ≡ g i)
    → f k < 2 ^ 32
    → g k < 2 ^ 32
    → f k ≢ g k
    → word_total f n j % 2 ^ 32 ≢ word_total g n j % 2 ^ 32
word_total-detects f g n j k lo hi same a b differs =
    omega (arith, word_total-change f g n j k lo hi same)

-- the bytes of an ASCII literal
abbrev pub codes : String → List ℕ
codes String.[] = []
codes (String.◌∷◌ c s) = code c ∷ codes s

-- `a == b` on byte strings, and `memcmp(a, b, n) == 0` on buffers of one length
unfoldable pub bytes_eq : List ℕ → List ℕ → Bool
bytes_eq [] [] = true
bytes_eq [] (y ∷ ys) = false
bytes_eq (x ∷ xs) [] = false
bytes_eq (x ∷ xs) (y ∷ ys) = x == y && bytes_eq xs ys

pub bytes_eq→eq : (a b : List ℕ) → bytes_eq a b ≡ true → a ≡ b
unfolding bytes_eq
bytes_eq→eq [] [] h = refl
bytes_eq→eq [] (y ∷ ys) h = cc
bytes_eq→eq (x ∷ xs) [] h = cc
bytes_eq→eq (x ∷ xs) (y ∷ ys) h = ground (arith, bytes_eq→eq xs ys)

pub bytes_eq_refl : (a : List ℕ) → bytes_eq a a ≡ true
unfolding bytes_eq
bytes_eq_refl [] = refl
bytes_eq_refl (x ∷ xs) = ground (arith, bytes_eq_refl xs)
