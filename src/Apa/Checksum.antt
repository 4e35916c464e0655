-- ===== src/Apa/Checksum.antt =====
-- The checksum of core/apa.cpp: the sum of the words 1 to 255 of a header, modulo 2 ^ 32.
use native.Mathlib.Nat.{zero-add}
use ps2_driveforge.Base.{ℕ, ◌*◌, ◌%◌, ◌^◌, ◌≤◌, ◌<◌, ◌≡◌, ◌≢◌, ap, ◌∙◌, fun_ext, arith}
use ps2_driveforge.Base.Bytes.{
  load_u32, load_u32-lt, load_u32_le, load_u32_le-eq, sum_words-eq, words_of, word_total,
  word_total-detects, word_total-same,
}
use ps2_driveforge.Apa.Header.{Header, checksum}

-- The checksum is the exact sum of the little-endian words 1 to 255, reduced modulo 2 ^ 32.
pub checksum-eq : (h : Header) → checksum h ≡ word_total (words_of load_u32 h.bytes) 255 1 % 2 ^ 32
unfolding checksum
checksum-eq h = rw (← fun_ext (λ i. load_u32_le-eq h.bytes (4 * i))) (
    sum_words-eq load_u32_le 255 1 4 h.bytes 0 (omega arith) (omega arith)
    ∙ ap (λ (t : ℕ). t % 2 ^ 32) (zero-add _))

-- Word 0, where the checksum is stored, does not enter it.
pub checksum_ignores_first :
    (g h : Header)
    → ((i : ℕ) → i ≢ 0 → words_of load_u32 g.bytes i ≡ words_of load_u32 h.bytes i)
    → checksum g ≡ checksum h
checksum_ignores_first g h same =
    rw (checksum-eq g, checksum-eq h, word_total-same _ _ 255 1 0 (omega arith) same)

-- A change of exactly one of the words 1 to 255 changes the checksum.
pub checksum_detects :
    (g h : Header) (k : ℕ)
    → 1 ≤ k
    → k < 256
    → ((i : ℕ) → i ≢ k → words_of load_u32 g.bytes i ≡ words_of load_u32 h.bytes i)
    → words_of load_u32 g.bytes k ≢ words_of load_u32 h.bytes k
    → checksum g ≢ checksum h
checksum_detects g h k lo hi same differs =
    rw (checksum-eq g, checksum-eq h)
      (word_total-detects _ _ 255 1 k lo hi same (load_u32-lt g.bytes (4 * k))
        (load_u32-lt h.bytes (4 * k)) differs)
