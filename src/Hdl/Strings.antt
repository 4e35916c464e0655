-- ===== src/Hdl/Strings.antt =====
-- The strings and the sum that `read_game_info` of core/hdl.cpp takes from the metadata.
use ps2_driveforge.Base.{
  ℕ, zero, suc, ◌+◌, ◌*◌, ◌%◌, ◌^◌, ◌≤◌, ◌<◌, ◌≡◌, ◌≢◌, refl, ap, ◌∙◌, List, [], ◌∷◌, length, All,
  true, arith, Bool-cases, false, inl, inr, ◌==◌,
}
use ps2_driveforge.Base.Bytes.{byte_at, load_u32, load_u32-lt, load_u32_le-eq, word_total}
use ps2_driveforge.Base.Spans.{span}
use ps2_driveforge.Hdl.Game.{read_c_string, sum_units, alloc_table_offset, alloc_entry_bytes}

-- `s` is the string that stands at offset `i`, with its end within `n` bytes
pub record IsString (p : List ℕ) (n i : ℕ) (s : List ℕ) : Type 0 where
  pub short : length s < n
  pub contents : s ≡ span (byte_at p) i (length s)
  pub nonzero : All (λ (c : ℕ). c ≢ 0) s
  pub ended : byte_at p (i + length s) ≡ 0

==-eq : (a b : ℕ) → (a == b) ≡ true → a ≡ b
==-eq a b h = ground arith

pub read_c_string-IsString :
    (p : List ℕ) (n i : ℕ) → (read_c_string p n i).1 ≡ true → IsString p n i (read_c_string p n i).0
unfolding read_c_string span
read_c_string-IsString p zero i = λ h. cc
read_c_string-IsString p (suc n) i = elim (Bool-cases (byte_at p i == 0)) [
  | inl e ↦
      rw (e, read_c_string)
        λ h. record {
          short = omega arith;
          contents = refl;
          nonzero = tt;
          ended = ap (byte_at p) (omega arith) ∙ ==-eq _ 0 e;
        }
  | inr e ↦
      rw (e, read_c_string)
        λ h.
          let r = read_c_string-IsString p n (i + 1) h in
          let short = r.short in
          record {
            short = omega arith;
            contents = ap (◌∷◌ (byte_at p i)) r.contents;
            nonzero = ((λ z. ground arith), r.nonzero);
            ended = ap (byte_at p) (omega arith) ∙ r.ended;
          }
]

pub IsString→read_c_string :
    (p : List ℕ) (n i : ℕ) (s : List ℕ) → IsString p n i s → read_c_string p n i ≡ (s, true)
unfolding read_c_string span
IsString→read_c_string p zero i s h = let short = h.short in absurd (omega arith)
IsString→read_c_string p (suc n) i [] h =
    let e : byte_at p i ≡ 0 = ap (byte_at p) (omega arith) ∙ h.ended in
    let t : (byte_at p i == 0) ≡ true = ground arith in rw t refl
IsString→read_c_string p (suc n) i (c ∷ s) h =
    let first : c ≡ byte_at p i = cc h.contents in
    let short = h.short in
    let rest = IsString→read_c_string p n (i + 1) s (record {
      short = omega arith;
      contents = cc h.contents;
      nonzero = h.nonzero.1;
      ended = ap (byte_at p) (omega arith) ∙ h.ended;
    }) in
    let n = h.nonzero.0 in
    let t : (byte_at p i == 0) ≡ false = ground arith in rw (t, rest) (cc first)

-- the length field of entry `k` of the allocation table
abbrev pub entry_length : List ℕ → ℕ → ℕ
entry_length bytes k = load_u32 bytes (alloc_table_offset + k * alloc_entry_bytes + 8)

pub sum_units-eq :
    (bytes : List ℕ) (n i raw_units : ℕ)
    → raw_units + n * 2 ^ 32 < 2 ^ 64
    → (sum_units bytes n i raw_units ≡ raw_units + word_total (entry_length bytes) n i)
      × (raw_units + word_total (entry_length bytes) n i ≤ raw_units + n * 2 ^ 32)
unfolding sum_units word_total
sum_units-eq bytes zero i raw_units h = ground arith
sum_units-eq bytes (suc n) i raw_units h =
    let at = alloc_table_offset + i * alloc_entry_bytes + 8 in
    let same = load_u32_le-eq bytes at in
    let small = load_u32-lt bytes at in
    let (e, le) = sum_units-eq bytes n (i + 1) (raw_units + load_u32 bytes at) (omega arith) in
    let whole : (raw_units + load_u32 bytes at) % 2 ^ 64 ≡ raw_units + load_u32 bytes at =
      omega arith in
    (rw (same, whole) (e ∙ omega arith), omega arith)
