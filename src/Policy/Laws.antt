-- ===== src/Policy/Laws.antt =====
-- What the open policy and the letter choice promise.
use ps2_driveforge.Base.{
  ℕ, zero, suc, ◌+◌, ◌≤◌, ◌<◌, ◌≡◌, ◌↔◌, ◌⊎◌, inl, inr, true, false, none, some, arith, Bool-cases,
  Option-cases, subst,
}
use ps2_driveforge.Policy.{
  OpenRequest, success, evaluate, is_free, letter_loop, choose_mount_letter,
}

-- a request that reads an existing object of the kind that it asks for
pub record IsPlainOpen (q : OpenRequest) : Type 0 where
  pub existing : q.exists ≡ true
  pub opens : (q.disposition ≡ 1) ⊎ (q.disposition ≡ 3)
  pub reads_only : q.wants_write ≡ false
  pub keeps : q.delete_on_close ≡ false
  pub file_wanted : (q.non_directory_only ≡ false) ⊎ (q.is_directory ≡ false)
  pub directory_wanted : (q.directory_only ≡ false) ⊎ (q.is_directory ≡ true)

-- An open succeeds exactly where it reads an existing object, by the dispositions open or open_if,
-- with no write access, no deletion, and the kind of object asked for: the mount never writes.
pub evaluate-success_iff : (q : OpenRequest) → (evaluate q ≡ success) ↔ IsPlainOpen q
unfolding evaluate
evaluate-success_iff q = (
  (λ h. record {
    existing = ground arith;
    opens = ground arith;
    reads_only = ground arith;
    keeps = ground arith;
    file_wanted = ground arith;
    directory_wanted = ground arith;
  }),
  (λ p.
      let e = p.existing in
      let o = p.opens in
      let w = p.reads_only in
      let k = p.keeps in let f = p.file_wanted in let d = p.directory_wanted in ground arith),
)

-- the letters from one on that are not taken, up to another
pub record IsLeast (mask first bound l : ℕ) : Type 0 where
  pub above : first ≤ l
  pub below : l < bound
  pub free : is_free mask l ≡ true
  pub least : (k : ℕ) → first ≤ k → k < l → is_free mask k ≡ false

eq_or_above : (a k : ℕ) → a ≤ k → (a ≡ k) ⊎ (a + 1 ≤ k)
eq_or_above a k lo = ground arith

letter_loop-IsLeast :
    (left mask letter l : ℕ)
    → letter_loop left mask letter ≡ some l
    → IsLeast mask letter (letter + left) l
unfolding letter_loop
letter_loop-IsLeast zero mask letter l h = cc
letter_loop-IsLeast (suc left) mask letter l h = elim (Bool-cases (is_free mask letter)) [
  | inl e ↦
      let same : letter ≡ l = ground arith in
      record {
        above = omega arith;
        below = omega arith;
        free = subst (λ t. is_free mask t ≡ true) same e;
        least = λ k lo hi. absurd (omega arith);
      }
  | inr e ↦
      let r = letter_loop-IsLeast left mask (letter + 1) l (ground arith) in
      let a = r.above in
      let b = r.below in
      record {
        above = omega arith;
        below = omega arith;
        free = r.free;
        least = λ k lo hi. elim (eq_or_above letter k lo) [
          | inl q ↦ subst (λ t. is_free mask t ≡ false) q e
          | inr q ↦ r.least k q hi
        ];
      }
]

letter_loop_full :
    (left mask letter : ℕ)
    → letter_loop left mask letter ≡ none
    → (k : ℕ) → letter ≤ k
    → k < letter + left
    → is_free mask k ≡ false
unfolding letter_loop
letter_loop_full zero mask letter h k lo hi = absurd (omega arith)
letter_loop_full (suc left) mask letter h k lo hi = elim (Bool-cases (is_free mask letter)) [
  | inl e ↦ ground arith
  | inr e ↦ elim (eq_or_above letter k lo) [
    | inl q ↦ subst (λ t. is_free mask t ≡ false) q e
    | inr q ↦ letter_loop_full left mask (letter + 1) (ground arith) k q (omega arith)
  ]
]

-- The mount letter chosen is the first letter from C to Z whose bit is clear in the mask.
pub choose_mount_letter-IsLeast :
    (mask l : ℕ) → choose_mount_letter mask ≡ some l → IsLeast mask b'C' (b'Z' + 1) l
unfolding choose_mount_letter
choose_mount_letter-IsLeast mask l h = letter_loop-IsLeast 24 mask b'C' l h

-- No mount letter is chosen exactly where every letter from C to Z is taken.
pub choose_mount_letter-none :
    (mask : ℕ)
    → (choose_mount_letter mask ≡ none) ↔ ((k : ℕ) → b'C' ≤ k → k ≤ b'Z' → is_free mask k ≡ false)
unfolding choose_mount_letter
choose_mount_letter-none mask = (
  (λ h k lo hi. letter_loop_full 24 mask b'C' h k lo (omega arith)),
  (λ all. elim (Option-cases (choose_mount_letter mask)) [
    | inl e ↦ e
    | inr (l, e) ↦
        let r = choose_mount_letter-IsLeast mask l e in
        let hi = r.below in
        let free = r.free in let taken = all l r.above (omega arith) in absurd cc
  ]),
)
