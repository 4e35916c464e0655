-- ===== src/Base/Spans.antt =====
-- The values of a function at consecutive positions, and the slices of a byte image as such.
use Prim.Native.Nat.add
use native.Mathlib.Nat.{add-zero, zero-add}
use ps2_driveforge.Base.{
  ℕ, zero, suc, ◌+◌, ◌≤◌, ◌<◌, ◌≡◌, refl, ap, ap₂, List, [], ◌∷◌, ◌++◌, length, get_or, arith, sym,
  ◌∙◌,
}
use ps2_driveforge.Device.{slice}

unfoldable pub span : (ℕ → ℕ) → ℕ → ℕ → List ℕ
span f start zero = []
span f start (suc n) = f start ∷ span f (start + 1) n

pub length-span : (f : ℕ → ℕ) (start n : ℕ) → length (span f start n) ≡ n
unfolding span
length-span f start zero = refl
length-span f start (suc n) = ap suc (length-span f (start + 1) n)

pub span-append :
    (f : ℕ → ℕ) (start n m : ℕ) → span f start n ++ span f (start + n) m ≡ span f start (n + m)
unfolding span
span-append f start zero m = cc (add-zero start, zero-add m)
span-append f start (suc n) m =
    let e : start + suc n ≡ start + 1 + n = omega arith in
    rw (e, add.suc n m) (ap (◌∷◌ (f start)) (span-append f (start + 1) n m))

pub span-zero : (f : ℕ → ℕ) (start : ℕ) → span f start 0 ≡ []
unfolding span
span-zero f start = refl

-- two adjacent pieces
pub span_join :
    (f : ℕ → ℕ) (s n m t : ℕ) {a b : List ℕ}
    → a ≡ span f s n
    → b ≡ span f (s + n) m
    → n + m ≡ t
    → a ++ b ≡ span f s t
span_join f s n m t p q e = ap₂ ◌++◌ p q ∙ span-append f s n m ∙ ap (span f s) e

regroup : (a i : ℕ) → a + 1 + i ≡ a + (i + 1)
regroup a i = omega arith

-- two functions that agree on a range, shifted against one another
pub span_congr :
    (f g : ℕ → ℕ) (s t n : ℕ) → ((i : ℕ) → i < n → f (s + i) ≡ g (t + i)) → span f s n ≡ span g t n
unfolding span
span_congr f g s t zero same = refl
span_congr f g s t (suc n) same =
    let first : f s ≡ g t = cc (same 0 (omega arith), add-zero s, add-zero t) in
    let rest =
      span_congr f g (s + 1) (t + 1) n
        λ i h. cc (same (i + 1) (omega arith), regroup s i, regroup t i) in
    ap₂ ◌∷◌ first rest

abbrev pub at : List ℕ → ℕ → ℕ
at image i = get_or image i 0

span_cons : (x : ℕ) (xs : List ℕ) (s n : ℕ) → span (at (x ∷ xs)) (suc s) n ≡ span (at xs) s n
span_cons x xs s n = span_congr _ _ (suc s) s n λ i h. rw (add.suc s i)

pub slice-span :
    (image : List ℕ) (o n : ℕ) → o + n ≤ length image → slice image o n ≡ span (at image) o n
unfolding span
slice-span image o zero h = refl
slice-span [] o (suc n) h = absurd (omega arith)
slice-span (x ∷ xs) zero (suc n) h =
    ap (◌∷◌ x) (slice-span xs 0 n (omega arith) ∙ sym (span_cons x xs 0 n))
slice-span (x ∷ xs) (suc o) (suc n) h =
    slice-span xs o (suc n) (omega arith) ∙ sym (span_cons x xs o (suc n))

at-span : (f : ℕ → ℕ) (s n j : ℕ) → j < n → at (span f s n) j ≡ f (s + j)
unfolding span
at-span f s zero j h = absurd (omega arith)
at-span f s (suc n) zero h = ap f (omega arith)
at-span f s (suc n) (suc j) h = at-span f (s + 1) n j (omega arith) ∙ ap f (omega arith)

-- a slice of consecutive values is consecutive values
pub slice-of_span :
    (f : ℕ → ℕ) (s n k m : ℕ) → k + m ≤ n → slice (span f s n) k m ≡ span f (s + k) m
slice-of_span f s n k m h =
    slice-span (span f s n) k m (rw length-span h)
    ∙ span_congr _ f k (s + k) m λ i p. at-span f s n (k + i) (omega arith) ∙ ap f (omega arith)
