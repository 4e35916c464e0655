-- ===== src/Base/Slices.antt =====
-- Slices of slices: the pages of a cache hold a part of the image.
use ps2_driveforge.Base.{
  ℕ, zero, suc, ◌+◌, ◌≤◌, ◌≡◌, refl, ap, sym, ◌∙◌, List, [], ◌∷◌, ◌++◌, length, take, drop, arith,
  length-drop,
}
use ps2_driveforge.Device.{slice}

drop-append : (xs ys : List ℕ) (o : ℕ) → o ≤ length xs → drop o (xs ++ ys) ≡ drop o xs ++ ys
drop-append xs ys zero h = refl
drop-append [] ys (suc o) h = absurd (omega arith)
drop-append (x ∷ xs) ys (suc o) h = drop-append xs ys o (omega arith)

take-append : (xs ys : List ℕ) (n : ℕ) → n ≤ length xs → take n (xs ++ ys) ≡ take n xs
take-append xs ys zero h = refl
take-append [] ys (suc n) h = absurd (omega arith)
take-append (x ∷ xs) ys (suc n) h = ap (◌∷◌ x) (take-append xs ys n (omega arith))

pub slice-append :
    (xs ys : List ℕ) (o n : ℕ) → o + n ≤ length xs → slice (xs ++ ys) o n ≡ slice xs o n
slice-append xs ys o n h =
    ap (take n) (drop-append xs ys o (omega arith))
    ∙ take-append (drop o xs) ys n (omega (arith, length-drop o xs))

take-take : (m n : ℕ) (xs : List ℕ) → n ≤ m → take n (take m xs) ≡ take n xs
take-take m zero xs h = refl
take-take zero (suc n) xs h = absurd (omega arith)
take-take (suc m) (suc n) [] h = refl
take-take (suc m) (suc n) (x ∷ xs) h = ap (◌∷◌ x) (take-take m n xs (omega arith))

drop-take : (m n o : ℕ) (xs : List ℕ) → o + n ≤ m → take n (drop o (take m xs)) ≡ take n (drop o xs)
drop-take m n zero xs h = take-take m n xs (omega arith)
drop-take zero n (suc o) xs h = absurd (omega arith)
drop-take (suc m) n (suc o) [] h = refl
drop-take (suc m) n (suc o) (x ∷ xs) h = drop-take m n o xs (omega arith)

drop-nil : (n : ℕ) → drop {A = ℕ} n [] ≡ []
drop-nil zero = refl
drop-nil (suc n) = refl

pub drop-drop : (p o : ℕ) (xs : List ℕ) → drop o (drop p xs) ≡ drop (p + o) xs
drop-drop zero o xs = ap (λ (n : ℕ). drop n xs) (omega arith)
drop-drop (suc p) o [] = drop-nil o ∙ sym (drop-nil (suc p + o))
drop-drop (suc p) o (x ∷ xs) =
    let e : suc (p + o) ≡ suc p + o = omega arith in
    drop-drop p o xs ∙ ap (λ (n : ℕ). drop n (x ∷ xs)) e

-- a part of a slice
pub slice-slice :
    (xs : List ℕ) (p m o n : ℕ) → o + n ≤ m → slice (slice xs p m) o n ≡ slice xs (p + o) n
slice-slice xs p m o n h = drop-take m n o (drop p xs) h ∙ ap (take n) (drop-drop p o xs)
