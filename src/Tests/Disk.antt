-- ===== src/Tests/Disk.antt =====
-- A disk for the tests: `pad` bytes that it cannot read, and then the bytes `tail`.
use ps2_driveforge.Base.{
  length-drop, ℕ, zero, suc, ◌+◌, ◌-◌, ◌/◌, ◌%◌, ◌≤◌, ◌≡◌, refl, ap, ◌∙◌, sym, none, some, List, [],
  ◌∷◌, ◌++◌, length, take, drop, replicate, leb, if◌then◌else◌, arith, length-append, ◌&&◌,
}
use ps2_driveforge.Device.{Device, Mirrors, IsReliable, slice}

unfoldable pub disk : ℕ → List ℕ → Device
disk pad tail = record {
  size_bytes = pad + length tail;
  read = λ offset n.
      if leb pad offset && leb (offset + n) (pad + length tail)
      then some (slice tail (offset - pad) n)
      else none;
}

pub image_of : ℕ → List ℕ → List ℕ
image_of pad tail = replicate pad 0 ++ tail

pub image_of-zero : (tail : List ℕ) → image_of 0 tail ≡ tail
unfolding image_of
image_of-zero tail = refl

length-replicate : (n a : ℕ) → length (replicate n a) ≡ n
length-replicate zero a = refl
length-replicate (suc n) a = ap suc (length-replicate n a)

drop-replicate :
    (pad offset : ℕ) (tail : List ℕ)
    → pad ≤ offset
    → drop offset (replicate pad 0 ++ tail) ≡ drop (offset - pad) tail
drop-replicate zero offset tail h = ap (λ (n : ℕ). drop n tail) (omega arith)
drop-replicate (suc pad) zero tail h = absurd (omega arith)
drop-replicate (suc pad) (suc offset) tail h =
    drop-replicate pad offset tail (omega arith) ∙ ap (λ (n : ℕ). drop n tail) (omega arith)

length-image_of : (pad : ℕ) (tail : List ℕ) → pad + length tail ≡ length (image_of pad tail)
unfolding image_of
length-image_of pad tail =
    omega (arith, length-append (replicate pad 0) tail, length-replicate pad 0)

pub disk-Mirrors : (pad : ℕ) (tail : List ℕ) → Mirrors (disk pad tail) (image_of pad tail)
unfolding disk image_of
disk-Mirrors pad tail = record {
  size = length-image_of pad tail;
  exact = λ offset n bytes h.
      let e = length-image_of pad tail in
      let there : pad ≤ offset = ground arith in
      let inside : offset + n ≤ pad + length tail = ground arith in
      let given : slice tail (offset - pad) n ≡ bytes = ground arith in
      (sym given ∙ sym (ap (take n) (drop-replicate pad offset tail there)), omega arith);
}

pub disk-IsReliable : (tail : List ℕ) → IsReliable (disk 0 tail)
unfolding disk
disk-IsReliable tail offset n h = (slice tail offset n, ground arith)

drop-nil : (n : ℕ) → drop {A = ℕ} n [] ≡ []
drop-nil zero = refl
drop-nil (suc n) = refl

drop-split : (p k : ℕ) (xs : List ℕ) → drop (k + p) xs ≡ drop k (drop p xs)
drop-split zero k xs = ap (λ (n : ℕ). drop n xs) (omega arith)
drop-split (suc p) k [] = drop-nil (k + suc p) ∙ sym (drop-nil k)
drop-split (suc p) k (x ∷ xs) =
    let e : k + suc p ≡ suc (k + p) = omega arith in
    ap (λ (n : ℕ). drop n (x ∷ xs)) e ∙ drop-split p k xs

-- past its first bytes, a disk reads like the disk that cannot read them
pub disk-cut :
    (p : ℕ) (tail : List ℕ) (offset n : ℕ)
    → p ≤ offset
    → p ≤ length tail
    → (disk 0 tail).read offset n ≡ (disk p (drop p tail)).read offset n
unfolding disk
disk-cut p tail offset n lo hi =
    let ends : p + length (drop p tail) ≡ length tail = omega (arith, length-drop p tail) in
    let split : drop (offset - p + p) tail ≡ drop (offset - p) (drop p tail) =
      drop-split p (offset - p) tail in
    let whole : offset - p + p ≡ offset = omega arith in
    let same : drop offset tail ≡ drop (offset - p) (drop p tail) = rw whole at split in
    ground (arith, ap (take n) same)

-- an integer of `n` bytes, the least significant first
unfoldable pub le : ℕ → ℕ → List ℕ
le zero a = []
le (suc n) a = a % 256 ∷ le n (a / 256)

abbrev pub zeros : ℕ → List ℕ
zeros n = replicate n 0
