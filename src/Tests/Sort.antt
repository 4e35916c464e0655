-- ===== src/Tests/Sort.antt =====
-- An insertion sort of partitions by their start, which meets the promise of std::sort.
use mathlib.Core.List.{Perm}
use mathlib.Core.List.Perm
use ps2_driveforge.Base.{◌≤◌, List, [], ◌∷◌, Bool-cases, leb, if◌then◌else◌, inl, inr, arith, All}
use ps2_driveforge.Apa.Header.{Partition}
use ps2_driveforge.Hdl.CatalogOrder.{Ascending, Sorts}

unfoldable pub insert : Partition → List Partition → List Partition
insert p [] = p ∷ []
insert p (q ∷ qs) =
    let rest = insert p qs in if leb p.start_lba q.start_lba then p ∷ q ∷ qs else q ∷ rest

unfoldable pub insertion_sort : List Partition → List Partition
insertion_sort [] = []
insertion_sort (p ∷ ps) = insert p (insertion_sort ps)

insert-Perm : (p : Partition) (qs : List Partition) → Perm (insert p qs) (p ∷ qs)
unfolding insert
insert-Perm p [] = Perm.refl (p ∷ [])
insert-Perm p (q ∷ qs) = elim (Bool-cases (leb p.start_lba q.start_lba)) [
  | inl e ↦ rw e (Perm.refl (p ∷ q ∷ qs))
  | inr e ↦ rw e (Perm.trans (Perm.cons q (insert-Perm p qs)) (Perm.swap p q qs))
]

insert-All :
    (p q : Partition) (qs : List Partition)
    → q.start_lba ≤ p.start_lba
    → All (λ (r : Partition). q.start_lba ≤ r.start_lba) qs
    → All (λ (r : Partition). q.start_lba ≤ r.start_lba) (insert p qs)
unfolding insert
insert-All p q [] le h = (le, tt)
insert-All p q (r ∷ qs) le h = elim (Bool-cases (leb p.start_lba r.start_lba)) [
  | inl e ↦ rw e (le, h)
  | inr e ↦ rw e (h.0, insert-All p q qs le h.1)
]

no_later :
    (p q : Partition) (qs : List Partition)
    → p.start_lba ≤ q.start_lba
    → All (λ (r : Partition). q.start_lba ≤ r.start_lba) qs
    → All (λ (r : Partition). p.start_lba ≤ r.start_lba) qs
no_later p q [] le h = tt
no_later p q (r ∷ qs) le h = let first = h.0 in (omega arith, no_later p q qs le h.1)

insert-Ascending : (p : Partition) (qs : List Partition) → Ascending qs → Ascending (insert p qs)
unfolding insert
insert-Ascending p [] h = (tt, tt)
insert-Ascending p (q ∷ qs) h = elim (Bool-cases (leb p.start_lba q.start_lba)) [
  | inl e ↦
      let le : p.start_lba ≤ q.start_lba = ground arith in rw e ((le, no_later p q qs le h.0), h)
  | inr e ↦
      let le : q.start_lba ≤ p.start_lba = ground arith in
      rw e (insert-All p q qs le h.0, insert-Ascending p qs h.1)
]

ascends : (ps : List Partition) → Ascending (insertion_sort ps)
unfolding insertion_sort
ascends [] = tt
ascends (p ∷ ps) = insert-Ascending p (insertion_sort ps) (ascends ps)

permutes : (ps : List Partition) → Perm (insertion_sort ps) ps
unfolding insertion_sort
permutes [] = Perm.refl []
permutes (p ∷ ps) = Perm.trans (insert-Perm p (insertion_sort ps)) (Perm.cons p (permutes ps))

pub insertion_sort-Sorts : Sorts insertion_sort
insertion_sort-Sorts = record { ordered = ascends; permuted = permutes }
