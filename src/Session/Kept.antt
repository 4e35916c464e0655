-- ===== src/Session/Kept.antt =====
-- What a map of host/drive_session.cpp holds after a store: a predicate of its entries that the new
-- entry meets, and no more of them than its bound.
use ps2_driveforge.Base.{
  ℕ, zero, suc, ◌+◌, ◌≤◌, ◌<◌, ◌≡◌, refl, ap, sym, subst, List, [], ◌∷◌, length, true, not, leb,
  ◌==◌, some, Bool-cases, Option-cases, inl, inr, arith, All,
}
use ps2_driveforge.Base.Bytes.{bytes_eq, bytes_eq→eq}
use ps2_driveforge.Session.Store.{
  keys, find, insert_or_assign, erase_at, is_full, bounded_store, store_all,
}

-- `begin` is the place of a key
abbrev pub IsBegin : (List (List ℕ) → ℕ) → Type 0
IsBegin begin = (ks : List (List ℕ)) → 0 < length ks → begin ks < length ks

module _ {V : Type 0} (P : List ℕ × V → Type 0) where
  pub find-All :
      (entries : List (List ℕ × V)) (key : List ℕ) (value : V)
      → All P entries
      → find key entries ≡ some value
      → P (key, value)
  unfolding find
  find-All [] key value h e = cc
  find-All ((k, v) ∷ rest) key value h e = elim (Bool-cases (bytes_eq k key)) [
    | inl same ↦
        let found : v ≡ value = cc (rw same at e) in
        subst (λ k. P (k, value)) (bytes_eq→eq k key same) (subst (λ v. P (k, v)) found h.0)
    | inr other ↦ find-All rest key value h.1 (rw other at e)
  ]

  insert_or_assign-All :
      (entries : List (List ℕ × V)) (key : List ℕ) (value : V)
      → All P entries
      → P (key, value)
      → All P (insert_or_assign key value entries)
  unfolding insert_or_assign
  insert_or_assign-All [] key value h p = (p, tt)
  insert_or_assign-All ((k, v) ∷ rest) key value h p = elim (Bool-cases (bytes_eq k key)) [
    | inl same ↦ rw same (subst (λ k. P (k, value)) (sym (bytes_eq→eq k key same)) p, h.1)
    | inr other ↦ rw other (h.0, insert_or_assign-All rest key value h.1 p)
  ]

  erase_at-All : (i : ℕ) (entries : List (List ℕ × V)) → All P entries → All P (erase_at i entries)
  unfolding erase_at
  erase_at-All i [] h = tt
  erase_at-All zero (e ∷ rest) h = h.1
  erase_at-All (suc i) (e ∷ rest) h = (h.0, erase_at-All i rest h.1)

  module _ (begin : List (List ℕ) → ℕ) (max_entries : ℕ) where
    pub bounded_store-All :
        (entries : List (List ℕ × V)) (key : List ℕ) (value : V) (evictions : ℕ)
        → All P entries
        → P (key, value)
        → All P (bounded_store begin entries key value max_entries evictions).0
    unfolding bounded_store
    bounded_store-All entries key value evictions h p =
        elim (Bool-cases (is_full entries key max_entries)) [
          | inl full ↦ rw full (
              insert_or_assign-All (erase_at (begin (keys entries)) entries) key value
                (erase_at-All (begin (keys entries)) entries h) p)
          | inr room ↦ rw room (insert_or_assign-All entries key value h p)
        ]

    pub store_all-All :
        (entries added : List (List ℕ × V)) (evictions : ℕ)
        → All P entries
        → All P added
        → All P (store_all begin entries added max_entries evictions).0
    unfolding store_all
    store_all-All entries [] evictions h k = h
    store_all-All entries ((key, value) ∷ added) evictions h k =
        store_all-All (bounded_store begin entries key value max_entries evictions).0 added
          (bounded_store begin entries key value max_entries evictions).1
          (bounded_store-All entries key value evictions h k.0) k.1

module _ {V : Type 0} where
  length-keys : (entries : List (List ℕ × V)) → length (keys entries) ≡ length entries
  length-keys [] = refl
  length-keys ((k, v) ∷ rest) = ap suc (length-keys rest)

  length-erase_at :
      (i : ℕ) (entries : List (List ℕ × V))
      → i < length entries
      → length (erase_at i entries) + 1 ≡ length entries
  unfolding erase_at
  length-erase_at i [] h = absurd (omega arith)
  length-erase_at zero (e ∷ rest) h = omega arith
  length-erase_at (suc i) (e ∷ rest) h = omega (arith, length-erase_at i rest (omega arith))

  length-insert-le :
      (entries : List (List ℕ × V)) (key : List ℕ) (value : V)
      → length (insert_or_assign key value entries) ≤ length entries + 1
  unfolding insert_or_assign
  length-insert-le [] key value = omega arith
  length-insert-le ((k, v) ∷ rest) key value = ground (arith, length-insert-le rest key value)

  length-assign :
      (entries : List (List ℕ × V)) (key : List ℕ) (value old : V)
      → find key entries ≡ some old
      → length (insert_or_assign key value entries) ≡ length entries
  unfolding insert_or_assign find
  length-assign [] key value old h = cc
  length-assign ((k, v) ∷ rest) key value old h = elim (Bool-cases (bytes_eq k key)) [
    | inl same ↦ rw same refl
    | inr other ↦ rw other (ap suc (length-assign rest key value old (rw other at h)))
  ]

  module _ (begin : List (List ℕ) → ℕ) (is_begin : IsBegin begin) (max_entries : ℕ)
      (some_room : 0 < max_entries) where
    stored_size :
        (entries : List (List ℕ × V)) (key : List ℕ) (value : V) (evictions : ℕ)
        → length entries ≤ max_entries
        → length (bounded_store begin entries key value max_entries evictions).0 ≤ max_entries
    unfolding bounded_store
    stored_size entries key value evictions h = elim (Option-cases (find key entries)) [
      | inr (old, known) ↦ rw known (omega (arith, length-assign entries key value old known))
      | inl new ↦ elim (Bool-cases (leb max_entries (length entries))) [
        | inr room ↦ rw (new, room) (ground (arith, length-insert-le entries key value))
        | inl full ↦
            let some_entries : 0 < length entries = ground arith in
            let inside = is_begin (keys entries) (omega (arith, length-keys entries)) in
            let place = begin (keys entries) in
            let filled : (not (length entries == 0)) ≡ true = ground arith in
            let fewer = length-erase_at place entries (omega (arith, length-keys entries)) in
            rw (new, full, filled)
              (omega (arith, fewer, length-insert-le (erase_at place entries) key value))
      ]
    ]

    pub bounded_store_size :
        (entries : List (List ℕ × V)) (key : List ℕ) (value : V) (evictions : ℕ)
        → length entries ≤ max_entries
        → length (bounded_store begin entries key value max_entries evictions).0 ≤ max_entries
    bounded_store_size entries key value evictions h = stored_size entries key value evictions h

    pub store_all_size :
        (entries added : List (List ℕ × V)) (evictions : ℕ)
        → length entries ≤ max_entries
        → length (store_all begin entries added max_entries evictions).0 ≤ max_entries
    unfolding store_all
    store_all_size entries [] evictions h = h
    store_all_size entries ((key, value) ∷ added) evictions h =
        store_all_size (bounded_store begin entries key value max_entries evictions).0 added
          (bounded_store begin entries key value max_entries evictions).1
          (stored_size entries key value evictions h)
