-- ===== src/Hdl/Slots.antt =====
-- The places of the results that the workers of host/hdl_enrichment.cpp fill.
use ps2_driveforge.Base.{
  ℕ, zero, suc, ◌+◌, ◌≤◌, ◌<◌, ◌≡◌, ◌≢◌, refl, List, [], ◌∷◌, length, true, ◌==◌, Option, none,
  some, arith, Bool-cases, inl, inr,
}
use ps2_driveforge.Device.{Device}
use ps2_driveforge.Apa.Header.{Partition}
use ps2_driveforge.Hdl.Game.{GameResult, read_game_info}
use ps2_driveforge.Hdl.Enrichment.{mem_index, remove_index, store_game}

-- a place without a result is not taken yet, or with a worker; a result is that of its game
abbrev pub Slot : Device → ℕ → List ℕ → ℕ → Partition → Option GameResult → Type 0
Slot device next in_flight i p none = i < next → mem_index i in_flight ≡ true
Slot device next in_flight i p (some result) = result ≡ read_game_info device p

abbrev pub Slots : Device → ℕ → List ℕ → ℕ → List Partition → List (Option GameResult) → Type 0
Slots device next in_flight i [] [] = Unit
Slots device next in_flight i [] (r ∷ results) = ⊥
Slots device next in_flight i (p ∷ partitions) [] = ⊥
Slots device next in_flight i (p ∷ partitions) (r ∷ results) =
    Slot device next in_flight i p r × Slots device next in_flight (suc i) partitions results

module _ (device : Device) where
  -- more places may be taken, where these are with a worker
  Slot-widen :
      (next next' : ℕ) (held held' : List ℕ) (i : ℕ) (p : Partition) (r : Option GameResult)
      → ((i < next → mem_index i held ≡ true) → i < next' → mem_index i held' ≡ true)
      → Slot device next held i p r
      → Slot device next' held' i p r
  Slot-widen next next' held held' i p none f h = f h
  Slot-widen next next' held held' i p (some result) f h = h

  pub Slots-widen :
      (next next' : ℕ) (held held' : List ℕ) (bound i : ℕ) (partitions : List Partition)
      (results : List (Option GameResult))
      → i + length partitions ≤ bound
      → ((j : ℕ)
          → j < bound
          → (j < next → mem_index j held ≡ true)
          → j < next'
          → mem_index j held' ≡ true)
      → Slots device next held i partitions results
      → Slots device next' held' i partitions results
  Slots-widen next next' held held' bound i [] [] b f h = tt
  Slots-widen next next' held held' bound i [] (r ∷ results) b f h = h
  Slots-widen next next' held held' bound i (p ∷ partitions) [] b f h = h
  Slots-widen next next' held held' bound i (p ∷ partitions) (r ∷ results) b f h = (
    Slot-widen next next' held held' i p r (f i (omega arith)) h.0,
    Slots-widen next next' held held' bound (suc i) partitions results (omega arith) f h.1,
  )

  mem-remove :
      (j i : ℕ) (held : List ℕ)
      → j ≢ i
      → mem_index j held ≡ true
      → mem_index j (remove_index i held) ≡ true
  unfolding remove_index
  mem-remove j i [] h k = k
  mem-remove j i (a ∷ held) h k = elim (Bool-cases (i == a)) [
    | inl here ↦ rw (here, remove_index) (ground arith)
    | inr other ↦ let rest = mem-remove j i held h in rw (other, remove_index) (ground arith)
  ]

  Slot-other :
      (next : ℕ) (held : List ℕ) (index i : ℕ) (p : Partition) (r : Option GameResult)
      → i ≢ index
      → Slot device next held i p r
      → Slot device next (remove_index index held) i p r
  Slot-other next held index i p none other h = λ before. mem-remove i index held other (h before)
  Slot-other next held index i p (some result) other h = h

  -- places behind the one that is stored
  pub Slots-past :
      (next : ℕ) (held : List ℕ) (index i : ℕ) (partitions : List Partition)
      (results : List (Option GameResult))
      → index < i
      → Slots device next held i partitions results
      → Slots device next (remove_index index held) i partitions results
  Slots-past next held index i [] [] lo h = tt
  Slots-past next held index i [] (r ∷ results) lo h = h
  Slots-past next held index i (p ∷ partitions) [] lo h = h
  Slots-past next held index i (p ∷ partitions) (r ∷ results) lo h = (
    Slot-other next held index i p r (λ e. absurd (omega (arith, e))) h.0,
    Slots-past next held index (suc i) partitions results (omega arith) h.1,
  )

  pub Slots-stored :
      (next : ℕ) (held : List ℕ) (index i k : ℕ) (partitions : List Partition)
      (results : List (Option GameResult))
      → index ≡ i + k
      → Slots device next held i partitions results
      → Slots device next
          (remove_index index held)
          i
          partitions
          (store_game device k partitions results)
  unfolding store_game
  Slots-stored next held index i k [] [] e h = tt
  Slots-stored next held index i k [] (r ∷ results) e h = h
  Slots-stored next held index i k (p ∷ partitions) [] e h = h
  Slots-stored next held index i zero (p ∷ partitions) (r ∷ results) e h =
      (refl, Slots-past next held index (suc i) partitions results (omega (arith, e)) h.1)
  Slots-stored next held index i (suc k) (p ∷ partitions) (r ∷ results) e h = (
    Slot-other next held index i p r (λ same. absurd (omega (arith, e, same))) h.0,
    Slots-stored next held index (suc i) k partitions results (omega (arith, e)) h.1,
  )
