-- ===== src/Session/Store.antt =====
-- `bounded_store` of host/drive_session.cpp, and the maps that it stores in. A map is the list of its
-- entries, the newest key last; which entry `map.begin()` is, std::unordered_map leaves open, so its
-- place among the keys is an argument. A counter is a 64-bit atomic: its sum wraps.
use ps2_driveforge.Base.{
  ℕ, zero, suc, ◌+◌, ◌%◌, ◌^◌, List, [], ◌∷◌, length, Bool, true, false, not, ◌&&◌, Option, none,
  some, leb, ◌==◌, if◌then◌else◌,
}
use ps2_driveforge.Base.Bytes.{bytes_eq}

abbrev pub bump : ℕ → ℕ
bump counter = (counter + 1) % 2 ^ 64

module _ {V : Type 0} where
  abbrev pub keys : List (List ℕ × V) → List (List ℕ)
  keys [] = []
  keys ((key, value) ∷ rest) = key ∷ keys rest

  unfoldable pub find : List ℕ → List (List ℕ × V) → Option V
  find key [] = none
  find key ((k, value) ∷ rest) = if bytes_eq k key then some value else find key rest

  abbrev pub is_some : Option V → Bool
  is_some none = false
  is_some (some value) = true

  abbrev pub contains : List ℕ → List (List ℕ × V) → Bool
  contains key entries = is_some (find key entries)

  unfoldable pub insert_or_assign : List ℕ → V → List (List ℕ × V) → List (List ℕ × V)
  insert_or_assign key value [] = (key, value) ∷ []
  insert_or_assign key value ((k, v) ∷ rest) =
      let later = insert_or_assign key value rest in
      if bytes_eq k key then (k, value) ∷ rest else (k, v) ∷ later

  unfoldable pub erase_at : ℕ → List (List ℕ × V) → List (List ℕ × V)
  erase_at i [] = []
  erase_at zero (e ∷ rest) = rest
  erase_at (suc i) (e ∷ rest) = e ∷ erase_at i rest

  abbrev pub is_full : List (List ℕ × V) → List ℕ → ℕ → Bool
  is_full entries key max_entries =
      not (contains key entries) && (leb max_entries (length entries) && not (length entries == 0))

  -- the entries, and the count of evictions
  unfoldable pub bounded_store :
      (List (List ℕ) → ℕ) → List (List ℕ × V) → List ℕ → V → ℕ → ℕ → List (List ℕ × V) × ℕ
  bounded_store begin entries key value max_entries evictions =
      if is_full entries key max_entries
      then (insert_or_assign key value (erase_at (begin (keys entries)) entries), bump evictions)
      else (insert_or_assign key value entries, evictions)

  -- the loop that stores one value after the other
  unfoldable pub store_all :
      (List (List ℕ) → ℕ) → List (List ℕ × V) → List (List ℕ × V) → ℕ → ℕ → List (List ℕ × V) × ℕ
  store_all begin entries [] max_entries evictions = (entries, evictions)
  store_all begin entries ((key, value) ∷ rest) max_entries evictions =
      let (stored, evicted) = bounded_store begin entries key value max_entries evictions in
      store_all begin stored rest max_entries evicted
