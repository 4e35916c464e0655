-- ===== src/Pfs/Entries.antt =====
-- What `Reader::list_directory` of core/pfs.cpp lists, and that its loop ends.
use ps2_driveforge.Base.{
  ℕ, zero, suc, ◌+◌, ◌-◌, ◌≤◌, ◌<◌, ◌≡◌, ◌≢◌, refl, List, [], Bool, true, not, ◌&&◌, ltb, ◌==◌, All,
  All-append, Result, ok, err, ◌>>◌, >>=-eq-ok, >>=-ne-err, Result-cases, ◌∙◌, arith, Bool-cases,
  inl, inr, length, subst,
}
use ps2_driveforge.Base.Bytes.{load_u32}
use ps2_driveforge.Pfs.Types.{DirectoryEntry}
use ps2_driveforge.Pfs.Metadata.{Fault, stuck}
use ps2_driveforge.Pfs.Directory.{
  sector_end, allocated, path_len, wanted, decode_entry, entry_at, check_entry, parse_entries,
}

-- an entry that stands in the bytes of a directory
pub record IsEntry (dots : Bool) (bytes : List ℕ) (e : DirectoryEntry) : Type 0 where
  pub position : ℕ
  pub decoded : e ≡ decode_entry bytes position
  pub inside : position + 8 + path_len bytes position ≤ sector_end bytes position
  pub used : load_u32 bytes position ≢ 0
  pub named : 1 ≤ path_len bytes position
  pub visible : wanted dots e.name ≡ true

sector_end-lt :
    (bytes : List ℕ) (position : ℕ) → position < length bytes → position < sector_end bytes position
sector_end-lt bytes position h = omega arith

check_entry-parts :
    (bytes : List ℕ) (position : ℕ)
    → check_entry bytes position ≡ ok tt
    → (8 ≤ allocated bytes position)
      × (position + allocated bytes position ≤ sector_end bytes position)
      × (path_len bytes position ≤ allocated bytes position - 8)
unfolding check_entry
check_entry-parts bytes position h = ground arith

entry_at-IsEntry :
    (dots : Bool) (bytes : List ℕ) (position : ℕ)
    → check_entry bytes position ≡ ok tt
    → All (IsEntry dots bytes) (entry_at dots bytes position)
unfolding entry_at
entry_at-IsEntry dots bytes position h =
    let (least, fits, name) = check_entry-parts bytes position h in
    elim (Bool-cases (
      not (load_u32 bytes position == 0)
      && (not (path_len bytes position == 0) && wanted dots (decode_entry bytes position).name))) [
        | inr hidden ↦ rw hidden tt
        | inl listed ↦ rw listed (
          record {
            position = position;
            decoded = refl;
            inside = omega arith;
            used = λ z. ground arith;
            named = ground arith;
            visible = ground arith;
          },
          tt,
        )
      ]

abbrev listing : List DirectoryEntry → Result Fault (List DirectoryEntry)
listing entries = ok entries

ok_injective : {a b : List DirectoryEntry} → listing a ≡ listing b → a ≡ b
ok_injective h = cc h

nothing_listed : (entries : List DirectoryEntry) → listing [] ≡ listing entries → [] ≡ entries
nothing_listed entries h = ok_injective h

-- Every listed entry stands in the directory, with its name inside one sector: it is in use, it has a
-- name, and it is a dot entry only where those are asked for.
pub parse_entries-IsEntry :
    (fuel : ℕ) (dots : Bool) (bytes : List ℕ) (position : ℕ) (entries : List DirectoryEntry)
    → parse_entries fuel dots bytes position ≡ ok entries
    → All (IsEntry dots bytes) entries
unfolding parse_entries
parse_entries-IsEntry zero dots bytes position entries =
    elim (Bool-cases (ltb position (length bytes))) [
      | inl more ↦ rw more λ h. cc
      | inr done ↦ rw done λ h. subst (All (IsEntry dots bytes)) (nothing_listed entries h) tt
    ]
parse_entries-IsEntry (suc fuel) dots bytes position entries =
    elim (Bool-cases (ltb position (length bytes))) [
      | inr done ↦
          rw (done, parse_entries)
            λ h. subst (All (IsEntry dots bytes)) (nothing_listed entries h) tt
      | inl more ↦ elim (Bool-cases (ltb (sector_end bytes position) (position + 8))) [
        | inl short ↦
            rw (more, parse_entries, short)
              λ h. parse_entries-IsEntry fuel dots bytes (sector_end bytes position) entries h
        | inr room ↦
            rw (more, parse_entries, room)
              λ h.
                let (u, checked, h') = >>=-eq-ok (check_entry bytes position) _ h in
                let (rest, parsed, h'') =
                  >>=-eq-ok (parse_entries fuel dots bytes (position + allocated bytes position)) _
                    h' in
                subst (All (IsEntry dots bytes)) (ok_injective h'') (
                  All-append (IsEntry dots bytes) (entry_at dots bytes position) rest
                    (entry_at-IsEntry dots bytes position checked)
                    (parse_entries-IsEntry fuel dots bytes (position + allocated bytes position)
                      rest parsed))
      ]
    ]

check_entry-ne-stuck : (bytes : List ℕ) (position : ℕ) → check_entry bytes position ≢ err stuck
unfolding check_entry
check_entry-ne-stuck bytes position = ground arith

entry-ne-stuck :
    (bytes : List ℕ) (position : ℕ) (more : Result Fault (List DirectoryEntry))
    → (8 ≤ allocated bytes position → more ≢ err stuck)
    → (check_entry bytes position >> more) ≢ err stuck
entry-ne-stuck bytes position more h = elim (Result-cases (check_entry bytes position)) [
  | inl (u, e) ↦ rw e (h (check_entry-parts bytes position e).0)
  | inr (x, e) ↦ rw e λ k. check_entry-ne-stuck bytes position (e ∙ cc k)
]

-- fuel of the bytes that are left is enough
pub parse_entries-ne-stuck :
    (fuel : ℕ) (dots : Bool) (bytes : List ℕ) (position : ℕ)
    → length bytes ≤ position + fuel
    → parse_entries fuel dots bytes position ≢ err stuck
unfolding parse_entries
parse_entries-ne-stuck zero dots bytes position h = ground arith
parse_entries-ne-stuck (suc fuel) dots bytes position h =
    elim (Bool-cases (ltb position (length bytes))) [
      | inr done ↦ rw (done, parse_entries) λ k. cc
      | inl more ↦
          let before : position < length bytes = ground arith in
          let on = sector_end-lt bytes position before in
          elim (Bool-cases (ltb (sector_end bytes position) (position + 8))) [
            | inl short ↦
                rw (more, parse_entries, short)
                  (parse_entries-ne-stuck fuel dots bytes (sector_end bytes position) (omega arith))
            | inr room ↦
                rw (more, parse_entries, room)
                  (entry-ne-stuck bytes position _ λ least.
                    >>=-ne-err (parse_entries fuel dots bytes (position + allocated bytes position))
                      _
                      (parse_entries-ne-stuck fuel dots bytes (position + allocated bytes position)
                        (omega arith))
                      (λ rest k. cc))
          ]
    ]
