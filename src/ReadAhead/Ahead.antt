-- ===== src/ReadAhead/Ahead.antt =====
-- The window of a read-ahead holds bytes of the device, so that its reads are those of the device.
use mathlib.Core.Option.{some-injective}
use ps2_driveforge.Base.{
  ℕ, ◌+◌, ◌-◌, ◌≤◌, ◌≡◌, refl, ap, sym, ◌∙◌, subst, true, false, ◌||◌, Option, some, List, [],
  length, ltb, ◌==◌, arith, Bool-cases, Option-cases, inl, inr, drop, length-take, length-drop,
}
use ps2_driveforge.Base.Slices.{slice-slice}
use ps2_driveforge.Device.{Device, Mirrors, IsReliable, slice}
use ps2_driveforge.ReadAhead.{
  ReadAhead, trigger_bytes, observe_request, reset_sequence, account_old_window, in_window,
  serve_window, count_miss, read_plain, prefetch_total, replace_window, prefetch, should_prefetch,
  read_miss, read_ahead, clear, reset_stats,
}

-- the invariant before a device that stands for `image`
pub record IsAhead (image : List ℕ) (r : ReadAhead) : Type 0 where
  pub mirrors : Mirrors r.inner image
  pub window : r.window ≡ slice image r.window_start (length r.window)

-- a read that leaves the invariant, and gives the bytes of the image where it gives any
pub record IsRead (image : List ℕ) (offset n : ℕ) (result : Option (List ℕ) × ReadAhead)
    : Type 0 where
  pub kept : IsAhead image result.1
  pub exact : (bytes : List ℕ) → result.0 ≡ some bytes → bytes ≡ slice image offset n

observe-IsAhead :
    (image : List ℕ) (r : ReadAhead) (offset n : ℕ)
    → IsAhead image r
    → IsAhead image (observe_request r offset n)
unfolding observe_request
observe-IsAhead image r offset n h = record { mirrors = h.mirrors; window = h.window }

reset-IsAhead :
    (image : List ℕ) (r : ReadAhead) → IsAhead image r → IsAhead image (reset_sequence r)
unfolding reset_sequence
reset-IsAhead image r h = record { mirrors = h.mirrors; window = h.window }

served :
    (image : List ℕ) (r : ReadAhead) (offset n : ℕ)
    → IsAhead image r
    → in_window r offset n ≡ true
    → IsRead image offset n (serve_window r offset n)
unfolding serve_window observe_request in_window
served image r offset n h inside =
    let after : r.window_start ≤ offset = ground arith in
    let short : offset - r.window_start + n ≤ length r.window = ground arith in
    record {
      kept = record { mirrors = h.mirrors; window = h.window };
      exact = λ bytes e.
          sym (some-injective _ _ e)
          ∙ ap (λ (w : List ℕ). slice w (offset - r.window_start) n) h.window
          ∙ slice-slice image r.window_start (length r.window) (offset - r.window_start) n short
          ∙ ap (λ (o : ℕ). slice image o n) (omega arith);
    }

plain :
    (image : List ℕ) (r : ReadAhead) (offset n : ℕ) (note : ReadAhead → ReadAhead)
    → IsAhead image r
    → IsAhead image (note r)
    → IsRead image offset n (read_plain r offset n note)
unfolding read_plain
plain image r offset n note h noted = elim (Option-cases (r.inner.read offset n)) [
  | inl bad ↦ rw (bad, read_plain) (record { kept = h; exact = λ bytes e. cc })
  | inr (found, e) ↦
      rw (e, read_plain)
        (record {
          kept = noted;
          exact =
              λ bytes given. sym (some-injective _ _ given) ∙ (h.mirrors.exact offset n found e).0;
        })
]

account_old_window-inner : (r : ReadAhead) → (account_old_window r).inner ≡ r.inner
unfolding account_old_window
account_old_window-inner r = ground arith

replaced :
    (image : List ℕ) (r : ReadAhead) (offset n m : ℕ) (loaded : List ℕ)
    → IsAhead image r
    → loaded ≡ slice image offset m
    → offset + m ≤ length image
    → IsAhead image (replace_window r offset n loaded)
unfolding replace_window observe_request
replaced image r offset n m loaded h e fits =
    let full : length loaded ≡ m =
      ap length e ∙ omega (arith, length-take m (drop offset image), length-drop offset image) in
    record {
      mirrors =
          subst (λ (d : Device). Mirrors d image) (sym (account_old_window-inner _)) h.mirrors;
      window = e ∙ ap (slice image offset) (sym full);
    }

prefetched :
    (image : List ℕ) (r : ReadAhead) (offset n : ℕ)
    → IsAhead image r
    → offset + n ≤ r.inner.size_bytes
    → IsRead image offset n (prefetch r offset n)
unfolding prefetch
prefetched image r offset n h fits =
    elim (Option-cases (r.inner.read offset (prefetch_total r offset n))) [
      | inl bad ↦ rw (bad, prefetch) (record { kept = h; exact = λ bytes e. cc })
      | inr (loaded, found) ↦
          rw (found, prefetch)
            (let (e, inside) = h.mirrors.exact offset (prefetch_total r offset n) loaded found in
              record {
                kept = replaced image r offset n (prefetch_total r offset n) loaded h e inside;
                exact = λ bytes given.
                    sym (some-injective _ _ given)
                    ∙ ap (λ (w : List ℕ). slice w 0 n) e
                    ∙ slice-slice image offset (prefetch_total r offset n) 0 n (omega arith)
                    ∙ ap (λ (o : ℕ). slice image o n) (omega arith);
              })
    ]

missed :
    (image : List ℕ) (r : ReadAhead) (offset n : ℕ)
    → IsAhead image r
    → offset + n ≤ r.inner.size_bytes
    → IsRead image offset n (read_miss r offset n)
unfolding read_miss
missed image r offset n h fits = elim (Bool-cases (ltb n trigger_bytes)) [
  | inl small ↦ rw small (plain image r offset n reset_sequence h (reset-IsAhead image r h))
  | inr large ↦ elim (Bool-cases (should_prefetch r offset)) [
    | inr first ↦
        rw (large, first)
          (plain image r offset n (λ s. observe_request s offset n) h
            (observe-IsAhead image r offset n h))
    | inl again ↦ rw (large, again) (prefetched image r offset n h fits)
  ]
]

-- A read through the read-ahead gives what the device holds, whether it comes from the window, from
-- the device or from a prefetch, and the window still holds bytes of the device after it.
pub read_ahead-IsRead :
    (image : List ℕ) (r : ReadAhead) (offset n : ℕ)
    → IsAhead image r
    → IsRead image offset n (read_ahead r offset n)
unfolding read_ahead
read_ahead-IsRead image r offset n h =
    elim (Bool-cases (ltb r.inner.size_bytes offset || ltb (r.inner.size_bytes - offset) n)) [
      | inl outside ↦ rw outside (record { kept = h; exact = λ bytes e. cc })
      | inr inside ↦ elim (Bool-cases (n == 0)) [
        | inl empty ↦
            rw (inside, empty)
              (let nothing : n ≡ 0 = ground arith in
                record {
                  kept = h;
                  exact =
                      λ bytes e. sym (some-injective _ _ e) ∙ ap (slice image offset) (sym nothing);
                })
        | inr some_bytes ↦ elim (Bool-cases (in_window r offset n)) [
          | inl hit ↦ rw (inside, some_bytes, hit) (served image r offset n h hit)
          | inr miss ↦
              rw (inside, some_bytes, miss)
                (missed image (count_miss r) offset n
                  (record { mirrors = h.mirrors; window = h.window }) (ground arith))
        ]
      ]
    ]

abbrev IsAnswered : Option (List ℕ) × ReadAhead → Type 0
IsAnswered r = (bytes : List ℕ) × (r.0 ≡ some bytes)

module _ (r : ReadAhead) (offset n : ℕ) (fits : offset + n ≤ r.inner.size_bytes)
    (reliable : IsReliable r.inner) where
  plain-answers :
      (note : ReadAhead → ReadAhead) → IsAnswered (read_plain (count_miss r) offset n note)
  unfolding read_plain
  plain-answers note =
      let (bytes, found) = reliable offset n fits in rw (read_plain, found) (bytes, refl)

  miss-answers : IsAnswered (read_miss (count_miss r) offset n)
  unfolding read_miss prefetch
  miss-answers = elim (Bool-cases (ltb n trigger_bytes)) [
    | inl small ↦ rw small (plain-answers reset_sequence)
    | inr large ↦ elim (Bool-cases (should_prefetch r offset)) [
      | inr first ↦ rw (large, first) (plain-answers (λ s. observe_request s offset n))
      | inl again ↦
          let (bytes, found) = reliable offset (prefetch_total r offset n) (omega arith) in
          rw (large, again, prefetch, found) (_, refl)
    ]
  ]

  -- On a device that does not fail, every read inside it is answered.
  pub read_ahead_succeeds : IsAnswered (read_ahead r offset n)
  unfolding read_ahead serve_window
  read_ahead_succeeds =
      let inside : (ltb r.inner.size_bytes offset || ltb (r.inner.size_bytes - offset) n) ≡ false =
        ground arith in
      elim (Bool-cases (n == 0)) [
        | inl empty ↦ rw (inside, empty) ([], refl)
        | inr some_bytes ↦ elim (Bool-cases (in_window r offset n)) [
          | inl hit ↦ rw (inside, some_bytes, hit) (_, refl)
          | inr miss ↦ rw (inside, some_bytes, miss) miss-answers
        ]
      ]

-- Forgetting the window or the counters keeps the invariant.
pub clear-IsAhead :
    (image : List ℕ) (r : ReadAhead)
    → IsAhead image r
    → IsAhead image (clear r) × IsAhead image (reset_stats r)
unfolding clear reset_sequence reset_stats
clear-IsAhead image r h = (
  record {
    mirrors = subst (λ (d : Device). Mirrors d image) (sym (account_old_window-inner r)) h.mirrors;
    window = refl;
  },
  record { mirrors = h.mirrors; window = h.window },
)
