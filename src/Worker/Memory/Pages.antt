-- ===== src/Worker/Memory/Pages.antt =====
-- The first of the filtered and sorted, as the listings return them.
use app_health.Prelude.{
  ℕ, zero, suc, ◌≡◌, refl, ap, ◌∙◌, min, Bool, true, false, List, [], ◌∷◌, length, take, filter,
  all, leb, arith, Bool-cases, inl, inr, and_parts,
}
use app_health.Js.Sorting.{sort_by, length-sort_by, all-sort_by, ordered, ordered-sort_by}

module _ {ℓ} {A : Type ℓ} where
  length-take : (n : ℕ) (xs : List A) → length (take n xs) ≡ min n (length xs)
  length-take zero xs = ground arith
  length-take (suc n) [] = ground arith
  length-take (suc n) (x ∷ xs) = omega (arith, length-take n xs)

  all-take : (p : A → Bool) (n : ℕ) (xs : List A) → all p xs ≡ true → all p (take n xs) ≡ true
  all-take p zero xs h = refl
  all-take p (suc n) [] h = refl
  all-take p (suc n) (x ∷ xs) h =
      let (px, rest) = and_parts (p x) (all p xs) h in rw px (all-take p n xs rest)

  all-filter : (p : A → Bool) (xs : List A) → all p (filter p xs) ≡ true
  all-filter p [] = refl
  all-filter p (x ∷ xs) = elim (Bool-cases (p x)) [
    | inl h ↦ rw (h, h) (all-filter p xs)
    | inr h ↦ rw h (all-filter p xs)
  ]

  ordered-take :
      (p r : A → A → Bool) (n : ℕ) (xs : List A)
      → ordered p r xs ≡ true
      → ordered p r (take n xs) ≡ true
  ordered-take p r zero xs h = refl
  ordered-take p r (suc n) [] h = refl
  ordered-take p r (suc n) (x ∷ xs) h =
      let (after, rest) = and_parts (all (r x) xs) (ordered p r xs) h in
      rw (all-take (r x) n xs after) (ordered-take p r n xs rest)

  -- Newer before older, by a time of the elements.
  abbrev pub no_older : (A → ℕ) → A → A → Bool
  no_older time x y = leb (time y) (time x)

  -- A page holds elements that pass the test, as many as the limit lets, the newest first, when
  -- newer elements compare as smaller, however ties are broken.
  pub page_lem :
      (precedes : A → A → Bool) (p : A → Bool) (time : A → ℕ)
      → ((x y : A) → precedes x y ≡ true → no_older time x y ≡ true)
      → ((x y : A) → precedes x y ≡ false → no_older time y x ≡ true)
      → (limit : ℕ) (xs : List A)
      → (all p (take limit (sort_by precedes (filter p xs))) ≡ true)
        × (length (take limit (sort_by precedes (filter p xs))) ≡ min limit (length (filter p xs)))
        × (ordered precedes (no_older time) (take limit (sort_by precedes (filter p xs))) ≡ true)
  page_lem precedes p time kept turned limit xs =
      let sorted = sort_by precedes (filter p xs) in
      (
        all-take p limit sorted (all-sort_by precedes p (filter p xs) (all-filter p xs)),
        length-take limit sorted ∙ ap (λ n. min limit n) (length-sort_by precedes (filter p xs)),
        ordered-take precedes (no_older time) limit sorted (
            ordered-sort_by precedes (no_older time) (λ x y z h k. older_still x y z h k) kept
              turned (filter p xs)),
      )
    where
      older_still :
          (x y z : A)
          → no_older time x y ≡ true
          → no_older time y z ≡ true
          → no_older time x z ≡ true
      older_still x y z h k = ground arith
