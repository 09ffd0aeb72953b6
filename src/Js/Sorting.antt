-- ===== src/Js/Sorting.antt =====
-- `list.sort(compare)`, which keeps the order of what compares equal.
use app_health.Prelude.{
  suc, ◌≡◌, refl, ap, ◌∙◌, Bool, true, false, ◌&&◌, List, [], ◌∷◌, if◌then◌else◌, length, all,
  Bool-cases, inl, inr, if_elim, and_parts, and_true,
}

module _ {ℓ} {A : Type ℓ} (precedes : A → A → Bool) where
  unfoldable pub insert_by : A → List A → List A
  insert_by x [] = x ∷ []
  insert_by x (y ∷ ys) = let rest = y ∷ insert_by x ys in if precedes x y then x ∷ y ∷ ys else rest

  -- `precedes x y` is `compare(x, y) <= 0`.
  unfoldable pub sort_by : List A → List A
  unfolding insert_by
  sort_by [] = []
  sort_by (x ∷ xs) = insert_by x (sort_by xs)

  sort_by_cons : (x : A) (xs : List A) → sort_by (x ∷ xs) ≡ insert_by x (sort_by xs)
  unfolding sort_by
  sort_by_cons x xs = refl

  length-insert_by : (x : A) (ys : List A) → length (insert_by x ys) ≡ suc (length ys)
  unfolding insert_by
  length-insert_by x [] = refl
  length-insert_by x (y ∷ ys) =
      if_elim (λ (l : List A). length l ≡ suc (suc (length ys))) (precedes x y) (λ here. refl)
        (λ later. ap (λ n. suc n) (length-insert_by x ys))

  pub length-sort_by : (xs : List A) → length (sort_by xs) ≡ length xs
  length-sort_by [] = unfold sort_by in refl
  length-sort_by (x ∷ xs) =
      ap length (sort_by_cons x xs)
      ∙ (length-insert_by x (sort_by xs) ∙ ap (λ n. suc n) (length-sort_by xs))

  all-insert_by :
      (p : A → Bool) (x : A) (ys : List A)
      → p x ≡ true
      → all p ys ≡ true
      → all p (insert_by x ys) ≡ true
  unfolding insert_by
  all-insert_by p x [] px h = rw px refl
  all-insert_by p x (y ∷ ys) px h =
      let (py, rest) = and_parts (p y) (all p ys) h in
      if_elim (λ (l : List A). all p l ≡ true) (precedes x y) (λ here. rw (px, py) rest)
        (λ later. rw py (all-insert_by p x ys px rest))

  pub all-sort_by : (p : A → Bool) (xs : List A) → all p xs ≡ true → all p (sort_by xs) ≡ true
  all-sort_by p [] h = unfold sort_by in refl
  all-sort_by p (x ∷ xs) h =
      let (px, rest) = and_parts (p x) (all p xs) h in
      rw (sort_by_cons x xs) (all-insert_by p x (sort_by xs) px (all-sort_by p xs rest))

  -- Each element stands to all that come after it as the test says.
  abbrev pub ordered : (A → A → Bool) → List A → Bool
  ordered r [] = true
  ordered r (x ∷ xs) = all (r x) xs && ordered r xs

  module _ (r : A → A → Bool) (trans : (x y z : A) → r x y ≡ true → r y z ≡ true → r x z ≡ true)
      (kept : (x y : A) → precedes x y ≡ true → r x y ≡ true)
      (turned : (x y : A) → precedes x y ≡ false → r y x ≡ true) where
    all_after : (x y : A) (ys : List A) → r x y ≡ true → all (r y) ys ≡ true → all (r x) ys ≡ true
    all_after x y [] h k = refl
    all_after x y (z ∷ ys) h k =
        let (yz, rest) = and_parts (r y z) (all (r y) ys) k in
        rw (trans x y z h yz) (all_after x y ys h rest)

    ordered-insert_by :
        (x : A) (ys : List A) → ordered r ys ≡ true → ordered r (insert_by x ys) ≡ true
    unfolding insert_by
    ordered-insert_by x [] h = refl
    ordered-insert_by x (y ∷ ys) h =
        let (after, rest) = and_parts (all (r y) ys) (ordered r ys) h in
        elim (Bool-cases (precedes x y)) [
          | inl here ↦ rw (here, kept x y here, all_after x y ys (kept x y here) after) h
          | inr later ↦ rw later (
              and_true (all (r y) (insert_by x ys)) (ordered r (insert_by x ys))
                (all-insert_by (r y) x ys (turned x y later) after) (ordered-insert_by x ys rest))
        ]

    -- Sorting brings the elements into any order that the comparison refines.
    pub ordered-sort_by : (xs : List A) → ordered r (sort_by xs) ≡ true
    ordered-sort_by [] = unfold sort_by in refl
    ordered-sort_by (x ∷ xs) =
        rw (sort_by_cons x xs) (ordered-insert_by x (sort_by xs) (ordered-sort_by xs))
