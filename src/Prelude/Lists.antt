-- ===== src/Prelude/Lists.antt =====
-- Lists measured by native numbers, under the library's names.
use Prim.Native.Nat.{ℕ, zero, suc, ◌+◌, ◌-◌, ◌≤◌, ◌<◌}
use mathlib.Core.Path.{◌≡◌, refl, ap, sym, ◌∙◌}
use mathlib.Core.Logic.{◌⊎◌, inl, inr}
use mathlib.Core.Bool.{Bool, true, false, ◌&&◌, ◌||◌}
use mathlib.Core.List.{List, [], ◌∷◌, ◌++◌, map}
use mathlib.Core.Option.{Option, none, some}
use native.Mathlib.Omega.{arith}
use app_health.Prelude.Tests.{and_parts, ◌==◌, ◌>>=◌, if◌then◌else◌, Bool-cases}

module _ {ℓ} {A : Type ℓ} where
  abbrev pub length : List A → ℕ
  length [] = 0
  length (x ∷ xs) = suc (length xs)

  abbrev pub take : ℕ → List A → List A
  take zero xs = []
  take (suc n) [] = []
  take (suc n) (x ∷ xs) = x ∷ take n xs

  abbrev pub drop : ℕ → List A → List A
  drop zero xs = xs
  drop (suc n) [] = []
  drop (suc n) (x ∷ xs) = drop n xs

  abbrev pub get_elem? : List A → ℕ → Option A
  get_elem? [] i = none
  get_elem? (x ∷ xs) zero = some x
  get_elem? (x ∷ xs) (suc i) = get_elem? xs i

  -- The element at the index, changed where there is one.
  abbrev pub update : ℕ → (A → A) → List A → List A
  update i f [] = []
  update zero f (x ∷ xs) = f x ∷ xs
  update (suc i) f (x ∷ xs) = x ∷ update i f xs

  abbrev pub all : (A → Bool) → List A → Bool
  all p [] = true
  all p (x ∷ xs) = p x && all p xs

  abbrev pub any : (A → Bool) → List A → Bool
  any p [] = false
  any p (x ∷ xs) = p x || any p xs

  -- How many elements pass the test.
  abbrev pub count_if : (A → Bool) → List A → ℕ
  count_if p [] = 0
  count_if p (x ∷ xs) = elim (p x) [ true ↦ suc (count_if p xs) | false ↦ count_if p xs ]

  abbrev pub filter : (A → Bool) → List A → List A
  filter p [] = []
  filter p (x ∷ xs) = let rest = filter p xs in if p x then x ∷ rest else rest

  pub List-cases : (xs : List A) → (xs ≡ []) ⊎ ((x : A) × (ys : List A) × (xs ≡ x ∷ ys))
  List-cases [] = inl refl
  List-cases (x ∷ xs) = inr (x, xs, refl)

  pub length-append : (xs ys : List A) → length (xs ++ ys) ≡ length xs + length ys
  length-append [] ys = omega arith
  length-append (x ∷ xs) ys = omega (arith, length-append xs ys)

  pub all-append :
      (p : A → Bool) (xs ys : List A) → all p xs ≡ true → all p ys ≡ true → all p (xs ++ ys) ≡ true
  all-append p [] ys h k = k
  all-append p (x ∷ xs) ys h k =
      let (px, rest) = and_parts (p x) (all p xs) h in rw px (all-append p xs ys rest k)

  pub all_of : (p : A → Bool) → ((x : A) → p x ≡ true) → (xs : List A) → all p xs ≡ true
  all_of p passes [] = refl
  all_of p passes (x ∷ xs) = rw (passes x) (all_of p passes xs)

  pub all_weaken :
      (p q : A → Bool)
      → ((x : A) → p x ≡ true → q x ≡ true)
      → (xs : List A) → all p xs ≡ true
      → all q xs ≡ true
  all_weaken p q weaker [] h = refl
  all_weaken p q weaker (x ∷ xs) h =
      let (px, rest) = and_parts (p x) (all p xs) h in
      rw (weaker x px) (all_weaken p q weaker xs rest)

  pub length-drop : (n : ℕ) (xs : List A) → length (drop n xs) ≡ length xs - n
  length-drop zero xs = omega arith
  length-drop (suc n) [] = omega arith
  length-drop (suc n) (x ∷ xs) = omega (arith, length-drop n xs)

  pub drop-append : (n : ℕ) (xs ys : List A) → n ≤ length xs → drop n (xs ++ ys) ≡ drop n xs ++ ys
  drop-append zero xs ys h = refl
  drop-append (suc n) [] ys h = ground arith
  drop-append (suc n) (x ∷ xs) ys h = drop-append n xs ys (omega arith)

  drop-nil : (n : ℕ) → drop n [] ≡ []
  drop-nil zero = refl
  drop-nil (suc n) = refl

  pub drop-drop : (m n k : ℕ) (xs : List A) → m + n ≡ k → drop n (drop m xs) ≡ drop k xs
  drop-drop zero n k xs e = let same : n ≡ k = omega (arith, e) in ap (λ i. drop i xs) same
  drop-drop (suc m) n k [] e = drop-nil n ∙ sym (drop-nil k)
  drop-drop (suc m) n zero (x ∷ xs) e = ground arith
  drop-drop (suc m) n (suc k) (x ∷ xs) e = drop-drop m n k xs (omega arith)

  pub get_elem?-append :
      (xs ys : List A) (i : ℕ) → i < length xs → get_elem? (xs ++ ys) i ≡ get_elem? xs i
  get_elem?-append [] ys i h = ground arith
  get_elem?-append (x ∷ xs) ys zero h = refl
  get_elem?-append (x ∷ xs) ys (suc i) h = get_elem?-append xs ys i (omega arith)

  pub get_elem?-append_last : (xs : List A) (x : A) → get_elem? (xs ++ x ∷ []) (length xs) ≡ some x
  get_elem?-append_last [] x = refl
  get_elem?-append_last (y ∷ xs) x = get_elem?-append_last xs x

  pub length-update : (i : ℕ) (f : A → A) (xs : List A) → length (update i f xs) ≡ length xs
  length-update i f [] = refl
  length-update zero f (x ∷ xs) = refl
  length-update (suc i) f (x ∷ xs) = omega (arith, length-update i f xs)

  pub get_elem?-update_self :
      (i : ℕ) (f : A → A) (xs : List A)
      → get_elem? (update i f xs) i ≡ (get_elem? xs i >>= λ x. some (f x))
  get_elem?-update_self i f [] = refl
  get_elem?-update_self zero f (x ∷ xs) = refl
  get_elem?-update_self (suc i) f (x ∷ xs) = get_elem?-update_self i f xs

  pub get_elem?-update_other :
      (i j : ℕ) (f : A → A) (xs : List A)
      → (i == j) ≡ false
      → get_elem? (update i f xs) j ≡ get_elem? xs j
  get_elem?-update_other i j f [] h = refl
  get_elem?-update_other zero zero f (x ∷ xs) h = ground arith
  get_elem?-update_other zero (suc j) f (x ∷ xs) h = refl
  get_elem?-update_other (suc i) zero f (x ∷ xs) h = refl
  get_elem?-update_other (suc i) (suc j) f (x ∷ xs) h =
      get_elem?-update_other i j f xs (ground arith)

  pub filter-append :
      (p : A → Bool) (xs : List A) (x : A)
      → filter p (xs ++ x ∷ []) ≡ filter p xs ++ (if p x then x ∷ [] else [])
  filter-append p [] x = refl
  filter-append p (y ∷ xs) x = elim (Bool-cases (p y)) [
    | inl h ↦ rw h (ap (◌∷◌ y) (filter-append p xs x))
    | inr h ↦ rw h (filter-append p xs x)
  ]

  pub take-append-drop : (n : ℕ) (xs : List A) → take n xs ++ drop n xs ≡ xs
  take-append-drop zero xs = refl
  take-append-drop (suc n) [] = refl
  take-append-drop (suc n) (x ∷ xs) = ap (◌∷◌ x) (take-append-drop n xs)

abbrev pub sum : List ℕ → ℕ
sum [] = 0
sum (x ∷ xs) = x + sum xs

pub all-map {ℓ κ} :
    {A : Type ℓ} {B : Type κ} (p : A → Bool) (q : B → Bool) (f : A → B)
    → ((x : A) → p x ≡ true → q (f x) ≡ true)
    → (xs : List A) → all p xs ≡ true
    → all q (map f xs) ≡ true
all-map p q f passes [] h = refl
all-map p q f passes (x ∷ xs) h =
    let (px, rest) = and_parts (p x) (all p xs) h in rw (passes x px) (all-map p q f passes xs rest)
