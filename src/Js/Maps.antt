-- ===== src/Js/Maps.antt =====
-- `Map<string, V>`: entries in the order in which their keys were first set.
pub mod Thinning
use app_health.Prelude.{
  ℕ, ◌+◌, ◌≤◌, ◌≡◌, refl, sym, ap, ◌∙◌, Bool, true, false, not, ◌&&◌, ◌||◌, List, [], ◌∷◌, ◌++◌,
  Option, none, some, is_some, if◌then◌else◌, all, arith, Bool-cases, inl, inr, and_parts, returned,
  if_elim,
}
use app_health.Js.Strings.{Text, same_text}
use app_health.Js.Strings.Equality.{same_text→eq, same_text_refl, same_text_apart}

abbrev pub Dict {ℓ} : Type ℓ → Type ℓ
Dict V = List (Text × V)

module _ {ℓ} {V : Type ℓ} where
  unfoldable pub get : Text → Dict V → Option V
  get k [] = none
  get k ((j, v) ∷ d) = let rest = get k d in if same_text k j then some v else rest

  unfoldable pub set : Text → V → Dict V → Dict V
  set k v [] = (k, v) ∷ []
  set k v ((j, w) ∷ d) = let rest = (j, w) ∷ set k v d in if same_text k j then (j, v) ∷ d else rest

  -- `delete`
  unfoldable pub remove : Text → Dict V → Dict V
  remove k [] = []
  remove k ((j, v) ∷ d) = let rest = remove k d in if same_text k j then rest else (j, v) ∷ rest

  abbrev pub values : Dict V → List V
  values [] = []
  values ((k, v) ∷ d) = v ∷ values d

  -- A sum over the values.
  abbrev pub total : (V → ℕ) → Dict V → ℕ
  total f [] = 0
  total f ((k, v) ∷ d) = f v + total f d

  pub get_nil : (k : Text) → get k [] ≡ none
  unfolding get
  get_nil k = refl

  pub get_cons :
      (k j : Text) (v : V) (d : Dict V)
      → get k ((j, v) ∷ d) ≡ (if same_text k j then some v else get k d)
  unfolding get
  get_cons k j v d = refl

  pub set_cons :
      (k j : Text) (v w : V) (d : Dict V)
      → set k v ((j, w) ∷ d) ≡ (if same_text k j then (j, v) ∷ d else (j, w) ∷ set k v d)
  unfolding set
  set_cons k j v w d = refl

  remove_nil : (k : Text) → remove k [] ≡ []
  unfolding remove
  remove_nil k = refl

  pub remove_cons :
      (k j : Text) (v : V) (d : Dict V)
      → remove k ((j, v) ∷ d) ≡ (if same_text k j then remove k d else (j, v) ∷ remove k d)
  unfolding remove
  remove_cons k j v d = refl

  pub get-set :
      (j k : Text) (v : V) (d : Dict V)
      → get j (set k v d) ≡ (if same_text j k then some v else get j d)
  get-set j k v [] = unfold get set in refl
  get-set j k v ((i, w) ∷ d) = elim (Bool-cases (same_text k i)) [
    | inl found ↦
        rw (set_cons k i v w d, found, get_cons j i v d, get_cons j i w d, same_text→eq k i found)
          (elim (Bool-cases (same_text j i)) [
            | inl here ↦ rw here refl
            | inr there ↦ rw there refl
          ])
    | inr other ↦
        rw
          (set_cons k i v w d, other, get_cons j i w (set k v d), get_cons j i w d, get-set j k v d)
          (elim (Bool-cases (same_text j i)) [
            | inl here ↦ rw (here, same_text_apart j k i here other) refl
            | inr there ↦ rw there refl
          ])
  ]

  pub get-set_self : (k : Text) (v : V) (d : Dict V) → get k (set k v d) ≡ some v
  get-set_self k v d = get-set k k v d ∙ rw (same_text_refl k) refl

  pub get-remove :
      (j k : Text) (d : Dict V) → get j (remove k d) ≡ (if same_text j k then none else get j d)
  get-remove j k [] =
      rw (remove_nil k, get_nil j)
        (if_elim (λ (o : Option V). none ≡ o) (same_text j k) (λ h. refl) (λ h. refl))
  get-remove j k ((i, w) ∷ d) = elim (Bool-cases (same_text k i)) [
    | inl found ↦
        rw (remove_cons k i w d, found, get_cons j i w d, get-remove j k d, same_text→eq k i found)
          (elim (Bool-cases (same_text j i)) [
            | inl here ↦ rw here refl
            | inr there ↦ rw there refl
          ])
    | inr other ↦
        rw
          (
            remove_cons k i w d,
            other,
            get_cons j i w (remove k d),
            get_cons j i w d,
            get-remove j k d,
          )
          (elim (Bool-cases (same_text j i)) [
            | inl here ↦ rw (here, same_text_apart j k i here other) refl
            | inr there ↦ rw there refl
          ])
  ]

  -- A value that is set adds to a sum over the values what it takes more than the one it replaces.
  pub total-set_new :
      (f : V → ℕ) (k : Text) (v : V) (d : Dict V)
      → get k d ≡ none
      → total f (set k v d) ≡ total f d + f v
  total-set_new f k v [] h = unfold set in omega arith
  total-set_new f k v ((j, w) ∷ d) h = elim (Bool-cases (same_text k j)) [
    | inl here ↦ let impossible : some w ≡ none = rw (get_cons k j w d, here) at h in ground arith
    | inr there ↦
        rw (set_cons k j v w d, there)
          (omega (arith, total-set_new f k v d (rw (get_cons k j w d, there) at h)))
  ]

  pub total-set_old :
      (f : V → ℕ) (k : Text) (v old : V) (d : Dict V)
      → get k d ≡ some old
      → total f (set k v d) + f old ≡ total f d + f v
  total-set_old f k v old [] h =
      let impossible : none ≡ some old = rw (get_nil k) at h in ground arith
  total-set_old f k v old ((j, w) ∷ d) h = elim (Bool-cases (same_text k j)) [
    | inl here ↦
        rw (set_cons k j v w d, here)
          (returned (λ x. f v + total f d + f x ≡ f w + total f d + f v)
            (rw (get_cons k j w d, here) at h) (omega arith))
    | inr there ↦
        rw (set_cons k j v w d, there)
          (omega (arith, total-set_old f k v old d (rw (get_cons k j w d, there) at h)))
  ]

  -- A test that all values pass and a new one, all values pass after it is set.
  pub all-set :
      (p : V → Bool) (k : Text) (v : V) (d : Dict V)
      → p v ≡ true
      → all p (values d) ≡ true
      → all p (values (set k v d)) ≡ true
  all-set p k v [] pv h = unfold set in rw pv refl
  all-set p k v ((j, w) ∷ d) pv h =
      let (pw, rest) = and_parts (p w) (all p (values d)) h in
      rw (set_cons k j v w d) (
        if_elim (λ (e : Dict V). all p (values e) ≡ true) (same_text k j) (λ here. rw pv rest)
          (λ there. rw pw (all-set p k v d pv rest)))

  pub all-get :
      (p : V → Bool) (k : Text) (v : V) (d : Dict V)
      → get k d ≡ some v
      → all p (values d) ≡ true
      → p v ≡ true
  all-get p k v [] e h = let impossible : none ≡ some v = rw (get_nil k) at e in ground arith
  all-get p k v ((j, w) ∷ d) e h =
      let (pw, rest) = and_parts (p w) (all p (values d)) h in
      elim (Bool-cases (same_text k j)) [
        | inl here ↦ returned (λ x. p x ≡ true) (rw (get_cons k j w d, here) at e) pw
        | inr there ↦ all-get p k v d (rw (get_cons k j w d, there) at e) rest
      ]

  -- A new key's value comes last.
  pub values-set_new :
      (k : Text) (v : V) (d : Dict V) → get k d ≡ none → values (set k v d) ≡ values d ++ v ∷ []
  values-set_new k v [] h = unfold set in refl
  values-set_new k v ((j, w) ∷ d) h = elim (Bool-cases (same_text k j)) [
    | inl here ↦ let impossible : some w ≡ none = rw (get_cons k j w d, here) at h in ground arith
    | inr there ↦
        rw (set_cons k j v w d, there)
          (ap (◌∷◌ w) (values-set_new k v d (rw (get_cons k j w d, there) at h)))
  ]
