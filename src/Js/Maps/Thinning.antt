-- ===== src/Js/Maps/Thinning.antt =====
-- Deleting entries of a `Map` while it is iterated over, and the order and uniqueness of its keys.
use app_health.Prelude.{
  ◌≡◌, refl, ◌⊎◌, Bool, true, false, not, ◌&&◌, [], ◌∷◌, Option, none, some, is_some, arith,
  Bool-cases, inl, inr, and_parts, if_elim, missing_when,
}
use app_health.Js.Strings.{Text, same_text}
use app_health.Js.Strings.Equality.{same_text→eq, same_text_refl, same_text_apart}
use app_health.Js.Maps.{
  Dict, get, set, remove, get_cons, set_cons, remove_cons, get-set, get-remove,
}

module _ {ℓ} {V : Type ℓ} where
  -- No key occurs twice.
  abbrev pub distinct : Dict V → Bool
  distinct [] = true
  distinct ((k, v) ∷ d) = not (is_some (get k d)) && distinct d

  pub distinct-set :
      (k : Text) (v : V) (d : Dict V) → distinct d ≡ true → distinct (set k v d) ≡ true
  distinct-set k v [] h = unfold get set in refl
  distinct-set k v ((j, w) ∷ d) h =
      let (absent, rest) = and_parts (not (is_some (get j d))) (distinct d) h in
      rw (set_cons k j v w d) (elim (Bool-cases (same_text k j)) [
        | inl here ↦ rw here h
        | inr there ↦
            let apart : same_text j k ≡ false = same_text_apart j k j (same_text_refl j) there in
            rw (there, get-set j k v d, apart, absent) (distinct-set k v d rest)
      ])

  pub distinct-remove : (k : Text) (d : Dict V) → distinct d ≡ true → distinct (remove k d) ≡ true
  distinct-remove k [] h = unfold remove in refl
  distinct-remove k ((j, w) ∷ d) h =
      let (absent, rest) = and_parts (not (is_some (get j d))) (distinct d) h in
      rw (remove_cons k j w d) (elim (Bool-cases (same_text k j)) [
        | inl here ↦ rw here (distinct-remove k d rest)
        | inr there ↦
            rw (there, get-remove j k d)
              (if_elim (λ (o : Option V). (not (is_some o) && distinct (remove k d)) ≡ true)
                (same_text j k) (λ same. distinct-remove k d rest)
                (λ other. rw absent (distinct-remove k d rest)))
      ])

-- A `Map` from which some of the entries whose values pass a test were deleted.
pub data Thinned {ℓ} {V : Type ℓ} (p : V → Bool) : Dict V → Dict V → Type ℓ where
  done : Thinned p [] []
  keep : (k : Text) (v : V) {d e : Dict V} → Thinned p d e → Thinned p ((k, v) ∷ d) ((k, v) ∷ e)
  drop_entry :
      (k : Text) (v : V) {d e : Dict V} → p v ≡ true → Thinned p d e → Thinned p ((k, v) ∷ d) e

module _ {ℓ} {V : Type ℓ} (p : V → Bool) where
  pub thinned_refl : (d : Dict V) → Thinned p d d
  thinned_refl [] = done
  thinned_refl ((k, v) ∷ d) = keep k v (thinned_refl d)

  -- Nothing is found that was not there.
  pub thinned_absent : (k : Text) {d e : Dict V} → Thinned p d e → get k d ≡ none → get k e ≡ none
  thinned_absent k done h = h
  thinned_absent k (keep j v {d} {e} t) h = elim (Bool-cases (same_text k j)) [
    | inl here ↦ let impossible : some v ≡ none = rw (get_cons k j v d, here) at h in ground arith
    | inr there ↦
        rw (get_cons k j v e, there) (thinned_absent k t (rw (get_cons k j v d, there) at h))
  ]
  thinned_absent k (drop_entry j v {d} {e} pv t) h = elim (Bool-cases (same_text k j)) [
    | inl here ↦ let impossible : some v ≡ none = rw (get_cons k j v d, here) at h in ground arith
    | inr there ↦ thinned_absent k t (rw (get_cons k j v d, there) at h)
  ]

  pub Thinned-distinct : {d e : Dict V} → Thinned p d e → distinct d ≡ true → distinct e ≡ true
  Thinned-distinct done h = h
  Thinned-distinct (keep k v {d} {e} t) h =
      let (absent, rest) = and_parts (not (is_some (get k d))) (distinct d) h in
      let gone = thinned_absent k t (missing_when (get k d) absent) in
      rw gone (Thinned-distinct t rest)
  Thinned-distinct (drop_entry k v {d} {e} pv t) h =
      Thinned-distinct t (and_parts (not (is_some (get k d))) (distinct d) h).1

  -- What is looked up is as before, or was there with a value that passes the test and is gone.
  pub get-thinned :
      (k : Text) {d e : Dict V}
      → Thinned p d e
      → distinct d ≡ true
      → (get k e ≡ get k d) ⊎ ((v : V) × (get k d ≡ some v) × (p v ≡ true) × (get k e ≡ none))
  get-thinned k done h = inl refl
  get-thinned k (keep j v {d} {e} t) h =
      let (absent, rest) = and_parts (not (is_some (get j d))) (distinct d) h in
      rw (get_cons k j v e, get_cons k j v d)
        (elim (Bool-cases (same_text k j)) [
          | inl here ↦ rw here (inl refl)
          | inr there ↦ rw there (get-thinned k t rest)
        ])
  get-thinned k (drop_entry j v {d} {e} pv t) h =
      let (absent, rest) = and_parts (not (is_some (get j d))) (distinct d) h in
      rw (get_cons k j v d) (elim (Bool-cases (same_text k j)) [
        | inl here ↦
            rw (here, same_text→eq k j here)
              (inr (v, refl, pv, thinned_absent j t (missing_when (get j d) absent)))
        | inr there ↦ rw there (get-thinned k t rest)
      ])
