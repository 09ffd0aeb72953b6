-- ===== src/Worker/Memory/Environments/Resolving.antt =====
-- That a name keeps its environment.
use app_health.Prelude.{
  ℕ, ◌≡◌, refl, true, List, [], ◌∷◌, ◌++◌, none, some, leb, filter-append, length, arith,
  Bool-cases, Option-cases, inl, inr,
}
use app_health.Js.Strings.{Text}
use app_health.Js.Strings.Equality.{same_text_refl}
use app_health.Js.Maps.{Dict, get, set, values, values-set_new}
use app_health.Worker.Memory.Environments.{
  EnvironmentV1, new_environment, create_environment, list_environments, is_of_app, is_named,
  find_named, resolve_environment, max_environments_per_app,
}

find_named-append :
    (name : Text) (es : List EnvironmentV1) (e : EnvironmentV1)
    → find_named name es ≡ none
    → is_named name e ≡ true
    → find_named name (es ++ e ∷ []) ≡ some e
unfolding find_named
find_named-append name [] e h k = rw k refl
find_named-append name (d ∷ es) e h k = elim (Bool-cases (is_named name d)) [
  | inl here ↦ let impossible : some d ≡ none = rw here at h in ground arith
  | inr there ↦ rw there (find_named-append name es e (rw there at h) k)
]

-- A name that was resolved resolves to the same environment at any later time, and nothing is created.
pub resolve_environment_twice :
    (environments : Dict EnvironmentV1) (app_id name : Text) (now : ℕ) (id : Text)
    (environment : EnvironmentV1) (later : ℕ) (other_id : Text)
    → get id environments ≡ none
    → (resolve_environment environments app_id name now id).0 ≡ some environment
    → resolve_environment
        (resolve_environment environments app_id name now id).1
        app_id
        name
        later
        other_id
      ≡ (some environment, (resolve_environment environments app_id name now id).1)
unfolding resolve_environment create_environment
resolve_environment_twice environments app_id name now id environment later other_id fresh h =
    let here = list_environments environments app_id in
    let e = new_environment id app_id name now in
    elim (Option-cases (find_named name here)) [
      | inr (existing, found) ↦
          let it : some existing ≡ some environment = rw found at h in rw (found, found, it) refl
      | inl missing ↦ elim (Bool-cases (leb max_environments_per_app (length here))) [
        | inl full ↦
            let impossible : none ≡ some environment = rw (missing, full) at h in ground arith
        | inr room ↦
            let it : some e ≡ some environment = rw (missing, room) at h in
            let found : find_named name (list_environments (set id e environments) app_id)
                ≡ some e =
              rw
                (
                  values-set_new id e environments fresh,
                  filter-append (is_of_app app_id) (values environments) e,
                  same_text_refl app_id,
                )
                (find_named-append name here e missing (same_text_refl name)) in
            rw (missing, room, found, it) refl
      ]
    ]
