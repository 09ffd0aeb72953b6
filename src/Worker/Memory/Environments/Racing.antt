-- ===== src/Worker/Memory/Environments/Racing.antt =====
-- What two calls that overlap do: `resolveEnvironment` tests a list that may be out of date.
use app_health.Prelude.{
  ℕ, ◌≡◌, refl, ◌∙◌, ap, false, [], ◌∷◌, ◌++◌, none, leb, length, append_assoc, filter-append,
}
use app_health.Js.Strings.{Text, same_text}
use app_health.Js.Strings.Equality.{same_text_refl}
use app_health.Js.Maps.{Dict, get, values, get-set, values-set_new}
use app_health.Worker.Memory.Keys.{KeyStore}
use app_health.Worker.Memory.Environments.{
  EnvironmentV1, new_environment, create_environment, list_environments, is_of_app, find_named,
  max_environments_per_app,
}
use app_health.Worker.Memory.Environments.Interleaving.{
  start_resolve, resume_resolve, call_environments, call_all_environments,
}

listed_after :
    (environments : Dict EnvironmentV1) (app_id name : Text) (now : ℕ) (id : Text)
    → get id environments ≡ none
    → list_environments (create_environment environments app_id name now id).1 app_id
      ≡ list_environments environments app_id ++ new_environment id app_id name now ∷ []
unfolding create_environment
listed_after environments app_id name now id fresh =
    let e = new_environment id app_id name now in
    rw
      (
        values-set_new id e environments fresh,
        filter-append (is_of_app app_id) (values environments) e,
        same_text_refl app_id,
      )
      refl

-- Two calls for a name that an app does not have, where there is room for one more environment, both
-- create one if the second reads the list before the first goes on, each with an id of its own: the
-- app then has two environments of that name, and more than twenty if it had nineteen.
pub overlapping_resolves_repeat :
    (hash : Text → Text) (keys : KeyStore) (environments : Dict EnvironmentV1) (app_id name : Text)
    (now later : ℕ) (id other : Text)
    → get id environments ≡ none
    → get other environments ≡ none
    → same_text other id ≡ false
    → find_named name (list_environments environments app_id) ≡ none
    → leb max_environments_per_app (length (list_environments environments app_id)) ≡ false
    → list_environments
        (call_all_environments hash
          (record { environments = environments; keys = keys; reads = [] })
          (start_resolve app_id name now
            ∷ start_resolve app_id name later
            ∷ resume_resolve id
            ∷ resume_resolve other
            ∷ [])).environments
        app_id
      ≡ list_environments environments app_id
        ++ new_environment id app_id name now ∷ new_environment other app_id name later ∷ []
unfolding call_all_environments call_environments
overlapping_resolves_repeat hash keys environments app_id name now later id other fresh new apart
      missing room =
    let here = list_environments environments app_id in
    let e = new_environment id app_id name now in
    let first = (create_environment environments app_id name now id).1 in
    let unused : get other first ≡ none =
      unfold create_environment in (get-set other id e environments ∙ rw apart new) in
    let twice =
      listed_after first app_id name later other unused
      ∙ ap (λ es. es ++ new_environment other app_id name later ∷ [])
          (listed_after environments app_id name now id fresh)
      ∙ append_assoc here (e ∷ []) (new_environment other app_id name later ∷ []) in
    rw (missing, room) twice
