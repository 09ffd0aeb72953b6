-- ===== src/Worker/Memory/Environments.antt =====
-- The app and environment repositories. The ids are what `newId` gives.
pub mod Interleaving
pub mod Limits
pub mod Racing
pub mod Resolving
mod Tests
use app_health.Prelude.{
  ℕ, Bool, true, false, not, ◌&&◌, ◌||◌, List, [], ◌∷◌, Option, none, some, leb, if◌then◌else◌,
  filter, any, length, is_some,
}
use app_health.Js.Strings.{Text, same_text}
use app_health.Js.Maps.{Dict, get, set, values}
use app_health.Worker.Memory.Keys.{KeyStore, KeyRecordV1, create_key, new_key}

pub record AppV1 : Type 0 where
  pub id : Text
  pub name : Text
  pub created_at : ℕ

pub record EnvironmentV1 : Type 0 where
  pub id : Text
  pub app_id : Text
  pub name : Text
  pub created_at : ℕ

abbrev pub max_environments_per_app : ℕ
max_environments_per_app = 20

abbrev pub new_app : (id name : Text) → ℕ → AppV1
new_app id name now = record { id = id; name = name; created_at = now }

unfoldable pub create_app : Dict AppV1 → (name : Text) (now : ℕ) (id : Text) → AppV1 × Dict AppV1
create_app apps name now id = (new_app id name now, set id (new_app id name now) apps)

abbrev pub get_app : Dict AppV1 → Text → Option AppV1
get_app apps app_id = get app_id apps

abbrev pub list_apps : Dict AppV1 → List AppV1
list_apps apps = values apps

abbrev pub new_environment : (id app_id name : Text) → ℕ → EnvironmentV1
new_environment id app_id name now = record {
  id = id;
  app_id = app_id;
  name = name;
  created_at = now;
}

unfoldable pub create_environment :
    Dict EnvironmentV1
    → (app_id name : Text) (now : ℕ) (id : Text) → EnvironmentV1 × Dict EnvironmentV1
create_environment environments app_id name now id =
    let environment = new_environment id app_id name now in
    (environment, set id environment environments)

abbrev pub get_environment : Dict EnvironmentV1 → Text → Option EnvironmentV1
get_environment environments env_id = get env_id environments

abbrev pub is_of_app : Text → EnvironmentV1 → Bool
is_of_app app_id environment = same_text environment.app_id app_id

abbrev pub is_named : Text → EnvironmentV1 → Bool
is_named name environment = same_text environment.name name

abbrev pub list_environments : Dict EnvironmentV1 → Text → List EnvironmentV1
list_environments environments app_id = filter (is_of_app app_id) (values environments)

abbrev pub list_environments_for_apps : Dict EnvironmentV1 → List Text → List EnvironmentV1
list_environments_for_apps environments app_ids =
    filter (λ e. any (same_text e.app_id) app_ids) (values environments)

-- `environments.find`
unfoldable pub find_named : Text → List EnvironmentV1 → Option EnvironmentV1
find_named name [] = none
find_named name (environment ∷ environments) =
    let rest = find_named name environments in
    if is_named name environment then some environment else rest

-- The returns of `resolveEnvironment`: what was found, whether the app is full, and what would be created.
abbrev pub resolved :
    Option EnvironmentV1
    → Bool
    → Dict EnvironmentV1
    → EnvironmentV1 × Dict EnvironmentV1
    → Option EnvironmentV1 × Dict EnvironmentV1
resolved (some existing) full environments created = (some existing, environments)
resolved none true environments created = (none, environments)
resolved none false environments (environment, after) = (some environment, after)

-- `resolveEnvironment` after its `await`, with the list that it read before.
abbrev pub resolve_listed :
    List EnvironmentV1
    → Dict EnvironmentV1
    → (app_id name : Text) (now : ℕ) (id : Text) → Option EnvironmentV1 × Dict EnvironmentV1
resolve_listed listed environments app_id name now id =
    resolved (find_named name listed) (leb max_environments_per_app (length listed)) environments
      (create_environment environments app_id name now id)

-- `resolveEnvironment` where nothing else runs while it awaits the list. Interleaving has the others.
unfoldable pub resolve_environment :
    Dict EnvironmentV1
    → (app_id name : Text) (now : ℕ) (id : Text) → Option EnvironmentV1 × Dict EnvironmentV1
resolve_environment environments app_id name now id =
    resolve_listed (list_environments environments app_id) environments app_id name now id

-- An environment with its first key, `none` where it is refused. The code awaits between the two, but
-- it has tested and added the environment by then.
unfoldable pub create_environment_key :
    (hash : Text → Text)
    → Dict EnvironmentV1
    → KeyStore
    → (app_id name : Text) (now : ℕ) (id raw_key key_id : Text)
    → Option (EnvironmentV1 × KeyRecordV1) × Dict EnvironmentV1 × KeyStore
unfolding create_environment
create_environment_key hash environments keys app_id name now id raw_key key_id =
    let here = list_environments environments app_id in
    let (environment, after) = create_environment environments app_id name now id in
    if leb max_environments_per_app (length here) || any (is_named name) here
    then (none, environments, keys)
    else (
      some (environment, new_key hash app_id (some environment.id) now raw_key key_id),
      after,
      create_key hash keys app_id (some environment.id) now raw_key key_id,
    )
