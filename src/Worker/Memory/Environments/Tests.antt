-- ===== src/Worker/Memory/Environments/Tests.antt =====
-- An app with one environment, resolved twice.
use app_health.Prelude.{◌≡◌, refl, true, List, [], ◌∷◌, some, length}
use app_health.Js.Strings.{Text, codes}
use app_health.Js.Maps.{get, set}
use app_health.Worker.Memory.Keys.{no_keys, add_key, create_key}
use app_health.Worker.Memory.Environments.{
  EnvironmentV1, new_environment, create_environment, list_environments, find_named,
  resolve_environment, create_environment_key,
}
use app_health.Worker.Memory.Environments.Interleaving.{
  EnvironmentState, EnvironmentCall, start_resolve, resume_resolve, create_with_key,
  call_environments, call_all_environments,
}
use app_health.Worker.Memory.Environments.Limits.{is_orderly, environments_limited}
use app_health.Worker.Memory.Environments.Racing.{overlapping_resolves_repeat}
use app_health.Worker.Memory.Environments.Resolving.{resolve_environment_twice}

abbrev plain : Text → Text
plain raw_key = b'h' ∷ raw_key

abbrev shop : Text
shop = codes "shop"

abbrev empty : EnvironmentState
empty = record { environments = []; keys = no_keys; reads = [] }

abbrev calls : List EnvironmentCall
calls =
    start_resolve shop (codes "live") 10
    ∷ start_resolve (codes "blog") (codes "live") 10
    ∷ resume_resolve (codes "env-1")
    ∷ resume_resolve (codes "env-4")
    ∷ create_with_key shop (codes "live") 20 (codes "env-2") (codes "ahk_1") (codes "key-1")
    ∷ create_with_key shop (codes "test") 30 (codes "env-3") (codes "ahk_2") (codes "key-2")
    ∷ []

environments : Unit {0}
unfolding get set add_key create_key create_environment find_named resolve_environment
    create_environment_key call_environments call_all_environments is_orderly
environments = tt

two_of_three :
    length (list_environments (call_all_environments plain empty calls).environments shop) ≡ 2
unfolding environments
two_of_three = refl

environments_limited_example :
    is_orderly shop (call_all_environments plain empty calls).environments ≡ true
unfolding environments
environments_limited_example = environments_limited plain no_keys calls shop refl refl

overlapping_resolves_repeat_example :
    list_environments
      (call_all_environments plain empty (
        start_resolve shop (codes "live") 10
        ∷ start_resolve shop (codes "live") 11
        ∷ resume_resolve (codes "env-1")
        ∷ resume_resolve (codes "env-2")
        ∷ [])).environments
      shop
    ≡ new_environment (codes "env-1") shop (codes "live") 10
      ∷ new_environment (codes "env-2") shop (codes "live") 11
      ∷ []
unfolding environments
overlapping_resolves_repeat_example =
    overlapping_resolves_repeat plain no_keys [] shop (codes "live") 10 11 (codes "env-1")
      (codes "env-2") refl refl refl refl refl

abbrev live : EnvironmentV1
live = new_environment (codes "env-1") shop (codes "live") 10

resolved_twice :
    resolve_environment
      (resolve_environment [] shop (codes "live") 10 (codes "env-1")).1
      shop
      (codes "live")
      99
      (codes "env-9")
    ≡ (some live, (resolve_environment [] shop (codes "live") 10 (codes "env-1")).1)
unfolding environments
resolved_twice =
    resolve_environment_twice [] shop (codes "live") 10 (codes "env-1") live 99 (codes "env-9") refl
      refl
