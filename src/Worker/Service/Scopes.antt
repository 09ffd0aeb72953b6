-- ===== src/Worker/Service/Scopes.antt =====
-- That a key and an environment's name lead to one scope.
use app_health.Prelude.{
  ℕ, ◌≡◌, refl, sym, ap, ◌∙◌, subst, Option, none, some, arith, Bool-cases, inl, inr,
}
use app_health.Js.Strings.{Text}
use app_health.Js.Maps.{Dict, get}
use app_health.Worker.Memory.Keys.{KeyRecordV1}
use app_health.Worker.Memory.Environments.{EnvironmentV1, resolve_environment}
use app_health.Worker.Memory.Environments.Resolving.{resolve_environment_twice}
use app_health.Worker.Service.{
  ResolvedScope, ScopeResolution, resolved_to, is_blank, resolve_named, resolve_key, resolve_scope,
}

resolve_named_inv :
    (key : KeyRecordV1) (o : Option EnvironmentV1) (scope : ResolvedScope)
    → resolve_named key o ≡ resolved_to scope
    → (e : EnvironmentV1) × (o ≡ some e)
resolve_named_inv key none scope h = ground arith
resolve_named_inv key (some e) scope h = (e, refl)

resolve_key_again :
    (environments after : Dict EnvironmentV1) (key : KeyRecordV1) (env_id requested : Option Text)
    (now later : ℕ) (new_id other_id : Text) (scope : ResolvedScope)
    → get new_id environments ≡ none
    → resolve_key environments key env_id requested now new_id ≡ (resolved_to scope, after)
    → resolve_key after key env_id requested later other_id ≡ (resolved_to scope, after)
resolve_key_again environments after key (some env_id) requested now later new_id other_id scope
      fresh h =
    let same : environments ≡ after = ap (λ p. p.1) h in
    let own = ap (λ p. p.0) h in
    subst
      (λ (E : Dict EnvironmentV1).
        resolve_key E key (some env_id) requested later other_id ≡ (resolved_to scope, E))
      same (ap (λ (r : ScopeResolution). (r, environments)) own)
resolve_key_again environments after key none none now later new_id other_id scope fresh h =
    let impossible = ap (λ p. p.0) h in ground arith
resolve_key_again environments after key none (some requested) now later new_id other_id scope fresh
      h =
    elim (Bool-cases (is_blank requested)) [
      | inl blank ↦ let impossible = ap (λ p. p.0) (rw blank at h) in ground arith
      | inr named ↦
          let first = resolve_environment environments key.app_id requested now new_id in
          let named_scope : resolve_named key first.0 ≡ resolved_to scope =
            ap (λ p. p.0) (rw named at h) in
          let same : first.1 ≡ after = ap (λ p. p.1) (rw named at h) in
          let (e, found) = resolve_named_inv key first.0 scope named_scope in
          let again =
            resolve_environment_twice environments key.app_id requested now new_id e later other_id
              fresh found in
          let again' =
            subst
              (λ (E : Dict EnvironmentV1).
                resolve_environment E key.app_id requested later other_id ≡ (some e, E))
              same again in
          let its : resolve_named key (some e) ≡ resolved_to scope =
            sym (ap (resolve_named key) found) ∙ named_scope in
          rw (named, again') (ap (λ (r : ScopeResolution). (r, after)) its)
    ]

-- A scope that was resolved for a key and a name is resolved again at any later time, and nothing is
-- created then.
pub resolve_scope_again :
    (environments after : Dict EnvironmentV1) (key : KeyRecordV1) (requested : Option Text)
    (now later : ℕ) (new_id other_id : Text) (scope : ResolvedScope)
    → get new_id environments ≡ none
    → resolve_scope environments key requested now new_id ≡ (resolved_to scope, after)
    → resolve_scope after key requested later other_id ≡ (resolved_to scope, after)
unfolding resolve_scope
resolve_scope_again environments after key requested now later new_id other_id scope fresh h =
    resolve_key_again environments after key key.environment_id requested now later new_id other_id
      scope fresh h
