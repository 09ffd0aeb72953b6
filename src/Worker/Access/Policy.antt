-- ===== src/Worker/Access/Policy.antt =====
-- That roles nest, and that a token stays within its scopes.
use app_health.Prelude.{
  ◌≡◌, refl, sym, ap, ◌⊎◌, List, [], ◌∷◌, Bool, true, false, not, ◌&&◌, ◌||◌, ◌==◌, if◌then◌else◌,
  length, any, arith, Bool-cases, inl, inr, and_parts, or_parts, not-false,
}
use app_health.Js.Strings.{Text, same_text}
use mathlib.Core.List.{Memᴰ}
use app_health.Js.Strings.Equality.{same_text→eq}
use app_health.Worker.Access.{
  Request, OwnerIdentity, ApiScope, is_get, is_write, includes, data_reads, token_reads,
  is_definition_path, is_own_scope, is_other_workspace, is_unscoped, token_route_allowed,
  editor_read_allowed, editor_route_allowed, role_allowed, viewer, editor,
}

-- What a viewer may call, an editor may call.
pub viewer_within_editor :
    (request : Request) → role_allowed viewer request ≡ true → role_allowed editor request ≡ true
unfolding editor_route_allowed editor_read_allowed
viewer_within_editor request h =
    let (get, reads) = and_parts (is_get request.method) (includes data_reads request.path) h in
    rw (get, reads) refl

passed_over :
    (refuse : Bool) {rest : Bool}
    → (if refuse then false else rest) ≡ true
    → (refuse ≡ false) × (rest ≡ true)
passed_over true h = ground arith
passed_over false h = (refl, h)

-- The guards that an allowed request passed.
token_route_allowed_guards :
    (request : Request) (identity : OwnerIdentity)
    → token_route_allowed request identity ≡ true
    → (is_other_workspace request.selected identity.workspace_id ≡ false)
      × (((is_get request.method && includes token_reads request.path)
            || (identity.manages && is_definition_path request.path && is_write request.method))
          ≡ true)
      × ((is_unscoped request.path
            || (length request.app_ids == 1
                && length request.environment_ids == 1
                && any (is_own_scope request.app_ids request.environment_ids) identity.api_scopes))
          ≡ true)
unfolding token_route_allowed
token_route_allowed_guards request identity h =
    let read = is_get request.method && includes token_reads request.path in
    let write = identity.manages && is_definition_path request.path && is_write request.method in
    let one_app = length request.app_ids == 1 in
    let one_environment = length request.environment_ids == 1 in
    let (home, h1) = passed_over (is_other_workspace request.selected identity.workspace_id) h in
    let (may, h2) = passed_over (not read && not write) h1 in
    (
      home,
      either read write may,
      elim (Bool-cases (is_unscoped request.path)) [
        | inl free ↦ rw free refl
        | inr scoped ↦
            let (one, own) = passed_over (not one_app || not one_environment) (rw scoped at h2) in
            let (a, e) = or_parts (not one_app) (not one_environment) one in
            rw (scoped, not-false one_app a, not-false one_environment e) own
      ],
    )
  where
    either : (r w : Bool) → (not r && not w) ≡ false → (r || w) ≡ true
    either true w k = refl
    either false true k = refl
    either false false k = ground arith

or_cases : (a b : Bool) → (a || b) ≡ true → (a ≡ true) ⊎ (b ≡ true)
or_cases true b h = inl refl
or_cases false b h = inr h

-- What the request names is one app and one environment, those of one of the scopes.
abbrev pub IsInScope : Request → List ApiScope → Type 0
IsInScope request scopes =
    (scope : ApiScope) × Memᴰ scope scopes
    × (request.app_ids ≡ scope.app_id ∷ [])
    × (request.environment_ids ≡ scope.environment_id ∷ [])

one_named :
    (apps environments : List Text) (scope : ApiScope)
    → (length apps == 1) ≡ true
    → (length environments == 1) ≡ true
    → is_own_scope apps environments scope ≡ true
    → (apps ≡ scope.app_id ∷ []) × (environments ≡ scope.environment_id ∷ [])
one_named [] environments scope ha he h = ground arith
one_named (a ∷ b ∷ apps) environments scope ha he h = ground arith
one_named (a ∷ []) [] scope ha he h = ground arith
one_named (a ∷ []) (e ∷ d ∷ environments) scope ha he h = ground arith
one_named (a ∷ []) (e ∷ []) scope ha he h =
    let (app, environment) =
      and_parts (same_text scope.app_id a) (same_text scope.environment_id e) h in
    (
      ap (λ t. t ∷ []) (sym (same_text→eq scope.app_id a app)),
      ap (λ t. t ∷ []) (sym (same_text→eq scope.environment_id e environment)),
    )

any-IsInScope :
    (request : Request) (scopes : List ApiScope)
    → (length request.app_ids == 1) ≡ true
    → (length request.environment_ids == 1) ≡ true
    → any (is_own_scope request.app_ids request.environment_ids) scopes ≡ true
    → IsInScope request scopes
any-IsInScope request [] one_app one_environment h = ground arith
any-IsInScope request (s ∷ ss) one_app one_environment h =
    elim (or_cases (is_own_scope request.app_ids request.environment_ids s)
      (any (is_own_scope request.app_ids request.environment_ids) ss) h) [
        | inl own ↦
            let (app, environment) =
              one_named request.app_ids request.environment_ids s one_app one_environment own in
            (s, Memᴰ.head refl, app, environment)
        | inr rest ↦
            let (scope, in_scopes, app, environment) =
              any-IsInScope request ss one_app one_environment rest in
            (scope, Memᴰ.tail in_scopes, app, environment)
      ]

-- A token may only call, within its workspace, a route that it may read, or a definition if it
-- manages; and but for two routes the request names just one app and one environment, and those are
-- of one of the token's scopes.
pub token_route_allowed_scoped :
    (request : Request) (identity : OwnerIdentity)
    → token_route_allowed request identity ≡ true
    → (is_other_workspace request.selected identity.workspace_id ≡ false)
      × (((is_get request.method && includes token_reads request.path)
            || (identity.manages && is_definition_path request.path && is_write request.method))
          ≡ true)
      × ((is_unscoped request.path ≡ true) ⊎ IsInScope request identity.api_scopes)
token_route_allowed_scoped request identity h =
    let (home, may, scoped) = token_route_allowed_guards request identity h in
    let one_app = length request.app_ids == 1 in
    let one_environment = length request.environment_ids == 1 in
    let own = any (is_own_scope request.app_ids request.environment_ids) identity.api_scopes in
    (
      home,
      may,
      elim (or_cases (is_unscoped request.path) (one_app && one_environment && own) scoped) [
        | inl free ↦ inl free
        | inr named ↦
            let (both, some_own) = and_parts (one_app && one_environment) own named in
            let (a, e) = and_parts one_app one_environment both in
            inr (any-IsInScope request identity.api_scopes a e some_own)
      ],
    )
