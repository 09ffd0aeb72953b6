-- ===== src/Worker/Access.antt =====
-- apps/worker/src/access-policy.ts: who may call which route.
mod Patterns
pub mod Policy
mod Tests
use app_health.Prelude.{
  Bool, true, false, not, ◌&&◌, ◌||◌, List, [], ◌∷◌, Option, none, some, ◌==◌, if◌then◌else◌,
  length, any,
}
use app_health.Worker.Access.Patterns.{Part, word, one_of, id36, some_text, path_fits}
use app_health.Js.Strings.{Text, codes, same_text}

pub data Method : Type 0 where
  get_method post put delete other_method : Method

pub data WorkspaceRole : Type 0 where
  owner editor viewer : WorkspaceRole

pub record ApiScope : Type 0 where
  pub app_id : Text
  pub environment_id : Text

-- A session of a member, or a token with its permission and scopes. A session without a role counts
-- as an owner's.
pub record OwnerIdentity : Type 0 where
  pub workspace_id : Option Text
  pub is_api_token : Bool
  pub workspace_role : WorkspaceRole
  pub manages : Bool
  pub api_scopes : List ApiScope

-- Of a request, what the platform's `URL` and `Headers` tell: the path, the header
-- `x-app-health-workspace`, and all values of the two parameters.
pub record Request : Type 0 where
  pub method : Method
  pub path : Text
  pub selected : Option Text
  pub app_ids : List Text
  pub environment_ids : List Text

abbrev pub is_get : Method → Bool
is_get get_method = true
is_get _ = false

abbrev pub is_post : Method → Bool
is_post post = true
is_post _ = false

-- `['POST', 'PUT', 'DELETE'].includes(method)`
abbrev pub is_write : Method → Bool
is_write post = true
is_write put = true
is_write delete = true
is_write _ = false

abbrev pub data_reads : List Text
data_reads =
    codes "/v1/apps"
    ∷ codes "/v1/analytics"
    ∷ codes "/v1/analytics/live"
    ∷ codes "/v1/analytics/report"
    ∷ codes "/v1/analytics/traffic-quality"
    ∷ codes "/v1/analytics/conversions"
    ∷ codes "/v1/analytics/revenue"
    ∷ codes "/v1/analytics/provider-revenue"
    ∷ codes "/v1/analytics/definitions"
    ∷ codes "/v1/endpoints"
    ∷ codes "/v1/failures"
    ∷ codes "/v1/installation/status"
    ∷ codes "/v1/workspace/health"
    ∷ codes "/v1/reports/speed"
    ∷ codes "/v1/reports/daily-engagement"
    ∷ codes "/v1/reports/portfolio-briefing"
    ∷ codes "/v1/workspace/alerts"
    ∷ codes "/v1/capabilities"
    ∷ []

abbrev pub token_reads : List Text
token_reads =
    codes "/v1/apps"
    ∷ codes "/v1/analytics/report"
    ∷ codes "/v1/analytics/traffic-quality"
    ∷ codes "/v1/analytics/conversions"
    ∷ codes "/v1/analytics/revenue"
    ∷ codes "/v1/analytics/provider-revenue"
    ∷ codes "/v1/analytics/definitions"
    ∷ codes "/v1/reports/daily-engagement"
    ∷ codes "/v1/endpoints"
    ∷ codes "/v1/failures"
    ∷ codes "/v1/installation/status"
    ∷ codes "/v1/integration/skill"
    ∷ []

-- `has` and `includes`
unfoldable pub includes : List Text → Text → Bool
includes paths path = any (same_text path) paths

unfoldable pub is_definition_path : Text → Bool
unfolding path_fits
is_definition_path path =
    path_fits (word (codes "analytics") ∷ word (codes "definitions") ∷ []) path
    || path_fits (word (codes "analytics") ∷ word (codes "definitions") ∷ id36 ∷ []) path

abbrev pub is_own_scope : List Text → List Text → ApiScope → Bool
is_own_scope (app_id ∷ apps) (environment_id ∷ environments) scope =
    same_text scope.app_id app_id && same_text scope.environment_id environment_id
is_own_scope _ _ scope = false

abbrev pub same_workspace : Text → Option Text → Bool
same_workspace selected none = false
same_workspace selected (some id) = same_text selected id

-- `selected && selected !== owner.workspaceId`
abbrev pub is_other_workspace : Option Text → Option Text → Bool
is_other_workspace none id = false
is_other_workspace (some []) id = false
is_other_workspace (some (c ∷ cs)) id = not (same_workspace (c ∷ cs) id)

-- The two paths that a token reaches without a scope.
abbrev pub is_unscoped : Text → Bool
is_unscoped path =
    same_text path (codes "/v1/apps") || same_text path (codes "/v1/integration/skill")

unfoldable pub token_route_allowed : Request → OwnerIdentity → Bool
unfolding includes is_definition_path
token_route_allowed request identity =
    let read = is_get request.method && includes token_reads request.path in
    let write = identity.manages && is_definition_path request.path && is_write request.method in
    if is_other_workspace request.selected identity.workspace_id
    then false
    else if not read && not write
    then false
    else if is_unscoped request.path
    then true
    else if not (length request.app_ids == 1) || not (length request.environment_ids == 1)
    then false
    else any (is_own_scope request.app_ids request.environment_ids) identity.api_scopes

unfoldable pub editor_read_allowed : Text → Bool
unfolding includes path_fits
editor_read_allowed path =
    includes data_reads path
    || path_fits (one_of (codes "payment-connections" ∷ codes "payment-imports" ∷ []) ∷ id36 ∷ [])
        path
    || path_fits
        (one_of (codes "payment-connections" ∷ codes "payment-imports" ∷ [])
          ∷ id36
          ∷ word (codes "jobs")
          ∷ [])
        path
    || includes
        (codes "/v1/logs"
          ∷ codes "/v1/logs/cache-summary"
          ∷ codes "/v1/public-keys"
          ∷ codes "/v1/native-keys"
          ∷ codes "/v1/analytics/shares"
          ∷ codes "/v1/payment-connections"
          ∷ codes "/v1/capabilities/ledger"
          ∷ [])
        path

abbrev pub connection_actions : List Text
connection_actions =
    codes "credentials"
    ∷ codes "verify"
    ∷ codes "routing"
    ∷ codes "imports"
    ∷ codes "reconcile"
    ∷ codes "fixture-webhook"
    ∷ []

unfoldable pub is_provider_path : Text → Bool
unfolding path_fits
is_provider_path path =
    path_fits (word (codes "payment-connections") ∷ []) path
    || path_fits (word (codes "payment-connections") ∷ id36 ∷ []) path
    || path_fits (word (codes "payment-connections") ∷ id36 ∷ one_of connection_actions ∷ []) path
    || path_fits
        (word (codes "payment-imports") ∷ id36 ∷ one_of (codes "resume" ∷ codes "cancel" ∷ []) ∷ [])
        path

abbrev pub environments_of : List Part → List Part
environments_of parts = word (codes "apps") ∷ some_text ∷ word (codes "environments") ∷ parts

unfoldable pub is_environment_path : Method → Text → Bool
unfolding path_fits
is_environment_path method path =
    (is_post method && path_fits (environments_of (some_text ∷ word (codes "keys") ∷ [])) path)
    || path_fits (environments_of []) path
    || path_fits (environments_of (some_text ∷ [])) path
    || path_fits (environments_of (some_text ∷ word (codes "revoke") ∷ [])) path

unfoldable pub editor_write_allowed : Method → Text → Bool
unfolding includes path_fits is_definition_path is_provider_path is_environment_path
editor_write_allowed method path =
    is_definition_path path
    || is_provider_path path
    || is_environment_path method path
    || includes
        (codes "/v1/apps"
          ∷ codes "/v1/capabilities"
          ∷ codes "/v1/public-keys"
          ∷ codes "/v1/native-keys"
          ∷ codes "/v1/analytics/shares"
          ∷ [])
        path
    || path_fits
        (one_of (codes "public-keys" ∷ codes "native-keys" ∷ [])
          ∷ some_text
          ∷ word (codes "revoke")
          ∷ [])
        path

unfoldable pub editor_route_allowed : Request → Bool
unfolding editor_read_allowed editor_write_allowed
editor_route_allowed request =
    if is_get request.method
    then editor_read_allowed request.path
    else editor_write_allowed request.method request.path

abbrev pub role_allowed : WorkspaceRole → Request → Bool
role_allowed viewer request = is_get request.method && includes data_reads request.path
role_allowed editor request = editor_route_allowed request
role_allowed owner request = true

unfoldable pub owner_route_allowed : Request → OwnerIdentity → Bool
unfolding includes token_route_allowed editor_route_allowed
owner_route_allowed request identity =
    if identity.is_api_token
    then token_route_allowed request identity
    else role_allowed identity.workspace_role request
