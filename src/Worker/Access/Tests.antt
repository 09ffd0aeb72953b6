-- ===== src/Worker/Access/Tests.antt =====
-- A token of one environment, and a viewer.
use app_health.Prelude.{◌⊎◌, ◌≡◌, refl, true, false, ◌&&◌, ◌||◌, [], ◌∷◌, none, some}
use app_health.Js.Strings.{Text, codes, split}
use app_health.Worker.Access.Patterns.{fits_part, fits, path_fits}
use app_health.Worker.Access.{
  Method, get_method, post, put, Request, OwnerIdentity, owner, editor, includes,
  is_definition_path, is_other_workspace, is_unscoped, token_reads, token_route_allowed,
  editor_read_allowed, is_provider_path, is_environment_path, editor_write_allowed,
  editor_route_allowed, role_allowed, owner_route_allowed,
}
use app_health.Worker.Access.Policy.{IsInScope, token_route_allowed_scoped}

abbrev token : OwnerIdentity
token = record {
  workspace_id = some (codes "w");
  is_api_token = true;
  workspace_role = owner;
  manages = false;
  api_scopes = record { app_id = codes "shop"; environment_id = codes "live" } ∷ [];
}

abbrev request : Method → Text → Request
request method path = record {
  method = method;
  path = path;
  selected = none;
  app_ids = codes "shop" ∷ [];
  environment_ids = codes "live" ∷ [];
}

access : Unit {0}
unfolding split includes fits_part fits path_fits is_definition_path token_route_allowed
    editor_read_allowed is_provider_path is_environment_path editor_write_allowed
    editor_route_allowed owner_route_allowed
access = tt

editor-keys : role_allowed editor (request post (codes "/v1/apps/a/environments/e/keys")) ≡ true
unfolding access
editor-keys = refl

editor-deeper : role_allowed editor (request put (codes "/v1/apps/a/environments/e/keys")) ≡ false
unfolding access
editor-deeper = refl

token-reads : owner_route_allowed (request get_method (codes "/v1/endpoints")) token ≡ true
unfolding access
token-reads = refl

token-writes : owner_route_allowed (request post (codes "/v1/analytics/definitions")) token ≡ false
unfolding access
token-writes = refl

token_route_allowed_scoped_example :
    (is_other_workspace none (some (codes "w")) ≡ false)
    × ((true && includes token_reads (codes "/v1/endpoints") || false) ≡ true)
    × ((is_unscoped (codes "/v1/endpoints") ≡ true)
        ⊎ IsInScope (request get_method (codes "/v1/endpoints")) token.api_scopes)
unfolding access
token_route_allowed_scoped_example =
    token_route_allowed_scoped (request get_method (codes "/v1/endpoints")) token refl
