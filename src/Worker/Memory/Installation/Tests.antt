-- ===== src/Worker/Memory/Installation/Tests.antt =====
-- A key, an ingest, and the status ten and twenty minutes later.
use app_health.Prelude.{ℕ, ◌≡◌, refl, [], ◌∷◌, none, some}
use app_health.Js.Strings.{Text, codes, join}
use app_health.Js.Maps.{get, set}
use app_health.Worker.Memory.{scope_key}
use app_health.Worker.Memory.Keys.{
  KeyStore, no_keys, add_key, create_key, find_active, get_active_key_for_environment, revoke_key,
}
use app_health.Worker.Memory.Installation.{
  InstallationStatusV1, node, revoked, waiting, record_ingest, ingested, is_revoked,
  connected_status, get_status,
}
use app_health.Worker.Memory.Installation.Status.{get_status-record_ingest}

abbrev plain : Text → Text
plain raw_key = b'h' ∷ raw_key

abbrev shop : Text
shop = codes "shop"

abbrev live : Text
live = codes "live"

abbrev keys : KeyStore
keys = create_key plain no_keys shop (some live) 10 (codes "ahk_1") (codes "k1")

installation : Unit {0}
unfolding join get set scope_key add_key create_key find_active get_active_key_for_environment
    revoke_key record_ingest is_revoked get_status
installation = tt

abbrev state_of : KeyStore → ℕ → InstallationStatusV1
state_of keys' now = get_status keys' (record_ingest [] shop live node 1000) shop live now

state-revoked : (state_of (revoke_key keys (codes "k1") 20) 1000).state ≡ revoked
unfolding installation
state-revoked = refl

state-waiting : (get_status keys [] shop live 1000).state ≡ waiting
unfolding installation
state-waiting = refl

get_status-record_ingest_example :
    state_of keys 601000 ≡ connected_status (ingested none shop live node 1000)
unfolding installation
get_status-record_ingest_example =
    get_status-record_ingest plain no_keys [] shop live 10 (codes "ahk_1") (codes "k1") node 1000
      601000 refl
