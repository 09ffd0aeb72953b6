-- ===== src/Worker/Memory/PublicKeys/Tests.antt =====
-- A browser key that is verified and revoked, and the quota of its minute.
use app_health.Prelude.{ℕ, ◌≤◌, ◌≡◌, refl, false, [], ◌∷◌, none, length}
use app_health.Js.Strings.{Text, codes, join}
use app_health.Js.Numbers.Decimal.{digits, decimal}
use app_health.Js.Maps.{get, set}
use app_health.Js.Sorting.{insert_by, sort_by}
use app_health.Worker.Memory.PublicKeys.{
  PublicKeyStore, create_public_key, find_public_key, verify_public_key, get_public_key, objects_at,
  list_public_keys, find_revocable, revoke_public_key, quota_key, consume_browser_quota,
}
use app_health.Worker.Memory.PublicKeys.Quota.{QuotaRequest, let_in, let_in_bound}

abbrev no_public_keys : PublicKeyStore
no_public_keys = record { objects = []; by_id = []; by_verifier = []; quota = [] }

abbrev plain : Text → Text
plain raw_key = b'h' ∷ raw_key

abbrev store : PublicKeyStore
store =
    create_public_key plain no_public_keys (codes "shop") (codes "live") [] 10 (codes "ahk_pub_1")
      (codes "p1")

abbrev request : ℕ → QuotaRequest
request amount = record { key_id = codes "p1"; window_start = 60000; amount = amount }

abbrev bucket : Text
bucket = quota_key (codes "p1") 60000

public_keys : Unit {0}
unfolding digits decimal join get set insert_by sort_by create_public_key find_public_key
    verify_public_key get_public_key objects_at list_public_keys find_revocable revoke_public_key
    quota_key consume_browser_quota let_in
public_keys = tt

list_public_keys-store : length (list_public_keys store (codes "shop")) ≡ 1
unfolding public_keys
list_public_keys-store = refl

verify_public_key-revoked :
    verify_public_key plain (revoke_public_key store (codes "p1") 20).1 (codes "ahk_pub_1") ≡ none
unfolding public_keys
verify_public_key-revoked = refl

revoke_public_key-again :
    (revoke_public_key (revoke_public_key store (codes "p1") 20).1 (codes "p1") 30).0 ≡ false
unfolding public_keys
revoke_public_key-again = refl

let_in-three : let_in 600 no_public_keys bucket (request 400 ∷ request 300 ∷ request 100 ∷ []) ≡ 400
unfolding public_keys
let_in-three = refl

let_in_bound_example : let_in 600 no_public_keys bucket (request 400 ∷ request 300 ∷ []) ≤ 600
unfolding public_keys
let_in_bound_example = let_in_bound 600 no_public_keys bucket (request 400 ∷ request 300 ∷ [])
