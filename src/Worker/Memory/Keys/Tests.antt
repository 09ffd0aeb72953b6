-- ===== src/Worker/Memory/Keys/Tests.antt =====
-- Two keys of one environment, the second by rotation, with a hash that reverses nothing.
use app_health.Prelude.{◌≡◌, refl, List, [], ◌∷◌, none, some}
use app_health.Js.Strings.{Text, codes}
use app_health.Js.Maps.{get, set}
use app_health.Worker.Memory.Keys.{
  KeyRecordV1, KeyStore, KeyCall, create, rotate, revoke, no_keys, add_key, new_key, create_key,
  is_superseded, revoke_all, rotate_environment_key, find_key, verify_key, revoke_key, call_keys,
  call_all_keys, get_active_key_for_environment, find_active,
}
use app_health.Worker.Memory.Keys.Revoking.{verify_key-create_key, revoked_forever}
use app_health.Worker.Memory.Keys.Rotating.{rotate_environment_key_exclusive}

-- A stand-in for SHA-256.
abbrev plain : Text → Text
plain raw_key = b'h' ∷ raw_key

abbrev shop : Text
shop = codes "shop"

abbrev live : Text
live = codes "live"

abbrev first : Text
first = codes "ahk_1"

abbrev second : Text
second = codes "ahk_2"

abbrev issued : List KeyCall
issued = create shop (some live) 10 first (codes "k1") ∷ []

keys : Unit {0}
unfolding get set add_key create_key is_superseded revoke_all rotate_environment_key find_key
    verify_key revoke_key call_keys call_all_keys get_active_key_for_environment find_active
keys = tt

abbrev rotated : KeyStore
rotated =
    call_all_keys plain no_keys
      (create shop (some live) 10 first (codes "k1") ∷ rotate shop live 20 second (codes "k2") ∷ [])

abbrev old_key : KeyRecordV1
old_key = record (new_key plain shop (some live) 10 first (codes "k1")) { revoked_at = some 20 }

get_active_key_for_environment-rotated :
    get_active_key_for_environment rotated shop live
    ≡ some (new_key plain shop (some live) 20 second (codes "k2"))
unfolding keys
get_active_key_for_environment-rotated = refl

verify_key-create_key_example :
    verify_key plain (create_key plain no_keys shop (some live) 10 first (codes "k1")) first
    ≡ some (new_key plain shop (some live) 10 first (codes "k1"))
verify_key-create_key_example =
    verify_key-create_key plain no_keys shop (some live) 10 first (codes "k1")

abbrev new_one : KeyRecordV1
new_one = new_key plain shop (some live) 20 second (codes "k2")

rotate_environment_key_exclusive_example :
    (plain second ≡ plain second)
    × (new_one ≡ new_key plain shop (some live) 20 second (codes "k2"))
unfolding keys
rotate_environment_key_exclusive_example =
    rotate_environment_key_exclusive plain issued shop live 20 second (codes "k2") second new_one
      refl refl refl refl refl

still_revoked :
    verify_key plain (call_all_keys plain rotated (revoke (codes "k2") 30 ∷ [])) first ≡ none
unfolding keys
still_revoked =
    revoked_forever plain rotated (revoke (codes "k2") 30 ∷ []) first old_key refl refl refl
