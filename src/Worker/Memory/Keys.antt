-- ===== src/Worker/Memory/Keys.antt =====
-- The key repository: ingest keys by id and by the hash of the raw key. Both maps hold the same
-- object, so a change through one shows through the other: the objects stand in a heap, and the
-- maps hold their addresses.
pub mod Objects
pub mod Revoking
pub mod Consistency
pub mod Rotating
mod Tests
use app_health.Prelude.{
  ℕ, Bool, true, false, not, ◌&&◌, List, [], ◌∷◌, ◌++◌, Option, none, some, ◌>>=◌, is_some,
  if◌then◌else◌, length, get_elem?, update,
}
use app_health.Js.Strings.{Text, same_text}
use app_health.Js.Maps.{Dict, get, set, values}

pub record KeyRecordV1 : Type 0 where
  pub id : Text
  pub app_id : Text
  pub environment_id : Option Text
  pub verifier_hash : Text
  pub created_at : ℕ
  pub revoked_at : Option ℕ

pub record KeyStore : Type 0 where
  pub objects : List KeyRecordV1
  pub by_id : Dict ℕ
  pub by_verifier : Dict ℕ

abbrev pub no_keys : KeyStore
no_keys = record { objects = []; by_id = []; by_verifier = [] }

-- What `createKey` and `createProductKey` do with a record.
unfoldable pub add_key : KeyStore → KeyRecordV1 → KeyStore
add_key store key =
    let address = length store.objects in
    record {
      objects = store.objects ++ key ∷ [];
      by_id = set key.id address store.by_id;
      by_verifier = set key.verifier_hash address store.by_verifier;
    }

-- `createKey` for an environment, `createProductKey` for none. `raw_key` and `id` are what the
-- generators give, `hash` is `hashKey`.
abbrev pub new_key :
    (hash : Text → Text) (app_id : Text) → Option Text → (now : ℕ) (raw_key id : Text) → KeyRecordV1
new_key hash app_id environment_id now raw_key id = record {
  id = id;
  app_id = app_id;
  environment_id = environment_id;
  verifier_hash = hash raw_key;
  created_at = now;
  revoked_at = none;
}

unfoldable pub create_key :
    (hash : Text → Text)
    → KeyStore
    → (app_id : Text) → Option Text
    → (now : ℕ) (raw_key id : Text) → KeyStore
create_key hash store app_id environment_id now raw_key id =
    add_key store (new_key hash app_id environment_id now raw_key id)

abbrev pub same_environment : Option Text → Option Text → Bool
same_environment none none = true
same_environment (some a) (some b) = same_text a b
same_environment _ _ = false

abbrev pub is_active : KeyRecordV1 → Bool
is_active key = not (is_some key.revoked_at)

abbrev pub revoke_at : ℕ → KeyRecordV1 → KeyRecordV1
revoke_at now key = record key { revoked_at = some now }

-- The test of `rotateEnvironmentKey`.
unfoldable pub is_superseded : (app_id env_id id : Text) → KeyRecordV1 → Bool
is_superseded app_id env_id id key =
    same_text key.app_id app_id
    && same_environment key.environment_id (some env_id)
    && not (same_text key.id id)
    && is_active key

abbrev pub revoke_superseded : (app_id env_id id : Text) (now : ℕ) → KeyRecordV1 → KeyRecordV1
revoke_superseded app_id env_id id now key =
    if is_superseded app_id env_id id key then revoke_at now key else key

-- The loop over `keysById.values()`.
unfoldable pub revoke_all :
    (KeyRecordV1 → KeyRecordV1) → List ℕ → List KeyRecordV1 → List KeyRecordV1
revoke_all f [] objects = objects
revoke_all f (address ∷ addresses) objects = revoke_all f addresses (update address f objects)

unfoldable pub rotate_environment_key :
    (hash : Text → Text)
    → KeyStore
    → (app_id env_id : Text) (now : ℕ) (raw_key id : Text) → KeyStore
unfolding revoke_all
rotate_environment_key hash store app_id env_id now raw_key id =
    let created = create_key hash store app_id (some env_id) now raw_key id in
    record created {
      objects =
          revoke_all (revoke_superseded app_id env_id id now) (values created.by_id)
            created.objects;
    }

-- `keysByVerifier.get`
unfoldable pub find_key : KeyStore → Text → Option KeyRecordV1
find_key store verifier =
    get verifier store.by_verifier >>= λ address. get_elem? store.objects address

unfoldable pub verify_key : (hash : Text → Text) → KeyStore → (raw_key : Text) → Option KeyRecordV1
unfolding find_key
verify_key hash store raw_key =
    find_key store (hash raw_key) >>= λ found. (if is_active found then some found else none)

-- The assignment to the object that `keysById.get` finds.
abbrev pub revoke_found : KeyStore → ℕ → Option ℕ → KeyStore
revoke_found store now none = store
revoke_found store now (some address) = record store {
  objects = update address (revoke_at now) store.objects;
}

unfoldable pub revoke_key : KeyStore → (id : Text) (now : ℕ) → KeyStore
revoke_key store id now = revoke_found store now (get id store.by_id)

-- The first test of the loop of `getActiveKeyForEnvironment`, for the environment or for none.
abbrev pub is_active_for : (app_id : Text) → Option Text → Option KeyRecordV1 → Bool
is_active_for app_id environment_id none = false
is_active_for app_id environment_id (some key) =
    same_text key.app_id app_id
    && same_environment key.environment_id environment_id
    && is_active key

-- The loop, with the product key found so far.
unfoldable pub find_active :
    KeyStore → (app_id env_id : Text) → Option KeyRecordV1 → List ℕ → Option KeyRecordV1
find_active store app_id env_id product_key [] = product_key
find_active store app_id env_id product_key (address ∷ addresses) =
    let key = get_elem? store.objects address in
    let product_key' = if is_active_for app_id none key then key else product_key in
    let rest = find_active store app_id env_id product_key' addresses in
    if is_active_for app_id (some env_id) key then key else rest

unfoldable pub get_active_key_for_environment :
    KeyStore → (app_id env_id : Text) → Option KeyRecordV1
unfolding find_active
get_active_key_for_environment store app_id env_id =
    find_active store app_id env_id none (values store.by_id)

-- What changes the keys.
pub data KeyCall : Type 0 where
  create : (app_id : Text) → Option Text → (now : ℕ) (raw_key id : Text) → KeyCall
  rotate : (app_id env_id : Text) (now : ℕ) (raw_key id : Text) → KeyCall
  revoke : (id : Text) (now : ℕ) → KeyCall

unfoldable pub call_keys : (hash : Text → Text) → KeyStore → KeyCall → KeyStore
call_keys hash store (create app_id environment_id now raw_key id) =
    create_key hash store app_id environment_id now raw_key id
call_keys hash store (rotate app_id env_id now raw_key id) =
    rotate_environment_key hash store app_id env_id now raw_key id
call_keys hash store (revoke id now) = revoke_key store id now

unfoldable pub call_all_keys : (hash : Text → Text) → KeyStore → List KeyCall → KeyStore
unfolding call_keys
call_all_keys hash store [] = store
call_all_keys hash store (call ∷ calls) = call_all_keys hash (call_keys hash store call) calls
