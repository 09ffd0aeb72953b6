-- ===== src/Worker/Memory/PublicKeys.antt =====
-- The repository of browser keys, and the quota of each.
pub mod Quota
mod Tests
use app_health.Prelude.{
  ℕ, ◌+◌, Bool, true, false, not, ◌&&◌, List, [], ◌∷◌, ◌++◌, Option, none, some, ◌>>=◌, or_else,
  is_some, leb, ltb, if◌then◌else◌, filter, map, length, get_elem?, update,
}
use app_health.Js.Strings.{Text, same_text, join}
use app_health.Js.Numbers.Decimal.{decimal}
use app_health.Js.Maps.{Dict, get, set, values}
use app_health.Js.Sorting.{sort_by}

pub record PublicLogKeyV1 : Type 0 where
  pub id : Text
  pub app_id : Text
  pub environment_id : Text
  pub allowed_origins : List Text
  pub created_at : ℕ
  pub revoked_at : Option ℕ

-- As for the ingest keys, both maps hold addresses of the same objects.
pub record PublicKeyStore : Type 0 where
  pub objects : List PublicLogKeyV1
  pub by_id : Dict ℕ
  pub by_verifier : Dict ℕ
  pub quota : Dict ℕ

abbrev pub new_public_key :
    (app_id env_id : Text) → List Text → (now : ℕ) (id : Text) → PublicLogKeyV1
new_public_key app_id env_id allowed_origins now id = record {
  id = id;
  app_id = app_id;
  environment_id = env_id;
  allowed_origins = allowed_origins;
  created_at = now;
  revoked_at = none;
}

unfoldable pub create_public_key :
    (hash : Text → Text)
    → PublicKeyStore
    → (app_id env_id : Text) → List Text
    → (now : ℕ) (raw_key id : Text) → PublicKeyStore
create_public_key hash store app_id env_id allowed_origins now raw_key id =
    let address = length store.objects in
    record store {
      objects = store.objects ++ new_public_key app_id env_id allowed_origins now id ∷ [];
      by_id = set id address store.by_id;
      by_verifier = set (hash raw_key) address store.by_verifier;
    }

abbrev pub is_valid : PublicLogKeyV1 → Bool
is_valid key = not (is_some key.revoked_at)

unfoldable pub find_public_key : PublicKeyStore → Text → Option PublicLogKeyV1
find_public_key store verifier =
    get verifier store.by_verifier >>= λ address. get_elem? store.objects address

unfoldable pub verify_public_key :
    (hash : Text → Text) → PublicKeyStore → (raw_key : Text) → Option PublicLogKeyV1
unfolding find_public_key
verify_public_key hash store raw_key =
    find_public_key store (hash raw_key) >>= λ found. (if is_valid found then some found else none)

unfoldable pub get_public_key : PublicKeyStore → Text → Option PublicLogKeyV1
get_public_key store key_id = get key_id store.by_id >>= λ address. get_elem? store.objects address

-- The objects at the addresses.
unfoldable pub objects_at : List PublicLogKeyV1 → List ℕ → List PublicLogKeyV1
objects_at objects [] = []
objects_at objects (address ∷ addresses) =
    let rest = objects_at objects addresses in
    elim (get_elem? objects address) [ none ↦ rest | some key ↦ key ∷ rest ]

-- `right.created_at - left.created_at <= 0`
abbrev pub no_older_key : PublicLogKeyV1 → PublicLogKeyV1 → Bool
no_older_key left right = leb right.created_at left.created_at

unfoldable pub list_public_keys : PublicKeyStore → Text → List PublicLogKeyV1
unfolding objects_at
list_public_keys store app_id =
    sort_by no_older_key
      (filter (λ key. same_text key.app_id app_id) (objects_at store.objects (values store.by_id)))

abbrev pub revoke_object : ℕ → PublicLogKeyV1 → PublicLogKeyV1
revoke_object now key = record key { revoked_at = some now }

-- The address and the object that `publicKeysById.get` finds.
unfoldable pub find_revocable : PublicKeyStore → Text → Option ℕ
find_revocable store key_id = do
  address ← get key_id store.by_id
  found ← get_elem? store.objects address
  if is_valid found then some address else none

abbrev pub revoked_store : PublicKeyStore → ℕ → Option ℕ → Bool × PublicKeyStore
revoked_store store now none = (false, store)
revoked_store store now (some address) =
    (true, record store { objects = update address (revoke_object now) store.objects })

unfoldable pub revoke_public_key :
    PublicKeyStore → (key_id : Text) (now : ℕ) → Bool × PublicKeyStore
unfolding find_revocable
revoke_public_key store key_id now = revoked_store store now (find_revocable store key_id)

-- `${keyId}|${windowStart}`
unfoldable pub quota_key : Text → ℕ → Text
quota_key key_id window_start = join b'|' (key_id ∷ decimal window_start ∷ [])

unfoldable pub consume_browser_quota :
    PublicKeyStore → (key_id : Text) (window_start amount : ℕ) → ℕ × PublicKeyStore
consume_browser_quota store key_id window_start amount =
    let bucket = quota_key key_id window_start in
    let total = or_else (get bucket store.quota) 0 + amount in
    (total, record store { quota = set bucket total store.quota })
