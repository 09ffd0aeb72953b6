-- ===== src/Worker/Memory/Keys/Revoking.antt =====
-- Which raw keys verify: those that were issued, until they are rotated or revoked.
use app_health.Prelude.{
  ℕ, zero, suc, ◌≡◌, refl, ◌∙◌, Bool, true, false, not, List, [], ◌∷◌, ◌++◌, Option, none, some,
  bound, length, get_elem?, get_elem?-append_last, get_elem?-update_self, get_elem?-update_other,
  update, all, arith, Bool-cases, Option-cases, inl, inr, and_parts, not-true, ◌==◌, ==→eq,
}
use app_health.Js.Strings.{Text, same_text}
use app_health.Js.Maps.{get, values, get-set, get-set_self}
use app_health.Worker.Memory.Keys.{
  KeyRecordV1, KeyStore, KeyCall, create, rotate, revoke, add_key, new_key, create_key, is_active,
  revoke_at, is_superseded, revoke_superseded, revoke_all, rotate_environment_key, find_key,
  verify_key, revoke_key, call_keys, call_all_keys,
}
use app_health.Worker.Memory.Keys.Objects.{revoke_all_dead}

-- A key that was just issued verifies, and gives back its record, whatever keys there were.
pub verify_key-create_key :
    (hash : Text → Text) (store : KeyStore) (app_id : Text) (environment_id : Option Text) (now : ℕ)
    (raw_key id : Text)
    → verify_key hash (create_key hash store app_id environment_id now raw_key id) raw_key
      ≡ some (new_key hash app_id environment_id now raw_key id)
unfolding verify_key find_key create_key add_key
verify_key-create_key hash store app_id environment_id now raw_key id =
    let key = new_key hash app_id environment_id now raw_key id in
    rw
      (
        get-set_self (hash raw_key) (length store.objects) store.by_verifier,
        get_elem?-append_last store.objects key,
      )
      refl

-- The raw key that hashes to the verifier was issued and is revoked.
pub data IsDead (store : KeyStore) (verifier : Text) : Type 0 where
  dead :
      (a : ℕ) (key : KeyRecordV1)
      → get verifier store.by_verifier ≡ some a
      → get_elem? store.objects a ≡ some key
      → is_active key ≡ false
      → IsDead store verifier

-- The call issues no key with this hash.
abbrev pub avoids : (hash : Text → Text) (verifier : Text) → KeyCall → Bool
avoids hash verifier (create app_id environment_id now raw_key id) =
    not (same_text verifier (hash raw_key))
avoids hash verifier (rotate app_id env_id now raw_key id) = not (same_text verifier (hash raw_key))
avoids hash verifier (revoke id now) = true

found-append :
    (xs ys : List KeyRecordV1) (i : ℕ) (x : KeyRecordV1)
    → get_elem? xs i ≡ some x
    → get_elem? (xs ++ ys) i ≡ some x
found-append [] ys i x h = ground arith
found-append (y ∷ xs) ys zero x h = h
found-append (y ∷ xs) ys (suc i) x h = found-append xs ys i x h

create_key-IsDead :
    (hash : Text → Text) (store : KeyStore) (app_id : Text) (environment_id : Option Text) (now : ℕ)
    (raw_key id verifier : Text)
    → not (same_text verifier (hash raw_key)) ≡ true
    → IsDead store verifier
    → IsDead (create_key hash store app_id environment_id now raw_key id) verifier
unfolding create_key add_key
create_key-IsDead hash store app_id environment_id now raw_key id verifier other
      (dead a key known found gone) =
    let key' = new_key hash app_id environment_id now raw_key id in
    dead a key
      (get-set verifier (hash raw_key) (length store.objects) store.by_verifier
        ∙ rw (not-true (same_text verifier (hash raw_key)) other) known)
      (found-append store.objects (key' ∷ []) a key found) gone

update-IsDead :
    (store : KeyStore) (f : KeyRecordV1 → KeyRecordV1) (b : ℕ) (verifier : Text)
    → ((k : KeyRecordV1) → is_active k ≡ false → is_active (f k) ≡ false)
    → IsDead store verifier
    → IsDead (record store { objects = update b f store.objects }) verifier
update-IsDead store f b verifier keeps (dead a key known found gone) = elim (Bool-cases (b == a)) [
  | inl here ↦
      dead a (f key) known
        (rw (==→eq b a here, get_elem?-update_self a f store.objects, found) refl) (keeps key gone)
  | inr there ↦ dead a key known (get_elem?-update_other b a f store.objects there ∙ found) gone
]

revoke_all-IsDead :
    (store : KeyStore) (f : KeyRecordV1 → KeyRecordV1) (addresses : List ℕ) (verifier : Text)
    → ((k : KeyRecordV1) → is_active k ≡ false → is_active (f k) ≡ false)
    → IsDead store verifier
    → IsDead (record store { objects = revoke_all f addresses store.objects }) verifier
revoke_all-IsDead store f addresses verifier keeps (dead a key known found gone) =
    let (after, there, still) = revoke_all_dead f addresses store.objects a key keeps found gone in
    dead a after known there still

superseded_dead :
    (app_id env_id id : Text) (now : ℕ) (k : KeyRecordV1)
    → is_active k ≡ false
    → is_active (revoke_superseded app_id env_id id now k) ≡ false
superseded_dead app_id env_id id now k gone = elim (Bool-cases (is_superseded app_id env_id id k)) [
  | inl old ↦ rw old refl
  | inr kept ↦ rw kept gone
]

call_keys-IsDead :
    (hash : Text → Text) (store : KeyStore) (call : KeyCall) (verifier : Text)
    → avoids hash verifier call ≡ true
    → IsDead store verifier
    → IsDead (call_keys hash store call) verifier
unfolding call_keys rotate_environment_key revoke_key
call_keys-IsDead hash store (create app_id environment_id now raw_key id) verifier other d =
    create_key-IsDead hash store app_id environment_id now raw_key id verifier other d
call_keys-IsDead hash store (rotate app_id env_id now raw_key id) verifier other d =
    let created = create_key hash store app_id (some env_id) now raw_key id in
    revoke_all-IsDead created (revoke_superseded app_id env_id id now) (values created.by_id)
      verifier (superseded_dead app_id env_id id now)
      (create_key-IsDead hash store app_id (some env_id) now raw_key id verifier other d)
call_keys-IsDead hash store (revoke id now) verifier other d =
    elim (Option-cases (get id store.by_id)) [
      | inl unknown ↦ rw unknown d
      | inr (b, which) ↦
          rw which (update-IsDead store (revoke_at now) b verifier (λ k gone. refl) d)
    ]

call_all_keys-IsDead :
    (hash : Text → Text) (store : KeyStore) (calls : List KeyCall) (verifier : Text)
    → all (avoids hash verifier) calls ≡ true
    → IsDead store verifier
    → IsDead (call_all_keys hash store calls) verifier
unfolding call_all_keys
call_all_keys-IsDead hash store [] verifier others d = d
call_all_keys-IsDead hash store (call ∷ calls) verifier others d =
    let (first, rest) =
      and_parts (avoids hash verifier call) (all (avoids hash verifier) calls) others in
    call_all_keys-IsDead hash (call_keys hash store call) calls verifier rest
      (call_keys-IsDead hash store call verifier first d)

verify_key-IsDead :
    (hash : Text → Text) (store : KeyStore) (raw_key : Text)
    → IsDead store (hash raw_key)
    → verify_key hash store raw_key ≡ none
unfolding verify_key find_key
verify_key-IsDead hash store raw_key (dead a key known found gone) = rw (known, found, gone) refl

find_key-IsDead :
    (store : KeyStore) (verifier : Text) (key : KeyRecordV1)
    → find_key store verifier ≡ some key
    → is_active key ≡ false
    → IsDead store verifier
unfolding find_key
find_key-IsDead store verifier key found gone =
    let (a, known, object) = bound (get verifier store.by_verifier) found in
    dead a key known object gone

-- A raw key whose record is revoked never verifies again, whatever keys are created, rotated or
-- revoked, unless a key is issued that has its hash.
pub revoked_forever :
    (hash : Text → Text) (store : KeyStore) (calls : List KeyCall) (raw_key : Text)
    (key : KeyRecordV1)
    → find_key store (hash raw_key) ≡ some key
    → is_active key ≡ false
    → all (avoids hash (hash raw_key)) calls ≡ true
    → verify_key hash (call_all_keys hash store calls) raw_key ≡ none
revoked_forever hash store calls raw_key key found gone others =
    verify_key-IsDead hash (call_all_keys hash store calls) raw_key (
      call_all_keys-IsDead hash store calls (hash raw_key) others
        (find_key-IsDead store (hash raw_key) key found gone))
