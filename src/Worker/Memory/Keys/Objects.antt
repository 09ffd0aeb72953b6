-- ===== src/Worker/Memory/Keys/Objects.antt =====
-- What the calls do to the object at an address, and which addresses the maps hold.
use app_health.Prelude.{
  ℕ, ◌≡◌, refl, sym, ap, ◌∙◌, Bool, true, false, not, ◌&&◌, List, [], ◌∷◌, ◌++◌, Option, none, some,
  ◌==◌, length, get_elem?, get_elem?-update_self, get_elem?-update_other, update, any, arith,
  Bool-cases, inl, inr, ==→eq, returned, is_some, and_parts, Option-cases,
}
use app_health.Js.Strings.{Text, same_text}
use app_health.Js.Maps.{get, set, values, get_nil, get-set, values-set_new}
use app_health.Worker.Memory.Keys.{
  KeyRecordV1, KeyStore, KeyCall, create, rotate, revoke, no_keys, add_key, new_key, create_key,
  is_active, revoke_all, rotate_environment_key, revoke_key, call_keys, call_all_keys,
}

-- The address is among them.
abbrev pub listed : ℕ → List ℕ → Bool
listed address = any (λ a. a == address)

listed-append : (a b : ℕ) (as' : List ℕ) → listed a as' ≡ true → listed a (as' ++ b ∷ []) ≡ true
listed-append a b [] h = ground arith
listed-append a b (x ∷ as') h = elim (Bool-cases (x == a)) [
  | inl here ↦ rw here refl
  | inr there ↦ rw there (listed-append a b as' (rw there at h))
]

pub listed-append_last : (a : ℕ) (as' : List ℕ) → listed a (as' ++ a ∷ []) ≡ true
listed-append_last a [] = ground arith
listed-append_last a (x ∷ as') = elim (Bool-cases (x == a)) [
  | inl here ↦ rw here refl
  | inr there ↦ rw there (listed-append_last a as')
]

-- Every key that is found by its hash is also found by its id.
pub record IsIndexed (store : KeyStore) : Type 0 where
  pub indexed :
      (verifier : Text) (a : ℕ)
      → get verifier store.by_verifier ≡ some a
      → listed a (values store.by_id) ≡ true

no_keys-IsIndexed : IsIndexed no_keys
no_keys-IsIndexed = record { indexed = λ v a e. nothing v a e }
  where
    nothing : (v : Text) (a : ℕ) → get v [] ≡ some a → listed a (values no_keys.by_id) ≡ true
    nothing v a e = let impossible : none ≡ some a = sym (get_nil v) ∙ e in ground arith

add_key-IsIndexed :
    (store : KeyStore) (key : KeyRecordV1)
    → get key.id store.by_id ≡ none
    → IsIndexed store
    → IsIndexed (add_key store key)
unfolding add_key
add_key-IsIndexed store key fresh i = record { indexed = λ v a e. at_verifier v a e }
  where
    at_verifier :
        (v : Text) (a : ℕ)
        → get v (set key.verifier_hash (length store.objects) store.by_verifier) ≡ some a
        → listed a (values (set key.id (length store.objects) store.by_id)) ≡ true
    at_verifier v a e =
        let address = length store.objects in
        let found = sym (get-set v key.verifier_hash address store.by_verifier) ∙ e in
        rw (values-set_new key.id address store.by_id fresh)
          (elim (Bool-cases (same_text v key.verifier_hash)) [
            | inl its_own ↦
                returned (λ b. listed b (values store.by_id ++ address ∷ []) ≡ true)
                  (rw its_own at found) (listed-append_last address (values store.by_id))
            | inr other ↦
                listed-append a address (values store.by_id) (i.indexed v a (rw other at found))
          ])

-- A change that leaves the object alone, once it was made, is made just once.
revoke_all_fixed :
    (f : KeyRecordV1 → KeyRecordV1) (addresses : List ℕ) (objects : List KeyRecordV1) (a : ℕ)
    (key : KeyRecordV1)
    → f key ≡ key
    → get_elem? objects a ≡ some key
    → get_elem? (revoke_all f addresses objects) a ≡ some key
unfolding revoke_all
revoke_all_fixed f [] objects a key fixed found = found
revoke_all_fixed f (b ∷ addresses) objects a key fixed found =
    revoke_all_fixed f addresses (update b f objects) a key fixed (elim (Bool-cases (b == a)) [
      | inl here ↦
          rw (==→eq b a here, get_elem?-update_self a f objects, found) (ap (λ k. some k) fixed)
      | inr there ↦ get_elem?-update_other b a f objects there ∙ found
    ])

pub get_elem?-revoke_all :
    (f : KeyRecordV1 → KeyRecordV1) (addresses : List ℕ) (objects : List KeyRecordV1) (a : ℕ)
    (key : KeyRecordV1)
    → ((k : KeyRecordV1) → f (f k) ≡ f k)
    → listed a addresses ≡ true
    → get_elem? objects a ≡ some key
    → get_elem? (revoke_all f addresses objects) a ≡ some (f key)
unfolding revoke_all
get_elem?-revoke_all f [] objects a key once h found = ground arith
get_elem?-revoke_all f (b ∷ addresses) objects a key once h found = elim (Bool-cases (b == a)) [
  | inl here ↦
      revoke_all_fixed f addresses (update b f objects) a (f key) (once key)
        (rw (==→eq b a here, get_elem?-update_self a f objects, found) refl)
  | inr there ↦
      get_elem?-revoke_all f addresses (update b f objects) a key once (rw there at h)
        (get_elem?-update_other b a f objects there ∙ found)
]

pub revoke_all-none :
    (f : KeyRecordV1 → KeyRecordV1) (addresses : List ℕ) (objects : List KeyRecordV1) (a : ℕ)
    → get_elem? objects a ≡ none
    → get_elem? (revoke_all f addresses objects) a ≡ none
unfolding revoke_all
revoke_all-none f [] objects a missing = missing
revoke_all-none f (b ∷ addresses) objects a missing =
    revoke_all-none f addresses (update b f objects) a (elim (Bool-cases (b == a)) [
      | inl here ↦ rw (==→eq b a here, get_elem?-update_self a f objects, missing) refl
      | inr there ↦ get_elem?-update_other b a f objects there ∙ missing
    ])

-- A key that was revoked stays so.
pub revoke_all_dead :
    (f : KeyRecordV1 → KeyRecordV1) (addresses : List ℕ) (objects : List KeyRecordV1) (a : ℕ)
    (key : KeyRecordV1)
    → ((k : KeyRecordV1) → is_active k ≡ false → is_active (f k) ≡ false)
    → get_elem? objects a ≡ some key
    → is_active key ≡ false
    → (after : KeyRecordV1) × (get_elem? (revoke_all f addresses objects) a ≡ some after)
      × (is_active after ≡ false)
unfolding revoke_all
revoke_all_dead f [] objects a key keeps found dead = (key, found, dead)
revoke_all_dead f (b ∷ addresses) objects a key keeps found dead = elim (Bool-cases (b == a)) [
  | inl here ↦
      revoke_all_dead f addresses (update b f objects) a (f key) keeps
        (rw (==→eq b a here, get_elem?-update_self a f objects, found) refl) (keeps key dead)
  | inr there ↦
      revoke_all_dead f addresses (update b f objects) a key keeps
        (get_elem?-update_other b a f objects there ∙ found) dead
]

-- The id of a new key was not given before.
abbrev pub is_fresh : KeyStore → KeyCall → Bool
is_fresh store (create app_id environment_id now raw_key id) = not (is_some (get id store.by_id))
is_fresh store (rotate app_id env_id now raw_key id) = not (is_some (get id store.by_id))
is_fresh store (revoke id now) = true

abbrev pub all_fresh : (hash : Text → Text) → KeyStore → List KeyCall → Bool
all_fresh hash store [] = true
all_fresh hash store (call ∷ calls) =
    is_fresh store call && all_fresh hash (call_keys hash store call) calls

absent : (o : Option ℕ) → not (is_some o) ≡ true → o ≡ none
absent none h = refl
absent (some a) h = ground arith

pub create_key-IsIndexed :
    (hash : Text → Text) (store : KeyStore) (app_id : Text) (environment_id : Option Text) (now : ℕ)
    (raw_key id : Text)
    → not (is_some (get id store.by_id)) ≡ true
    → IsIndexed store
    → IsIndexed (create_key hash store app_id environment_id now raw_key id)
unfolding create_key
create_key-IsIndexed hash store app_id environment_id now raw_key id fresh i =
    add_key-IsIndexed store (new_key hash app_id environment_id now raw_key id)
      (absent (get id store.by_id) fresh) i

call_keys-IsIndexed :
    (hash : Text → Text) (store : KeyStore) (call : KeyCall)
    → is_fresh store call ≡ true
    → IsIndexed store
    → IsIndexed (call_keys hash store call)
unfolding call_keys rotate_environment_key revoke_key
call_keys-IsIndexed hash store (create app_id environment_id now raw_key id) fresh i =
    create_key-IsIndexed hash store app_id environment_id now raw_key id fresh i
call_keys-IsIndexed hash store (rotate app_id env_id now raw_key id) fresh i =
    let created = create_key-IsIndexed hash store app_id (some env_id) now raw_key id fresh i in
    record { indexed = λ v a e. created.indexed v a e }
call_keys-IsIndexed hash store (revoke id now) fresh i = elim (Option-cases (get id store.by_id)) [
  | inl unknown ↦ rw unknown i
  | inr (a, known) ↦ rw known (record { indexed = λ v b e. i.indexed v b e })
]

call_all_keys-IsIndexed :
    (hash : Text → Text) (store : KeyStore) (calls : List KeyCall)
    → all_fresh hash store calls ≡ true
    → IsIndexed store
    → IsIndexed (call_all_keys hash store calls)
unfolding call_all_keys
call_all_keys-IsIndexed hash store [] fresh i = i
call_all_keys-IsIndexed hash store (call ∷ calls) fresh i =
    let (first, rest) =
      and_parts (is_fresh store call) (all_fresh hash (call_keys hash store call) calls) fresh in
    call_all_keys-IsIndexed hash (call_keys hash store call) calls rest
      (call_keys-IsIndexed hash store call first i)

pub reached-IsIndexed :
    (hash : Text → Text) (calls : List KeyCall)
    → all_fresh hash no_keys calls ≡ true
    → IsIndexed (call_all_keys hash no_keys calls)
reached-IsIndexed hash calls fresh =
    call_all_keys-IsIndexed hash no_keys calls fresh no_keys-IsIndexed
