-- ===== src/Worker/Memory/Keys/Consistency.antt =====
-- The two maps of the keys agree with the objects that they hold.
use app_health.Prelude.{
  ℕ, zero, suc, ◌≡◌, ◌⊎◌, ◌>>=◌, if_elim, refl, sym, ◌∙◌, true, false, List, [], ◌∷◌, ◌++◌, Option,
  none, some, bound, returned, length, get_elem?, get_elem?-append_last, get_elem?-update_self,
  get_elem?-update_other, update, arith, Bool-cases, Option-cases, inl, inr, is_some, ◌==◌, ==→eq,
}
use app_health.Js.Strings.{Text, same_text}
use app_health.Js.Strings.Equality.{same_text→eq}
use app_health.Js.Maps.{get, set, values, get_nil, get-set, get-set_self}
use app_health.Worker.Memory.Keys.{
  KeyRecordV1, KeyStore, KeyCall, create, rotate, revoke, no_keys, add_key, new_key, create_key,
  revoke_at, is_superseded, revoke_superseded, revoke_all, rotate_environment_key, revoke_key,
  call_keys, call_all_keys,
}

-- Every object that is found by a hash has that hash, and every object is found by its id.
pub record IsConsistent (store : KeyStore) : Type 0 where
  pub hashed :
      (verifier : Text) (a : ℕ)
      → get verifier store.by_verifier ≡ some a
      → (k : KeyRecordV1) × (get_elem? store.objects a ≡ some k) × (k.verifier_hash ≡ verifier)
  pub filed :
      (a : ℕ) (k : KeyRecordV1)
      → get_elem? store.objects a ≡ some k
      → is_some (get k.id store.by_id) ≡ true

found-append :
    (xs ys : List KeyRecordV1) (a : ℕ) (x : KeyRecordV1)
    → get_elem? xs a ≡ some x
    → get_elem? (xs ++ ys) a ≡ some x
found-append [] ys a x h = ground arith
found-append (y ∷ xs) ys zero x h = h
found-append (y ∷ xs) ys (suc a) x h = found-append xs ys a x h

append-found :
    (xs : List KeyRecordV1) (y : KeyRecordV1) (a : ℕ) (x : KeyRecordV1)
    → get_elem? (xs ++ y ∷ []) a ≡ some x
    → (get_elem? xs a ≡ some x) ⊎ (some y ≡ some x)
append-found [] y zero x h = inr h
append-found [] y (suc a) x h = ground arith
append-found (z ∷ xs) y zero x h = inl h
append-found (z ∷ xs) y (suc a) x h = append-found xs y a x h

pub no_keys-IsConsistent : IsConsistent no_keys
no_keys-IsConsistent = record { hashed = λ v a e. nothing v a e; filed = λ a k e. ground arith }
  where
    nothing :
        (v : Text) (a : ℕ)
        → get v [] ≡ some a
        → (k : KeyRecordV1) × (get_elem? no_keys.objects a ≡ some k) × (k.verifier_hash ≡ v)
    nothing v a e = let impossible : none ≡ some a = sym (get_nil v) ∙ e in ground arith

add_key-IsConsistent :
    (store : KeyStore) (key : KeyRecordV1) → IsConsistent store → IsConsistent (add_key store key)
unfolding add_key
add_key-IsConsistent store key c = record {
  hashed = λ v a e. by_hash v a e;
  filed = λ a k e. by_id a k e;
}
  where
    by_hash :
        (v : Text) (a : ℕ)
        → get v (set key.verifier_hash (length store.objects) store.by_verifier) ≡ some a
        → (k : KeyRecordV1) × (get_elem? (store.objects ++ key ∷ []) a ≡ some k)
          × (k.verifier_hash ≡ v)
    by_hash v a e =
        let address = length store.objects in
        let found = sym (get-set v key.verifier_hash address store.by_verifier) ∙ e in
        elim (Bool-cases (same_text v key.verifier_hash)) [
          | inl its_own ↦ (
            key,
            returned (λ b. get_elem? (store.objects ++ key ∷ []) b ≡ some key) (rw its_own at found)
                (get_elem?-append_last store.objects key),
            sym (same_text→eq v key.verifier_hash its_own),
          )
          | inr other ↦
              let (k, here, same) = c.hashed v a (rw other at found) in
              (k, found-append store.objects (key ∷ []) a k here, same)
        ]

    kept :
        (id : Text)
        → is_some (get id store.by_id) ≡ true
        → is_some (get id (set key.id (length store.objects) store.by_id)) ≡ true
    kept id h =
        rw (get-set id key.id (length store.objects) store.by_id)
          (if_elim (λ (o : Option ℕ). is_some o ≡ true) (same_text id key.id) (λ e. refl) (λ e. h))

    by_id :
        (a : ℕ) (k : KeyRecordV1)
        → get_elem? (store.objects ++ key ∷ []) a ≡ some k
        → is_some (get k.id (set key.id (length store.objects) store.by_id)) ≡ true
    by_id a k e = elim (append-found store.objects key a k e) [
      | inl old ↦ kept k.id (c.filed a k old)
      | inr new ↦
          returned (λ k. is_some (get k.id (set key.id (length store.objects) store.by_id)) ≡ true)
            new (rw (get-set_self key.id (length store.objects) store.by_id) refl)
    ]

-- A change that keeps what the maps are keyed by.
pub record IsFiling (f : KeyRecordV1 → KeyRecordV1) : Type 0 where
  pub same_id : (k : KeyRecordV1) → (f k).id ≡ k.id
  pub same_hash : (k : KeyRecordV1) → (f k).verifier_hash ≡ k.verifier_hash

update-IsConsistent :
    (f : KeyRecordV1 → KeyRecordV1) (b : ℕ) (store : KeyStore)
    → IsFiling f
    → IsConsistent store
    → IsConsistent (record store { objects = update b f store.objects })
update-IsConsistent f b store m c = record {
  hashed = λ v a e. by_hash v a (c.hashed v a e);
  filed = λ a k e. by_id a k e;
}
  where
    by_hash :
        (v : Text) (a : ℕ)
        → (k : KeyRecordV1) × (get_elem? store.objects a ≡ some k) × (k.verifier_hash ≡ v)
        → (k : KeyRecordV1) × (get_elem? (update b f store.objects) a ≡ some k)
          × (k.verifier_hash ≡ v)
    by_hash v a (k, here, same) = elim (Bool-cases (b == a)) [
      | inl its ↦ (
        f k,
        rw (==→eq b a its, get_elem?-update_self a f store.objects, here) refl,
        m.same_hash k ∙ same,
      )
      | inr other ↦ (k, get_elem?-update_other b a f store.objects other ∙ here, same)
    ]

    by_id :
        (a : ℕ) (k : KeyRecordV1)
        → get_elem? (update b f store.objects) a ≡ some k
        → is_some (get k.id store.by_id) ≡ true
    by_id a k e = elim (Bool-cases (b == a)) [
      | inl its ↦
          let changed : (get_elem? store.objects a >>= λ x. some (f x)) ≡ some k =
            sym (get_elem?-update_self a f store.objects) ∙ (rw (==→eq b a its) at e) in
          let (old, here, same) = bound (get_elem? store.objects a) changed in
          returned (λ k. is_some (get k.id store.by_id) ≡ true) same
            (rw (m.same_id old) (c.filed a old here))
      | inr other ↦ c.filed a k (sym (get_elem?-update_other b a f store.objects other) ∙ e)
    ]

revoke_all-IsConsistent :
    (f : KeyRecordV1 → KeyRecordV1) (addresses : List ℕ) (store : KeyStore)
    → IsFiling f
    → IsConsistent store
    → IsConsistent (record store { objects = revoke_all f addresses store.objects })
unfolding revoke_all
revoke_all-IsConsistent f [] store m c = record {
  hashed = λ v a e. c.hashed v a e;
  filed = λ a k e. c.filed a k e;
}
revoke_all-IsConsistent f (b ∷ addresses) store m c =
    revoke_all-IsConsistent f addresses (record store { objects = update b f store.objects }) m
      (update-IsConsistent f b store m c)

pub revoke_superseded-IsFiling :
    (app_id env_id id : Text) (now : ℕ) → IsFiling (revoke_superseded app_id env_id id now)
revoke_superseded-IsFiling app_id env_id id now = record {
  same_id = λ k.
      if_elim (λ (r : KeyRecordV1). r.id ≡ k.id) (is_superseded app_id env_id id k) (λ e. refl)
        (λ e. refl);
  same_hash = λ k.
      if_elim (λ (r : KeyRecordV1). r.verifier_hash ≡ k.verifier_hash)
        (is_superseded app_id env_id id k) (λ e. refl) (λ e. refl);
}

pub create_key-IsConsistent :
    (hash : Text → Text) (store : KeyStore) (app_id : Text) (environment_id : Option Text) (now : ℕ)
    (raw_key id : Text)
    → IsConsistent store
    → IsConsistent (create_key hash store app_id environment_id now raw_key id)
unfolding create_key
create_key-IsConsistent hash store app_id environment_id now raw_key id c =
    add_key-IsConsistent store (new_key hash app_id environment_id now raw_key id) c

call_keys-IsConsistent :
    (hash : Text → Text) (store : KeyStore) (call : KeyCall)
    → IsConsistent store
    → IsConsistent (call_keys hash store call)
unfolding call_keys rotate_environment_key revoke_key
call_keys-IsConsistent hash store (create app_id environment_id now raw_key id) c =
    create_key-IsConsistent hash store app_id environment_id now raw_key id c
call_keys-IsConsistent hash store (rotate app_id env_id now raw_key id) c =
    let created = create_key hash store app_id (some env_id) now raw_key id in
    revoke_all-IsConsistent (revoke_superseded app_id env_id id now) (values created.by_id) created
      (revoke_superseded-IsFiling app_id env_id id now)
      (create_key-IsConsistent hash store app_id (some env_id) now raw_key id c)
call_keys-IsConsistent hash store (revoke id now) c = elim (Option-cases (get id store.by_id)) [
  | inl unknown ↦ rw unknown c
  | inr (b, which) ↦ rw which (
      update-IsConsistent (revoke_at now) b store
        (record { same_id = λ k. refl; same_hash = λ k. refl }) c)
]

pub call_all_keys-IsConsistent :
    (hash : Text → Text) (store : KeyStore) (calls : List KeyCall)
    → IsConsistent store
    → IsConsistent (call_all_keys hash store calls)
unfolding call_all_keys
call_all_keys-IsConsistent hash store [] c = c
call_all_keys-IsConsistent hash store (call ∷ calls) c =
    call_all_keys-IsConsistent hash (call_keys hash store call) calls
      (call_keys-IsConsistent hash store call c)

-- A new id is that of the new object only.
pub only_new :
    (store : KeyStore) (key k : KeyRecordV1) (a : ℕ)
    → IsConsistent store
    → get key.id store.by_id ≡ none
    → get_elem? (add_key store key).objects a ≡ some k
    → same_text k.id key.id ≡ true
    → some key ≡ some k
unfolding add_key
only_new store key k a c fresh here same = elim (append-found store.objects key a k here) [
  | inr new ↦ new
  | inl old ↦
      let known = c.filed a k old in
      let impossible : false ≡ true = rw (same_text→eq k.id key.id same, fresh) at known in
      ground arith
]
