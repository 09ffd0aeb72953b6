-- ===== src/Worker/Memory/Keys/Rotating.antt =====
-- What a rotation leaves: just the key that it issues verifies for the environment.
use app_health.Prelude.{
  ℕ, ◌≡◌, missing_when, ap, refl, sym, ◌∙◌, Bool, true, false, not, ◌&&◌, List, Option, none, some,
  bound, let_through, returned, get_elem?, arith, Bool-cases, Option-cases, inl, inr, is_some,
}
use mathlib.Core.Option.{some-injective}
use app_health.Js.Strings.{Text, same_text}
use app_health.Js.Strings.Equality.{same_text_refl}
use app_health.Js.Maps.{get, values}
use app_health.Worker.Memory.Keys.{
  KeyRecordV1, KeyStore, KeyCall, no_keys, add_key, new_key, create_key, same_environment,
  is_active, revoke_at, is_superseded, revoke_superseded, rotate_environment_key, find_key,
  verify_key, call_all_keys,
}
use app_health.Worker.Memory.Keys.Objects.{
  IsIndexed, all_fresh, reached-IsIndexed, get_elem?-revoke_all, revoke_all-none,
  create_key-IsIndexed,
}
use app_health.Worker.Memory.Keys.Consistency.{
  no_keys-IsConsistent, create_key-IsConsistent, call_all_keys-IsConsistent,
  revoke_superseded-IsFiling, only_new,
}

and_false : (b : Bool) → (b && false) ≡ false
and_false true = refl
and_false false = refl

not_again :
    (app_id env_id id : Text) (now : ℕ) (k : KeyRecordV1)
    → is_superseded app_id env_id id (revoke_at now k) ≡ false
unfolding is_superseded
not_again app_id env_id id now k = and_false (
    same_text k.app_id app_id
    && same_environment k.environment_id (some env_id)
    && not (same_text k.id id))

superseded_once :
    (app_id env_id id : Text) (now : ℕ) (k : KeyRecordV1)
    → revoke_superseded app_id env_id id now (revoke_superseded app_id env_id id now k)
      ≡ revoke_superseded app_id env_id id now k
superseded_once app_id env_id id now k = elim (Bool-cases (is_superseded app_id env_id id k)) [
  | inl old ↦ rw (old, not_again app_id env_id id now k) refl
  | inr kept ↦ rw (kept, kept) refl
]

-- An active key of the environment that is not superseded has the new id.
kept_id :
    (app_id env_id id : Text) (k : KeyRecordV1)
    → is_superseded app_id env_id id k ≡ false
    → is_active k ≡ true
    → same_text k.app_id app_id ≡ true
    → same_environment k.environment_id (some env_id) ≡ true
    → same_text k.id id ≡ true
unfolding is_superseded
kept_id app_id env_id id k kept active in_app in_env = elim (Bool-cases (same_text k.id id)) [
  | inl same ↦ same
  | inr other ↦
      let impossible : true ≡ false = rw (in_app, in_env, other, active) at kept in ground arith
]

survivor_id :
    (app_id env_id id : Text) (now : ℕ) (k : KeyRecordV1)
    → let after = revoke_superseded app_id env_id id now k in
      is_active after ≡ true
      → same_text after.app_id app_id ≡ true
      → same_environment after.environment_id (some env_id) ≡ true
      → same_text after.id id ≡ true
survivor_id app_id env_id id now k = elim (Bool-cases (is_superseded app_id env_id id k)) [
  | inl old ↦ rw old (λ active in_app in_env. ground arith)
  | inr kept ↦
      rw kept (λ active in_app in_env. kept_id app_id env_id id k kept active in_app in_env)
]

-- The object that a verified key was before the rotation revoked others.
record Survivor (hash : Text → Text) (created : KeyStore) (f : KeyRecordV1 → KeyRecordV1)
    (raw_key : Text) (key : KeyRecordV1) : Type 0 where
  address : ℕ
  object : KeyRecordV1
  known : get (hash raw_key) created.by_verifier ≡ some address
  here : get_elem? created.objects address ≡ some object
  same : some (f object) ≡ some key
  active : is_active key ≡ true

survivor :
    (hash : Text → Text) (store : KeyStore) (app_id env_id : Text) (now : ℕ)
    (new_raw id raw_key : Text) (key : KeyRecordV1)
    → IsIndexed (create_key hash store app_id (some env_id) now new_raw id)
    → verify_key hash (rotate_environment_key hash store app_id env_id now new_raw id) raw_key
      ≡ some key
    → Survivor hash
        (create_key hash store app_id (some env_id) now new_raw id)
        (revoke_superseded app_id env_id id now)
        raw_key
        key
unfolding verify_key find_key rotate_environment_key
survivor hash store app_id env_id now new_raw id raw_key key i verified =
    let created = create_key hash store app_id (some env_id) now new_raw id in
    let f = revoke_superseded app_id env_id id now in
    let (found, found_is, passed) =
      bound
        (find_key (rotate_environment_key hash store app_id env_id now new_raw id) (hash raw_key))
        verified in
    let (active, same) = let_through (is_active found) passed in
    let (a, known, object) = bound (get (hash raw_key) created.by_verifier) found_is in
    elim (Option-cases (get_elem? created.objects a)) [
      | inl missing ↦
          let impossible : none ≡ some found =
            sym (revoke_all-none f (values created.by_id) created.objects a missing) ∙ object in
          ground arith
      | inr (k, here) ↦
          let now_there =
            get_elem?-revoke_all f (values created.by_id) created.objects a k
              (superseded_once app_id env_id id now) (i.indexed (hash raw_key) a known) here in
          record {
            address = a;
            object = k;
            known = known;
            here = here;
            same = sym now_there ∙ (object ∙ same);
            active = returned (λ k. is_active k ≡ true) same active;
          }
    ]

-- The key that was just issued is not superseded.
new_key-kept :
    (hash : Text → Text) (app_id : Text) (environment_id : Option Text) (env_id : Text) (now : ℕ)
    (raw_key id : Text)
    → let key = new_key hash app_id environment_id now raw_key id in
      revoke_superseded app_id env_id id now key ≡ key
unfolding is_superseded
new_key-kept hash app_id environment_id env_id now raw_key id =
    let own : (same_text app_id app_id
          && same_environment environment_id (some env_id)
          && false
          && true)
        ≡ false =
      rw (and_false (same_text app_id app_id && same_environment environment_id (some env_id)))
        refl in
    rw (same_text_refl id, own) refl

-- After any creations, rotations and revocations and then a rotation for an environment, each with
-- an id that is not in use, a raw key that verifies for the environment has the hash of the raw key
-- that the rotation issued, and it verifies as the record that was made for that one.
pub rotate_environment_key_exclusive :
    (hash : Text → Text) (calls : List KeyCall) (app_id env_id : Text) (now : ℕ)
    (new_raw id raw_key : Text) (key : KeyRecordV1)
    → all_fresh hash no_keys calls ≡ true
    → not (is_some (get id (call_all_keys hash no_keys calls).by_id)) ≡ true
    → verify_key hash
        (rotate_environment_key hash
          (call_all_keys hash no_keys calls)
          app_id
          env_id
          now
          new_raw
          id)
        raw_key
      ≡ some key
    → same_text key.app_id app_id ≡ true
    → same_environment key.environment_id (some env_id) ≡ true
    → (hash raw_key ≡ hash new_raw) × (key ≡ new_key hash app_id (some env_id) now new_raw id)
unfolding add_key create_key
rotate_environment_key_exclusive hash calls app_id env_id now new_raw id raw_key key fresh new
      verified in_app in_env =
    let store = call_all_keys hash no_keys calls in
    let f = revoke_superseded app_id env_id id now in
    let issued = new_key hash app_id (some env_id) now new_raw id in
    let i =
      create_key-IsIndexed hash store app_id (some env_id) now new_raw id new
        (reached-IsIndexed hash calls fresh) in
    let c = call_all_keys-IsConsistent hash no_keys calls no_keys-IsConsistent in
    let s = survivor hash store app_id env_id now new_raw id raw_key key i verified in
    let same = some-injective (f s.object) key s.same in
    let its_id : same_text (f s.object).id id ≡ true =
      survivor_id app_id env_id id now s.object (rw same s.active) (rw same in_app)
        (rw same in_env) in
    let m = revoke_superseded-IsFiling app_id env_id id now in
    let is_issued = some-injective issued s.object (
      only_new store issued s.object s.address c (missing_when (get id store.by_id) new) s.here
        (rw (m.same_id s.object) at its_id)) in
    let (k, here, hashed) =
      (create_key-IsConsistent hash store app_id (some env_id) now new_raw id c).hashed
        (hash raw_key) s.address s.known in
    let its_object = some-injective k s.object (sym here ∙ s.here) in
    (
      sym hashed ∙ ap (λ (r : KeyRecordV1). r.verifier_hash) (its_object ∙ sym is_issued),
      sym same
          ∙ (ap f (sym is_issued) ∙ new_key-kept hash app_id (some env_id) env_id now new_raw id),
    )
