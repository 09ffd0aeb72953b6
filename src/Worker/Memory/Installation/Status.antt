-- ===== src/Worker/Memory/Installation/Status.antt =====
-- What an operator is told after a key was made or revoked and after traffic came in.
use app_health.Prelude.{
  ℕ, ◌+◌, ◌≡◌, refl, sym, ap, ◌∙◌, true, false, List, [], ◌∷◌, ◌==◌, Option, none, some, is_some,
  leb, ltb, if◌then◌else◌, get_elem?, get_elem?-append_last, length, arith, Bool-cases,
  Option-cases, inl, inr, ==→eq,
}
use app_health.Js.Strings.{Text}
use app_health.Js.Strings.Equality.{same_text_refl}
use app_health.Js.Maps.{Dict, get, set, values, get-set_self, values-set_new}
use app_health.Worker.Memory.{scope_key}
use app_health.Worker.Memory.Keys.{
  KeyStore, KeyRecordV1, new_key, add_key, create_key, is_active_for, find_active,
  get_active_key_for_environment,
}
use app_health.Worker.Memory.Keys.Objects.{listed, listed-append_last}
use app_health.Worker.Memory.Installation.{
  Runtime, InstallationRow, ingested, record_ingest, is_revoked, status_at, connected_status,
  stale_status, get_status, stale_threshold_ms,
}

found_stays :
    (store : KeyStore) (app_id env_id : Text) (key : KeyRecordV1) (addresses : List ℕ)
    → is_some (find_active store app_id env_id (some key) addresses) ≡ true
unfolding find_active
found_stays store app_id env_id key [] = refl
found_stays store app_id env_id key (a ∷ addresses) =
    elim (Option-cases (get_elem? store.objects a)) [
      | inl missing ↦ rw missing (found_stays store app_id env_id key addresses)
      | inr (k, there) ↦ rw there (elim (Bool-cases (is_active_for app_id (some env_id) (some k))) [
        | inl its ↦ rw its refl
        | inr other ↦ rw other (elim (Bool-cases (is_active_for app_id none (some k))) [
          | inl product ↦ rw product (found_stays store app_id env_id k addresses)
          | inr neither ↦ rw neither (found_stays store app_id env_id key addresses)
        ])
      ])
    ]

-- An active key of the environment that is listed is found, or another is.
is_some-find_active :
    (store : KeyStore) (app_id env_id : Text) (address : ℕ) (key : KeyRecordV1)
    (product_key : Option KeyRecordV1) (addresses : List ℕ)
    → get_elem? store.objects address ≡ some key
    → is_active_for app_id (some env_id) (some key) ≡ true
    → listed address addresses ≡ true
    → is_some (find_active store app_id env_id product_key addresses) ≡ true
unfolding find_active
is_some-find_active store app_id env_id address key product_key [] there active h = ground arith
is_some-find_active store app_id env_id address key product_key (a ∷ addresses) there active h =
    elim (Bool-cases (is_active_for app_id (some env_id) (get_elem? store.objects a))) [
      | inl its ↦ rw its (some_key (get_elem? store.objects a) its)
      | inr other ↦ elim (Bool-cases (a == address)) [
        | inl here ↦
            let same = ap (get_elem? store.objects) (==→eq a address here) ∙ there in
            let impossible : true ≡ false = sym active ∙ (rw same at other) in ground arith
        | inr elsewhere ↦ rw other (
            is_some-find_active store app_id env_id address key
              (if is_active_for app_id none (get_elem? store.objects a)
                then get_elem? store.objects a
                else product_key)
              addresses there active (rw elsewhere at h))
      ]
    ]
  where
    some_key :
        (o : Option KeyRecordV1) → is_active_for app_id (some env_id) o ≡ true → is_some o ≡ true
    some_key none h = h
    some_key (some k) h = refl

get_active_key_for_environment-create_key :
    (hash : Text → Text) (keys : KeyStore) (app_id env_id : Text) (now : ℕ) (raw_key id : Text)
    → get id keys.by_id ≡ none
    → is_some (
        get_active_key_for_environment
          (create_key hash keys app_id (some env_id) now raw_key id)
          app_id
          env_id)
      ≡ true
unfolding get_active_key_for_environment create_key add_key
get_active_key_for_environment-create_key hash keys app_id env_id now raw_key id fresh =
    let key = new_key hash app_id (some env_id) now raw_key id in
    let created = create_key hash keys app_id (some env_id) now raw_key id in
    let active : is_active_for app_id (some env_id) (some key) ≡ true =
      rw (same_text_refl app_id, same_text_refl env_id) refl in
    let there : listed (length keys.objects) (values (set id (length keys.objects) keys.by_id))
        ≡ true =
      rw (values-set_new id (length keys.objects) keys.by_id fresh)
        (listed-append_last (length keys.objects) (values keys.by_id)) in
    is_some-find_active created app_id env_id (length keys.objects) key none (values created.by_id)
      (get_elem?-append_last keys.objects key) active there

status_heard :
    (row : InstallationRow) (seen now : ℕ)
    → row.last_seen ≡ some seen
    → status_at now row row.last_seen
      ≡ (if leb now (seen + stale_threshold_ms) then connected_status row else stale_status row)
status_heard row seen now h =
    rw (ap (status_at now row) h) (elim (Bool-cases (ltb (seen + stale_threshold_ms) now)) [
      | inl quiet ↦
          let late : leb now (seen + stale_threshold_ms) ≡ false = ground arith in
          rw (quiet, late) refl
      | inr heard ↦
          let soon : leb now (seen + stale_threshold_ms) ≡ true = ground arith in
          rw (heard, soon) refl
    ])

-- Once a key was made for an environment and traffic came in, the environment is connected for
-- fifteen minutes and stale from then on, whatever was revoked or heard before.
pub get_status-record_ingest :
    (hash : Text → Text) (keys : KeyStore) (installation : Dict InstallationRow)
    (app_id env_id : Text) (created_at : ℕ) (raw_key id : Text) (runtime : Runtime) (seen now : ℕ)
    → get id keys.by_id ≡ none
    → get_status
        (create_key hash keys app_id (some env_id) created_at raw_key id)
        (record_ingest installation app_id env_id runtime seen)
        app_id
        env_id
        now
      ≡ (let row =
            ingested (get (scope_key app_id env_id) installation) app_id env_id runtime seen in
          if leb now (seen + stale_threshold_ms) then connected_status row else stale_status row)
unfolding get_status is_revoked record_ingest
get_status-record_ingest hash keys installation app_id env_id created_at raw_key id runtime seen now
      fresh =
    let key = scope_key app_id env_id in
    let old = get key installation in
    let row = ingested old app_id env_id runtime seen in
    rw
      (
        get_active_key_for_environment-create_key hash keys app_id env_id created_at raw_key id
            fresh,
        get-set_self key row installation,
      )
      (status_heard row seen now (last_seen_of old))
  where
    last_seen_of :
        (o : Option InstallationRow) → (ingested o app_id env_id runtime seen).last_seen ≡ some seen
    last_seen_of none = refl
    last_seen_of (some row) = refl
