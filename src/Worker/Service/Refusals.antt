-- ===== src/Worker/Service/Refusals.antt =====
-- That a request that is refused leaves no trace.
use app_health.Prelude.{
  ℕ, ◌≡◌, refl, ap, Bool, true, false, leb, Option, none, some, any, length, arith, Bool-cases,
  Option-cases, inl, inr,
}
use app_health.Js.Strings.{Text}
use app_health.Js.Maps.{Dict}
use app_health.Worker.Memory.Keys.{KeyRecordV1}
use app_health.Worker.Memory.Environments.{
  EnvironmentV1, find_named, list_environments, create_environment, resolve_environment,
  max_environments_per_app,
}
use app_health.Worker.Service.{
  InMemoryAdapter, ResolvedScope, ScopeResolution, resolved_to, unresolved, refused, is_skewed,
  is_blank, resolve_named, resolve_key, verify_ingest_key, resolve_scope,
}
use app_health.Worker.Service.Endpoints.{
  EventBatchV1, EventStorage, settled, claimed, resolved, validated, ingest,
}

resolve_environment-none :
    (environments : Dict EnvironmentV1) (app_id name : Text) (now : ℕ) (id : Text)
    → (resolve_environment environments app_id name now id).0 ≡ none
    → (resolve_environment environments app_id name now id).1 ≡ environments
unfolding resolve_environment create_environment
resolve_environment-none environments app_id name now id h =
    let here = list_environments environments app_id in
    elim (Option-cases (find_named name here)) [
      | inr (existing, found) ↦ rw found refl
      | inl missing ↦ elim (Bool-cases (leb max_environments_per_app (length here))) [
        | inl full ↦ rw (missing, full) refl
        | inr room ↦ let impossible = rw (missing, room) at h in ground arith
      ]
    ]

resolve_named-none :
    (key : KeyRecordV1) (o : Option EnvironmentV1) (status : ℕ) (error : Text)
    → resolve_named key o ≡ unresolved status error
    → o ≡ none
resolve_named-none key none status error h = refl
resolve_named-none key (some e) status error h = ground arith

resolve_key_unresolved :
    (environments : Dict EnvironmentV1) (key : KeyRecordV1) (env_id requested : Option Text)
    (now : ℕ) (new_id : Text) (status : ℕ) (error : Text)
    → (resolve_key environments key env_id requested now new_id).0 ≡ unresolved status error
    → (resolve_key environments key env_id requested now new_id).1 ≡ environments
resolve_key_unresolved environments key (some env_id) requested now new_id status error h = refl
resolve_key_unresolved environments key none none now new_id status error h = refl
resolve_key_unresolved environments key none (some requested) now new_id status error h =
    elim (Bool-cases (is_blank requested)) [
      | inl blank ↦ rw blank refl
      | inr named ↦
          let found = resolve_environment environments key.app_id requested now new_id in
          let missing = resolve_named-none key found.0 status error (rw named at h) in
          rw named (resolve_environment-none environments key.app_id requested now new_id missing)
    ]

module _ (hash : Text → Text) (legacy_batch_id : EventBatchV1 → Text) (storage : EventStorage) where
  settled_not_refused :
      (scope : ResolvedScope) (batch_id : Text) (count : ℕ) (p : InMemoryAdapter × Bool)
      (status : ℕ) (error : Text)
      → (settled scope batch_id count p).0 ≡ refused status error
      → true ≡ false
  settled_not_refused scope batch_id count (after, true) status error h = ground arith
  settled_not_refused scope batch_id count (after, false) status error h = ground arith

  claimed_not_refused :
      (repos : InMemoryAdapter) (scope : ResolvedScope) (batch : EventBatchV1) (now : ℕ)
      (seen : Bool × Dict ℕ) (status : ℕ) (error : Text)
      → (claimed hash legacy_batch_id storage repos scope batch now seen).0 ≡ refused status error
      → true ≡ false
  claimed_not_refused repos scope batch now (false, seen) status error h = ground arith
  claimed_not_refused repos scope batch now (true, seen) status error h =
      settled_not_refused scope _ (length batch.events) _ status error h

  resolved_unchanged :
      (repos : InMemoryAdapter) (batch : EventBatchV1) (now : ℕ)
      (r : ScopeResolution × Dict EnvironmentV1) (status : ℕ) (error : Text)
      → ((status' : ℕ) (error' : Text) → r.0 ≡ unresolved status' error' → r.1 ≡ repos.environments)
      → (resolved hash legacy_batch_id storage repos batch now r).0 ≡ refused status error
      → (resolved hash legacy_batch_id storage repos batch now r).1 ≡ repos
  resolved_unchanged repos batch now (unresolved status' error', environments) status error same h =
      ap (λ (e : Dict EnvironmentV1). record repos { environments = e }) (same status' error' refl)
  resolved_unchanged repos batch now (resolved_to scope, environments) status error same h =
      let impossible =
        claimed_not_refused (record repos { environments = environments }) scope batch now _ status
          error h in
      ground arith

-- An ingest that is refused, for its key, its body, its times or its environment, changes nothing.
pub ingest_refused :
    (hash : Text → Text) (legacy_batch_id : EventBatchV1 → Text) (storage : EventStorage)
    (repos : InMemoryAdapter) (raw_key : Text) (body : Option EventBatchV1) (now : ℕ)
    (new_id : Text) (status : ℕ) (error : Text)
    → (ingest hash legacy_batch_id storage repos raw_key body now new_id).0 ≡ refused status error
    → (ingest hash legacy_batch_id storage repos raw_key body now new_id).1 ≡ repos
unfolding ingest resolve_scope
ingest_refused hash legacy_batch_id storage repos raw_key body now new_id status error h =
    elim (Option-cases (verify_ingest_key hash repos.keys raw_key)) [
      | inl unknown ↦ rw unknown refl
      | inr (key, verified) ↦ rw verified (of_body key body (rw verified at h))
    ]
  where
    of_body :
        (key : KeyRecordV1) (o : Option EventBatchV1)
        → (validated hash legacy_batch_id storage repos key o now new_id).0 ≡ refused status error
        → (validated hash legacy_batch_id storage repos key o now new_id).1 ≡ repos
    of_body key none k = refl
    of_body key (some batch) k =
        elim (Bool-cases (any (λ event. is_skewed now event.timestamp) batch.events)) [
          | inl skewed ↦ rw skewed refl
          | inr in_time ↦ rw in_time (
              resolved_unchanged hash legacy_batch_id storage repos batch now
                (resolve_key repos.environments key key.environment_id batch.environment now new_id)
                status error
                (λ s e r.
                  resolve_key_unresolved repos.environments key key.environment_id batch.environment
                    now new_id s e r)
                (rw in_time at k))
        ]
