-- ===== src/Worker/Service/Passing.antt =====
-- What a batch that is not refused goes through, the first time and again.
use app_health.Prelude.{
  ℕ, suc, ◌≡◌, refl, ◌∙◌, ◌⊎◌, Bool, true, false, none, some, is_some, any, map, length, arith,
  Bool-cases, Option-cases, inl, inr,
}
use app_health.Js.Strings.{Text}
use app_health.Js.Strings.Equality.{same_text_refl}
use app_health.Js.Maps.Thinning.{thinned_absent}
use app_health.Js.Maps.{Dict, get, set, remove, get-remove}
use app_health.Worker.Memory.Keys.{KeyRecordV1}
use app_health.Worker.Memory.Dedupe.{batch_key, is_expired, prune_dedupe, mark_seen, forget}
use app_health.Worker.Memory.Dedupe.Pruning.{mark_seen_fresh, mark_seen_again, prune_dedupe-Thinned}
use app_health.Worker.Memory.Environments.{EnvironmentV1}
use app_health.Worker.Service.{
  InMemoryAdapter, ResolvedScope, ScopeResolution, resolved_to, unresolved, IngestResult, ok,
  refused, threw, is_skewed, verify_ingest_key, resolve_scope,
}
use app_health.Worker.Service.Endpoints.{
  EventBatchV1, EventStorage, endpoint_event, settled, batch_id_of, claimed, resolved, ingest,
}
use app_health.Worker.Service.Scopes.{resolve_scope_again}

abbrev pub is_refused : IngestResult → Bool
is_refused (refused status error) = true
is_refused _ = false

pub settled_ok :
    (scope : ResolvedScope) (batch_id : Text) (count n : ℕ) (p : InMemoryAdapter × Bool)
    → (settled scope batch_id count p).0 ≡ ok n 0
    → (settled scope batch_id count p).1 ≡ p.0
settled_ok scope batch_id count n (after, true) h = refl
settled_ok scope batch_id count n (after, false) h = ground arith

pub settled_threw :
    (scope : ResolvedScope) (batch_id : Text) (count : ℕ) (p : InMemoryAdapter × Bool)
    → (settled scope batch_id count p).0 ≡ threw
    → (settled scope batch_id count p).1 ≡ record p.0 {
      seen_batches = forget p.0.seen_batches scope.app_id scope.environment_id batch_id;
    }
settled_threw scope batch_id count (after, true) h = ground arith
settled_threw scope batch_id count (after, false) h = refl

abbrev pub accepted_count : IngestResult → ℕ
accepted_count (ok accepted duplicates) = accepted
accepted_count _ = 0

abbrev pub accepts : IngestResult → Bool
accepts (ok accepted duplicates) = true
accepts _ = false

-- A batch that was given up is not found again.
pub forgotten :
    (seen : Dict ℕ) (app_id env_id batch_id : Text) (now : ℕ)
    → is_some (
        get
          (batch_key app_id env_id batch_id)
          (prune_dedupe now (forget seen app_id env_id batch_id)))
      ≡ false
unfolding forget
forgotten seen app_id env_id batch_id now =
    let key = batch_key app_id env_id batch_id in
    let gone : get key (remove key seen) ≡ none =
      get-remove key key seen ∙ rw (same_text_refl key) refl in
    rw (thinned_absent (is_expired now) key (prune_dedupe-Thinned now (remove key seen)) gone) refl

module _ (hash : Text → Text) (legacy_batch_id : EventBatchV1 → Text) (storage : EventStorage) where
  -- What a batch that is not refused went through.
  pub record Passed (repos : InMemoryAdapter) (raw_key : Text) (batch : EventBatchV1) (now : ℕ)
      (new_id : Text) : Type 0 where
    pub key : KeyRecordV1
    pub scope : ResolvedScope
    pub environments : Dict EnvironmentV1
    pub verified : verify_ingest_key hash repos.keys raw_key ≡ some key
    pub in_time : any (λ event. is_skewed now event.timestamp) batch.events ≡ false
    pub scoped :
        resolve_scope repos.environments key batch.environment now new_id
        ≡ (resolved_to scope, environments)

  -- What the handler does with it from there on.
  abbrev pub claim :
      InMemoryAdapter
      → ResolvedScope
      → Dict EnvironmentV1
      → EventBatchV1
      → ℕ
      → IngestResult × InMemoryAdapter
  claim repos scope environments batch now =
      claimed hash legacy_batch_id storage (record repos { environments = environments }) scope
        batch now
        (mark_seen repos.seen_batches scope.app_id scope.environment_id
          (batch_id_of hash legacy_batch_id storage batch) now)

  pub ingest-Passed :
      (repos : InMemoryAdapter) (raw_key : Text) (batch : EventBatchV1) (now : ℕ) (new_id : Text)
      (p : Passed repos raw_key batch now new_id)
      → ingest hash legacy_batch_id storage repos raw_key (some batch) now new_id
        ≡ claim repos p.scope p.environments batch now
  unfolding ingest
  ingest-Passed repos raw_key batch now new_id p = rw (p.verified, p.in_time, p.scoped) refl

  resolved_inv :
      (repos : InMemoryAdapter) (batch : EventBatchV1) (now : ℕ)
      (r : ScopeResolution × Dict EnvironmentV1)
      → is_refused (resolved hash legacy_batch_id storage repos batch now r).0 ≡ false
      → (scope : ResolvedScope) × (environments : Dict EnvironmentV1) × (r
          ≡ (resolved_to scope, environments))
  resolved_inv repos batch now (unresolved status error, environments) h = ground arith
  resolved_inv repos batch now (resolved_to scope, environments) h = (scope, environments, refl)

  pub passed :
      (repos : InMemoryAdapter) (raw_key : Text) (batch : EventBatchV1) (now : ℕ) (new_id : Text)
      → is_refused (ingest hash legacy_batch_id storage repos raw_key (some batch) now new_id).0
        ≡ false
      → Passed repos raw_key batch now new_id
  unfolding ingest
  passed repos raw_key batch now new_id h =
      elim (Option-cases (verify_ingest_key hash repos.keys raw_key)) [
        | inl unknown ↦ let impossible : true ≡ false = rw unknown at h in ground arith
        | inr (key, verified) ↦
            elim (Bool-cases (any (λ event. is_skewed now event.timestamp) batch.events)) [
              | inl skewed ↦
                  let impossible : true ≡ false = rw (verified, skewed) at h in ground arith
              | inr in_time ↦
                  let resolution =
                    resolve_scope repos.environments key batch.environment now new_id in
                  let (scope, environments, scoped) =
                    resolved_inv repos batch now resolution (rw (verified, in_time) at h) in
                  record {
                    key = key;
                    scope = scope;
                    environments = environments;
                    verified = verified;
                    in_time = in_time;
                    scoped = scoped;
                  }
            ]
      ]

  -- What storage is given for a batch that was not seen, and what it leaves.
  abbrev pub claiming :
      InMemoryAdapter → ResolvedScope → Dict EnvironmentV1 → EventBatchV1 → ℕ → InMemoryAdapter
  claiming repos scope environments batch now =
      let key =
        batch_key scope.app_id scope.environment_id
          (batch_id_of hash legacy_batch_id storage batch) in
      record repos {
        environments = environments;
        seen_batches = set key now (prune_dedupe now repos.seen_batches);
      }

  abbrev pub stored_from :
      InMemoryAdapter
      → ResolvedScope
      → Dict EnvironmentV1
      → EventBatchV1
      → ℕ
      → InMemoryAdapter × Bool
  stored_from repos scope environments batch now =
      storage.persist (claiming repos scope environments batch now) scope batch.runtime
        (map endpoint_event batch.events) now

  pub claim_fresh :
      (repos : InMemoryAdapter) (scope : ResolvedScope) (environments : Dict EnvironmentV1)
      (batch : EventBatchV1) (now : ℕ)
      → is_some (
          get
            (batch_key scope.app_id scope.environment_id
              (batch_id_of hash legacy_batch_id storage batch))
            (prune_dedupe now repos.seen_batches))
        ≡ false
      → claim repos scope environments batch now
        ≡ settled scope
            (batch_id_of hash legacy_batch_id storage batch)
            (length batch.events)
            (stored_from repos scope environments batch now)
  claim_fresh repos scope environments batch now new =
      let id = batch_id_of hash legacy_batch_id storage batch in
      rw (mark_seen_fresh repos.seen_batches scope.app_id scope.environment_id id now new) refl

  pub claim_again :
      (repos : InMemoryAdapter) (scope : ResolvedScope) (environments : Dict EnvironmentV1)
      (batch : EventBatchV1) (now : ℕ)
      → is_some (
          get
            (batch_key scope.app_id scope.environment_id
              (batch_id_of hash legacy_batch_id storage batch))
            (prune_dedupe now repos.seen_batches))
        ≡ true
      → claim repos scope environments batch now ≡ (
        ok 0 (length batch.events),
        record repos {
          environments = environments;
          seen_batches = prune_dedupe now repos.seen_batches;
        },
      )
  claim_again repos scope environments batch now old =
      let id = batch_id_of hash legacy_batch_id storage batch in
      rw (mark_seen_again repos.seen_batches scope.app_id scope.environment_id id now old) refl

  -- What stored a batch lets it pass again.
  pub pass_again :
      (repos after : InMemoryAdapter) (raw_key : Text) (batch : EventBatchV1) (now later : ℕ)
      (new_id other_id : Text) (p : Passed repos raw_key batch now new_id)
      → get new_id repos.environments ≡ none
      → any (λ event. is_skewed later event.timestamp) batch.events ≡ false
      → after.keys ≡ repos.keys
      → after.environments ≡ p.environments
      → ingest hash legacy_batch_id storage after raw_key (some batch) later other_id
        ≡ claim after p.scope p.environments batch later
  pass_again repos after raw_key batch now later new_id other_id p fresh in_time same_keys
        same_environments =
      ingest-Passed after raw_key batch later other_id (record {
        key = p.key;
        scope = p.scope;
        environments = p.environments;
        verified = rw same_keys p.verified;
        in_time = in_time;
        scoped = rw same_environments (
            resolve_scope_again repos.environments p.environments p.key batch.environment now later
              new_id other_id p.scope fresh p.scoped);
      })

  pub settled_fresh :
      (scope : ResolvedScope) (batch_id : Text) (count : ℕ) (p : InMemoryAdapter × Bool)
      → ((settled scope batch_id count p).0 ≡ ok count 0)
        ⊎ ((settled scope batch_id count p).0 ≡ threw)
  settled_fresh scope batch_id count (after, true) = inl refl
  settled_fresh scope batch_id count (after, false) = inr refl

  pub ok_not_refused : (r : IngestResult) (n : ℕ) → r ≡ ok (suc n) 0 → is_refused r ≡ false
  ok_not_refused r n h = rw h refl

  pub threw_not_refused : (r : IngestResult) → r ≡ threw → is_refused r ≡ false
  threw_not_refused r h = rw h refl
