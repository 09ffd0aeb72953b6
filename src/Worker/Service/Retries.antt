-- ===== src/Worker/Service/Retries.antt =====
-- What a client that sends a batch again gets.
use app_health.Prelude.{
  ℕ, suc, Bool, or_else, false, ◌+◌, ◌≤◌, ◌≡◌, refl, sym, ap, ◌∙◌, ◌⊎◌, true, false, none, some,
  is_some, any, map, length, arith, Bool-cases, inl, inr,
}
use app_health.Js.Strings.{Text}
use app_health.Js.Maps.{Dict, get, set, get-set_self}
use app_health.Worker.Memory.Dedupe.{dedupe_window_ms, batch_key, is_expired, prune_dedupe, forget}
use app_health.Worker.Memory.Dedupe.Pruning.{prune_keeps}
use app_health.Worker.Memory.Environments.{EnvironmentV1}
use app_health.Worker.Service.{InMemoryAdapter, ResolvedScope, IngestResult, ok, threw, is_skewed}
use app_health.Worker.Service.Endpoints.{
  EventBatchV1, EventStorage, endpoint_event, settled, batch_id_of, ingest,
}
use app_health.Worker.Service.Passing.{
  settled_ok, settled_threw, accepted_count, accepts, forgotten, ingest-Passed, Passed, passed,
  claiming, stored_from, claim_fresh, claim_again, pass_again, ok_not_refused, threw_not_refused,
}

module _ (hash : Text → Text) (legacy_batch_id : EventBatchV1 → Text) (storage : EventStorage) where
  -- A batch of which events were accepted and that is sent again within the hour, its events still
  -- within the clock's skew, is answered as a duplicate: nothing is stored, created or counted again.
  pub ingest_again :
      (repos : InMemoryAdapter) (raw_key : Text) (batch : EventBatchV1) (now later : ℕ)
      (new_id other_id : Text) (n : ℕ)
      → get new_id repos.environments ≡ none
      → now ≤ later
      → later ≤ now + dedupe_window_ms
      → any (λ event. is_skewed later event.timestamp) batch.events ≡ false
      → (ingest hash legacy_batch_id storage repos raw_key (some batch) now new_id).0 ≡ ok (suc n) 0
      → ingest hash legacy_batch_id storage
          (ingest hash legacy_batch_id storage repos raw_key (some batch) now new_id).1
          raw_key
          (some batch)
          later
          other_id
        ≡ (let after =
              (ingest hash legacy_batch_id storage repos raw_key (some batch) now new_id).1 in
            (
              ok 0 (length batch.events),
              record after { seen_batches = prune_dedupe later after.seen_batches },
            ))
  ingest_again repos raw_key batch now later new_id other_id n fresh forward soon in_time h =
      let p =
        passed hash legacy_batch_id storage repos raw_key batch now new_id
          (ok_not_refused hash legacy_batch_id storage _ n h) in
      let id = batch_id_of hash legacy_batch_id storage batch in
      let key = batch_key p.scope.app_id p.scope.environment_id id in
      let first = ingest-Passed hash legacy_batch_id storage repos raw_key batch now new_id p in
      let stored =
        stored_from hash legacy_batch_id storage repos p.scope p.environments batch now in
      elim (Bool-cases (is_some (get key (prune_dedupe now repos.seen_batches)))) [
        | inl seen ↦
            let counts : 0 ≡ suc n = ap accepted_count (
              sym (
                ap (λ r. r.0)
                  (first
                    ∙ claim_again hash legacy_batch_id storage repos p.scope p.environments batch
                        now seen))
              ∙ h) in
            ground arith
        | inr new ↦
            let there =
              first
              ∙ claim_fresh hash legacy_batch_id storage repos p.scope p.environments batch now
                  new in
            let its =
              settled_ok p.scope id (length batch.events) (suc n) stored
                (sym (ap (λ r. r.0) there) ∙ h) in
            let left : (ingest hash legacy_batch_id storage repos raw_key (some batch) now new_id).1
                ≡ stored.0 =
              ap (λ r. r.1) there ∙ its in
            let start =
              claiming hash legacy_batch_id storage repos p.scope p.environments batch now in
            let events = map endpoint_event batch.events in
            let same_keys = storage.keeps_keys start p.scope batch.runtime events now in
            let same_environments =
              storage.keeps_environments start p.scope batch.runtime events now in
            let same_seen = storage.keeps_seen start p.scope batch.runtime events now in
            let second =
              pass_again hash legacy_batch_id storage repos stored.0 raw_key batch now later new_id
                other_id p fresh in_time same_keys same_environments in
            let found : get key stored.0.seen_batches ≡ some now =
              ap (get key) same_seen ∙ get-set_self key now (prune_dedupe now repos.seen_batches) in
            let young : is_expired later now ≡ false = ground arith in
            let kept : is_some (get key (prune_dedupe later stored.0.seen_batches)) ≡ true =
              rw (prune_keeps later key stored.0.seen_batches now found young) refl in
            rw left (
              second
              ∙ (claim_again hash legacy_batch_id storage stored.0 p.scope p.environments batch
                    later kept
                  ∙ ap
                      (λ (e : Dict EnvironmentV1). (
                        ok 0 (length batch.events),
                        record stored.0 {
                          environments = e;
                          seen_batches = prune_dedupe later stored.0.seen_batches;
                        },
                      ))
                      (sym same_environments)))
      ]

  -- Storage is given the batch's events in full, with the claim of the batch and nothing else changed,
  -- and the handler answers as it returns or throws.
  abbrev pub Stores :
      InMemoryAdapter → ResolvedScope → EventBatchV1 → ℕ → IngestResult × InMemoryAdapter → Type 0
  Stores repos scope batch now (answer, after) =
      let key =
        batch_key scope.app_id scope.environment_id
          (or_else batch.batch_id (legacy_batch_id batch)) in
      let claiming : InMemoryAdapter = record repos {
        seen_batches = set key now (prune_dedupe now repos.seen_batches);
      } in
      let (left, returns) =
        storage.persist claiming scope batch.runtime (map endpoint_event batch.events) now in
      ((returns ≡ true) × (answer ≡ ok (length batch.events) 0) × (after ≡ left))
      ⊎ ((returns ≡ false) × (answer ≡ threw))

  settled-Stores :
      (scope : ResolvedScope) (batch_id : Text) (count : ℕ) (p : InMemoryAdapter × Bool)
      → let (answer, after) = settled scope batch_id count p in
        ((p.1 ≡ true) × (answer ≡ ok count 0) × (after ≡ p.0)) ⊎ ((p.1 ≡ false) × (answer ≡ threw))
  settled-Stores scope batch_id count (left, true) = inl (refl, refl, refl)
  settled-Stores scope batch_id count (left, false) = inr (refl, refl)

  -- A batch whose storage threw is not taken for a duplicate when it is sent again, at any time at
  -- which its events are within the clock's skew: in the scope of the first time, storage is given
  -- all of its events once more, and what it leaves is the outcome, unless it throws again. A new
  -- environment gets an id that is not in use.
  pub ingest_after_throw :
      (repos : InMemoryAdapter) (raw_key : Text) (batch : EventBatchV1) (now later : ℕ)
      (new_id other_id : Text)
      → get new_id repos.environments ≡ none
      → any (λ event. is_skewed later event.timestamp) batch.events ≡ false
      → (ingest hash legacy_batch_id storage repos raw_key (some batch) now new_id).0 ≡ threw
      → (let after =
            (ingest hash legacy_batch_id storage repos raw_key (some batch) now new_id).1 in
          (p : Passed hash legacy_batch_id storage repos raw_key batch now new_id) × Stores after
            p.scope batch later
            (ingest hash legacy_batch_id storage after raw_key (some batch) later other_id))
  ingest_after_throw repos raw_key batch now later new_id other_id fresh in_time h =
      let p =
        passed hash legacy_batch_id storage repos raw_key batch now new_id
          (threw_not_refused hash legacy_batch_id storage _ h) in
      let id = batch_id_of hash legacy_batch_id storage batch in
      let key = batch_key p.scope.app_id p.scope.environment_id id in
      let first = ingest-Passed hash legacy_batch_id storage repos raw_key batch now new_id p in
      let stored =
        stored_from hash legacy_batch_id storage repos p.scope p.environments batch now in
      elim (Bool-cases (is_some (get key (prune_dedupe now repos.seen_batches)))) [
        | inl seen ↦
            let duplicate =
              sym (
                ap (λ r. r.0)
                  (first
                    ∙ claim_again hash legacy_batch_id storage repos p.scope p.environments batch
                        now seen))
              ∙ h in
            let impossible = ap accepts duplicate in ground arith
        | inr new ↦
            let there =
              first
              ∙ claim_fresh hash legacy_batch_id storage repos p.scope p.environments batch now
                  new in
            let its =
              settled_threw p.scope id (length batch.events) stored
                (sym (ap (λ r. r.0) there) ∙ h) in
            let given_up : InMemoryAdapter = record stored.0 {
              seen_batches = forget stored.0.seen_batches p.scope.app_id p.scope.environment_id id;
            } in
            let left : (ingest hash legacy_batch_id storage repos raw_key (some batch) now new_id).1
                ≡ given_up =
              ap (λ r. r.1) there ∙ its in
            let start =
              claiming hash legacy_batch_id storage repos p.scope p.environments batch now in
            let events = map endpoint_event batch.events in
            let same_keys = storage.keeps_keys start p.scope batch.runtime events now in
            let same_environments =
              storage.keeps_environments start p.scope batch.runtime events now in
            let second =
              pass_again hash legacy_batch_id storage repos given_up raw_key batch now later new_id
                other_id p fresh in_time same_keys same_environments in
            let gone : is_some (get key (prune_dedupe later given_up.seen_batches)) ≡ false =
              forgotten stored.0.seen_batches p.scope.app_id p.scope.environment_id id later in
            let same : claiming hash legacy_batch_id storage given_up p.scope p.environments batch
                  later
                ≡ record given_up {
                  seen_batches = set key later (prune_dedupe later given_up.seen_batches);
                } =
              ap
                (λ (e : Dict EnvironmentV1). record given_up {
                  environments = e;
                  seen_batches = set key later (prune_dedupe later given_up.seen_batches);
                })
                (sym same_environments) in
            let start : InMemoryAdapter = record given_up {
              seen_batches = set key later (prune_dedupe later given_up.seen_batches);
            } in
            let again =
              second
              ∙ claim_fresh hash legacy_batch_id storage given_up p.scope p.environments batch later
                  gone
              ∙ ap
                  (λ (r : InMemoryAdapter).
                    settled p.scope id (length batch.events)
                      (storage.persist r p.scope batch.runtime events later))
                  same in
            let stores =
              settled-Stores p.scope id (length batch.events)
                (storage.persist start p.scope batch.runtime events later) in
            (p, rw (left, again) stores)
      ]
