-- ===== src/Worker/Memory/Endpoints/Seen.antt =====
-- That an endpoint's times span its observations, in whatever order these come in.
use app_health.Prelude.{
  ℕ, ◌≡◌, refl, ap, ◌∙◌, min, max, List, [], ◌∷◌, Option, none, some, if◌then◌else◌, Bool-cases,
  inl, inr,
}
use app_health.Js.Strings.{Text, same_text}
use app_health.Js.Strings.Equality.{same_text→eq}
use app_health.Js.Maps.{Dict, get, set, get-set}
use app_health.Worker.Memory.Endpoints.{
  ObservedEndpoint, Observation, endpoint_key, observed, record_observed,
}

-- The first and last of two times, of which one may be missing.
abbrev pub span : Option (ℕ × ℕ) → ℕ → Option (ℕ × ℕ)
span none t = some (t, t)
span (some (a, b)) t = some (min a t, max b t)

-- The span of the observations of a key, from what is known.
unfoldable pub spanned :
    (app_id env_id key : Text) → Option (ℕ × ℕ) → List Observation → Option (ℕ × ℕ)
spanned app_id env_id key known [] = known
spanned app_id env_id key known (o ∷ os) =
    spanned app_id env_id key
      (if same_text key (endpoint_key app_id env_id o) then span known o.timestamp else known) os

abbrev pub times : Option ObservedEndpoint → Option (ℕ × ℕ)
times none = none
times (some e) = some (e.first_seen, e.last_seen)

times-observed :
    (o : Option ObservedEndpoint) (e : Observation)
    → times (some (observed o e)) ≡ span (times o) e.timestamp
times-observed none e = refl
times-observed (some existing) e = refl

record_observed_cons :
    (inventory : Dict ObservedEndpoint) (app_id env_id : Text) (e : Observation)
    (es : List Observation)
    → record_observed inventory app_id env_id (e ∷ es)
      ≡ record_observed
          (set
            (endpoint_key app_id env_id e)
            (observed (get (endpoint_key app_id env_id e) inventory) e)
            inventory)
          app_id
          env_id
          es
unfolding record_observed
record_observed_cons inventory app_id env_id e es = refl

-- After any observations, the inventory has of each key the earliest and the latest time at which it
-- was observed, then or before.
pub times-record_observed :
    (inventory : Dict ObservedEndpoint) (app_id env_id : Text) (endpoints : List Observation)
    (key : Text)
    → times (get key (record_observed inventory app_id env_id endpoints))
      ≡ spanned app_id env_id key (times (get key inventory)) endpoints
unfolding spanned
times-record_observed inventory app_id env_id [] key = unfold record_observed in refl
times-record_observed inventory app_id env_id (e ∷ es) key =
    let its_key = endpoint_key app_id env_id e in
    let new = observed (get its_key inventory) e in
    let after = times-record_observed (set its_key new inventory) app_id env_id es key in
    rw (record_observed_cons inventory app_id env_id e es)
      (elim (Bool-cases (same_text key its_key)) [
        | inr other ↦ rw other (after ∙ rw (get-set key its_key new inventory, other) refl)
        | inl its_own ↦
            let that : times (get key inventory) ≡ times (get its_key inventory) =
              ap (λ k. times (get k inventory)) (same_text→eq key its_key its_own) in
            rw (its_own, that)
              (after
                ∙ rw
                    (
                      get-set key its_key new inventory,
                      its_own,
                      times-observed (get its_key inventory) e,
                    )
                    refl)
      ])
