-- ===== src/Worker/Memory/Buckets/Keying.antt =====
-- That the text that is a bucket's key tells buckets apart.
use app_health.Prelude.{ℕ, ◌≡◌, refl, true, not, ◌∷◌, ◌++◌, ◌==◌, arith}
use app_health.Js.Strings.{Text, join}
use app_health.Js.Strings.Splitting.{lacks, lacks_before}
use app_health.Js.Numbers.Decimal.{decimal, decimal-injective, all-decimal}
use app_health.Worker.Memory.Buckets.{bucket_key}

bucket_key_parts :
    (app_id env_id : Text) (bucket_start : ℕ) (method route : Text)
    → bucket_key app_id env_id bucket_start method route
      ≡ app_id
        ++ b'|' ∷ (env_id ++ b'|' ∷ (decimal bucket_start ++ b'|' ∷ (method ++ b'|' ∷ route)))
unfolding bucket_key join
bucket_key_parts app_id env_id bucket_start method route = refl

-- Buckets with one key are of one app, environment, minute, method and route, when no app,
-- environment or method has a bar in it. A route may have one.
pub bucket_key-injective :
    (app_id env_id : Text) (bucket_start : ℕ) (method route : Text) (app_id' env_id' : Text)
    (bucket_start' : ℕ) (method' route' : Text)
    → lacks b'|' app_id ≡ true
    → lacks b'|' env_id ≡ true
    → lacks b'|' method ≡ true
    → lacks b'|' app_id' ≡ true
    → lacks b'|' env_id' ≡ true
    → lacks b'|' method' ≡ true
    → bucket_key app_id env_id bucket_start method route
      ≡ bucket_key app_id' env_id' bucket_start' method' route'
    → (app_id ≡ app_id')
      × (env_id ≡ env_id')
      × (bucket_start ≡ bucket_start')
      × (method ≡ method')
      × (route ≡ route')
bucket_key-injective a e t m r a' e' t' m' r' ha he hm ha' he' hm' same =
    let same' = rw (bucket_key_parts a e t m r, bucket_key_parts a' e' t' m' r') at same in
    let (same_a, after_a) =
      lacks_before b'|' a a' (e ++ b'|' ∷ (decimal t ++ b'|' ∷ (m ++ b'|' ∷ r)))
        (e' ++ b'|' ∷ (decimal t' ++ b'|' ∷ (m' ++ b'|' ∷ r'))) ha ha' same' in
    let (same_e, after_e) =
      lacks_before b'|' e e' (decimal t ++ b'|' ∷ (m ++ b'|' ∷ r))
        (decimal t' ++ b'|' ∷ (m' ++ b'|' ∷ r')) he he' after_a in
    let (same_t, after_t) =
      lacks_before b'|' (decimal t) (decimal t') (m ++ b'|' ∷ r) (m' ++ b'|' ∷ r') (lacks-decimal t)
        (lacks-decimal t') after_e in
    let (same_m, same_r) = lacks_before b'|' m m' r r' hm hm' after_t in
    (same_a, same_e, decimal-injective t t' same_t, same_m, same_r)
  where
    lacks-decimal : (n : ℕ) → lacks b'|' (decimal n) ≡ true
    lacks-decimal n = all-decimal (λ c. not (c == b'|')) (λ d h. ground arith) n
