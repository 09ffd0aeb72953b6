-- ===== src/Worker/Memory/PublicKeys/Quota.antt =====
-- That a limit on what is used of a quota bounds what is let through.
use app_health.Prelude.{
  ℕ, ◌+◌, ◌-◌, ◌≤◌, ◌≡◌, refl, ap, ◌&&◌, List, [], ◌∷◌, or_else, leb, if◌then◌else◌, arith,
  Bool-cases, inl, inr,
}
use app_health.Js.Strings.{Text, same_text}
use app_health.Js.Strings.Equality.{same_text→eq}
use app_health.Js.Maps.{get, get-set}
use app_health.Worker.Memory.PublicKeys.{PublicKeyStore, quota_key, consume_browser_quota}

-- A request of a key in a window, for an amount.
pub record QuotaRequest : Type 0 where
  pub key_id : Text
  pub window_start : ℕ
  pub amount : ℕ

-- What a caller lets through of one key and window, when it turns down what brings the use over the
-- limit.
unfoldable pub let_in : (limit : ℕ) → PublicKeyStore → (bucket : Text) → List QuotaRequest → ℕ
let_in limit store bucket [] = 0
let_in limit store bucket (r ∷ rs) =
    let (used, after) = consume_browser_quota store r.key_id r.window_start r.amount in
    (if same_text bucket (quota_key r.key_id r.window_start) && leb used limit then r.amount else 0)
    + let_in limit after bucket rs

abbrev pub used_of : PublicKeyStore → Text → ℕ
used_of store bucket = or_else (get bucket store.quota) 0

used_of-consume :
    (store : PublicKeyStore) (key_id : Text) (window_start amount : ℕ) (bucket : Text)
    → ((consume_browser_quota store key_id window_start amount).0
        ≡ used_of store (quota_key key_id window_start) + amount)
      × (used_of (consume_browser_quota store key_id window_start amount).1 bucket ≡ (
          if same_text bucket (quota_key key_id window_start)
          then used_of store (quota_key key_id window_start) + amount
          else used_of store bucket))
unfolding consume_browser_quota
used_of-consume store key_id window_start amount bucket =
    let key = quota_key key_id window_start in
    (
      refl,
      elim (Bool-cases (same_text bucket key)) [
        | inl its ↦ rw (get-set bucket key (used_of store key + amount) store.quota, its) refl
        | inr other ↦ rw (get-set bucket key (used_of store key + amount) store.quota, other) refl
      ],
    )

-- What is let through of a key in a window is at most what was left of the limit, however the
-- requests come.
pub let_in_bound :
    (limit : ℕ) (store : PublicKeyStore) (bucket : Text) (requests : List QuotaRequest)
    → let_in limit store bucket requests ≤ limit - used_of store bucket
unfolding let_in
let_in_bound limit store bucket [] = omega arith
let_in_bound limit store bucket (r ∷ rs) =
    let key = quota_key r.key_id r.window_start in
    let after = (consume_browser_quota store r.key_id r.window_start r.amount).1 in
    let rest = let_in_bound limit after bucket rs in
    let (used, left) = used_of-consume store r.key_id r.window_start r.amount bucket in
    elim (Bool-cases (same_text bucket key)) [
      | inr other ↦
          let left' : used_of after bucket ≡ used_of store bucket = rw other at left in
          rw other (omega (arith, rest, left'))
      | inl its ↦
          let left' : used_of after bucket ≡ used_of store key + r.amount = rw its at left in
          let same : used_of store bucket ≡ used_of store key =
            ap (used_of store) (same_text→eq bucket key its) in
          rw (its, used)
            (elim (Bool-cases (leb (used_of store key + r.amount) limit)) [
              | inl fits ↦ rw fits (ground (arith, rest, left', same, fits))
              | inr over ↦ rw over (ground (arith, rest, left', same, over))
            ])
    ]
