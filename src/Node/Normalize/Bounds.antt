-- ===== src/Node/Normalize/Bounds.antt =====
-- The bounds of the fields that normalize.ts lets through.
use app_health.Prelude.{
  ℕ, zero, suc, ◌+◌, ◌-◌, ◌%◌, ◌*◌, ◌/◌, ◌^◌, ◌≤◌, ◌<◌, ◌≡◌, refl, Bool, true, false, some,
  returned, ltb, ◌∙◌, arith, not_refused,
}
use native.Mathlib.Omega.{div_any}
use native.Mathlib.Nat.{mod-lt, div-one, div-eq_of_lt}
use app_health.Js.{Value, undefined, null, other, boolean, number, string}
use app_health.Js.Numbers.{Num, nan, infinite, finite, is_negative}
use app_health.Node.Normalize.{normalize_status, min_status_code, max_status_code, rounded_within}

-- The value is a finite number, not negative, and the count is nearest to it, at half or less.
pub data IsNearest : Value → ℕ → Type 0 where
  nearest :
      {negative : Bool} {m s n : ℕ}
      → is_negative (finite negative m s) ≡ false
      → 2 * m < (2 * n + 1) * 2 ^ s
      → 2 * n * 2 ^ s ≤ 2 * m + 2 ^ s
      → IsNearest (number (finite negative m s)) n

-- Rounding a half up: the quotient is within a half of m / unit.
half_up :
    (m unit : ℕ)
    → 0 < unit
    → let n = (2 * m + unit) / (2 * unit) in
      (2 * m < (2 * n + 1) * unit) × (2 * n * unit ≤ 2 * m + unit)
half_up m unit pos =
    let n = (2 * m + unit) / (2 * unit) in
    let r = (2 * m + unit) % (2 * unit) in
    let whole : 2 * unit * n + r ≡ 2 * m + unit = div_any (2 * m + unit) (2 * unit) in
    let small : r < 2 * unit = mod-lt (2 * m + unit) (omega arith) in (omega (arith), omega (arith))

half_down : (unit : ℕ) → 0 < unit → (2 * 0 + unit - 1) / (2 * unit) ≡ 0
half_down unit pos = div-eq_of_lt (omega arith)

unit_positive : (s : ℕ) → 0 < 2 ^ s
unit_positive zero = omega arith
unit_positive (suc s) = omega (arith, unit_positive s)

pub rounded_within-IsNearest :
    (most : ℕ) (value : Num) (n : ℕ)
    → rounded_within most value ≡ some n
    → IsNearest (number value) n × (n ≤ most)
unfolding rounded_within
rounded_within-IsNearest most nan n h = ground arith
rounded_within-IsNearest most (infinite negative) n h = ground arith
rounded_within-IsNearest most (finite false m s) n h =
    let q = (2 * m + 2 ^ s) / (2 * 2 ^ s) in
    let (over, same) = not_refused (ltb most (q / 1)) h in
    let (above, below) = half_up m (2 ^ s) (unit_positive s) in
    let whole : q / 1 ≡ q = div-one q in
    returned (λ n. IsNearest (number (finite false m s)) n × (n ≤ most)) same
      (rw whole (nearest refl above below), ground (arith))
rounded_within-IsNearest most (finite true zero s) n h =
    let q = (2 * 0 + 2 ^ s - 1) / (2 * 2 ^ s) in
    let (over, same) = not_refused (ltb most (q / 1)) h in
    let none_up : q ≡ 0 = half_down (2 ^ s) (unit_positive s) in
    let whole : q / 1 ≡ 0 = div-one q ∙ none_up in
    returned (λ n. IsNearest (number (finite true zero s)) n × (n ≤ most)) same
      (rw whole (nearest refl (omega (arith, unit_positive s)) (omega arith)), ground (arith))
rounded_within-IsNearest most (finite true (suc m) s) n h = ground arith

pub normalize_status_bounds :
    (value : Value) (n : ℕ)
    → normalize_status value ≡ some n
    → (min_status_code ≤ n) × (n ≤ max_status_code)
unfolding normalize_status
normalize_status_bounds (number status) n h = ground arith
normalize_status_bounds undefined n h = ground arith
normalize_status_bounds null n h = ground arith
normalize_status_bounds other n h = ground arith
normalize_status_bounds (boolean b) n h = ground arith
normalize_status_bounds (string s) n h = ground arith
