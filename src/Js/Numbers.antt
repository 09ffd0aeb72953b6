-- ===== src/Js/Numbers.antt =====
-- JavaScript numbers: a finite double is a dyadic fraction with a sign. -0 is `finite true 0 k`.
pub mod Decimal
use app_health.Prelude.{ℕ, ◌+◌, ◌-◌, ◌*◌, ◌/◌, ◌%◌, ◌^◌, Bool, true, false, ◌&&◌, ltb, ◌==◌}

-- `finite negative mantissa shift` is mantissa / 2 ^ shift with its sign.
pub data Num : Type 0 where
  nan : Num
  infinite : (negative : Bool) → Num
  finite : (negative : Bool) (mantissa shift : ℕ) → Num

abbrev pub is_finite : Num → Bool
is_finite (finite negative m s) = true
is_finite _ = false

-- `Number.isInteger`
abbrev pub is_integer : Num → Bool
is_integer (finite negative m s) = m % 2 ^ s == 0
is_integer _ = false

-- `x < 0`
abbrev pub is_negative : Num → Bool
is_negative nan = false
is_negative (infinite negative) = negative
is_negative (finite negative m s) = negative && ltb 0 m

-- The magnitude, rounded down.
abbrev pub magnitude : Num → ℕ
magnitude (finite negative m s) = m / 2 ^ s
magnitude _ = 0

-- `Math.round`: the nearest integer, a half rounded up.
abbrev pub round : Num → Num
round (finite false m s) = finite false ((2 * m + 2 ^ s) / (2 * 2 ^ s)) 0
round (finite true m s) = finite true ((2 * m + 2 ^ s - 1) / (2 * 2 ^ s)) 0
round x = x

-- The number that a natural number is.
abbrev pub of_ℕ : ℕ → Num
of_ℕ n = finite false n 0
