-- ===== src/Js/Numbers/Decimal.antt =====
-- A natural number as text, and back.
use app_health.Prelude.{
  ℕ, zero, suc, ◌+◌, ◌-◌, ◌*◌, ◌/◌, ◌%◌, ◌<◌, ◌≡◌, refl, sym, ap, ◌∙◌, Bool, true, [], ◌∷◌, ◌++◌,
  ltb, if◌then◌else◌, arith, Bool-cases, inl, inr, all, all-append,
}
use app_health.Js.Strings.{Text}

-- The last digits of a number, at most as many as the fuel.
unfoldable pub digits : ℕ → ℕ → Text
digits zero n = []
digits (suc fuel) n =
    let rest = digits fuel (n / 10) in
    if ltb n 10 then (b'0' + n) ∷ [] else rest ++ (b'0' + n % 10) ∷ []

-- `${n}`. A number has fewer digits than its successor says.
unfoldable pub decimal : ℕ → Text
unfolding digits
decimal n = digits (suc n) n

abbrev read : ℕ → Text → ℕ
read acc [] = acc
read acc (c ∷ cs) = read (acc * 10 + (c - b'0')) cs

read-append :
    (acc : ℕ) (cs : Text) (c : ℕ) → read acc (cs ++ c ∷ []) ≡ read acc cs * 10 + (c - b'0')
read-append acc [] c = refl
read-append acc (d ∷ cs) c = read-append (acc * 10 + (d - b'0')) cs c

read-digits : (fuel n : ℕ) → n < fuel → read 0 (digits fuel n) ≡ n
unfolding digits
read-digits zero n h = ground arith
read-digits (suc fuel) n h = elim (Bool-cases (ltb n 10)) [
  | inl small ↦ rw small (omega arith)
  | inr large ↦
      let ten : 9 < n = ground arith in
      let rest = read-digits fuel (n / 10) (omega arith) in
      rw (large, read-append 0 (digits fuel (n / 10)) (b'0' + n % 10), rest) (omega arith)
]

-- Different numbers have different texts.
pub decimal-injective : (m n : ℕ) → decimal m ≡ decimal n → m ≡ n
unfolding decimal
decimal-injective m n same =
    sym (read-digits (suc m) m (omega arith))
    ∙ (ap (read 0) same ∙ read-digits (suc n) n (omega arith))

all-digits :
    (p : ℕ → Bool)
    → ((d : ℕ) → d < 10 → p (b'0' + d) ≡ true)
    → (fuel n : ℕ) → all p (digits fuel n) ≡ true
unfolding digits
all-digits p passes zero n = refl
all-digits p passes (suc fuel) n = elim (Bool-cases (ltb n 10)) [
  | inl small ↦ rw (small, passes n (ground arith)) refl
  | inr large ↦ rw large (
      all-append p (digits fuel (n / 10)) ((b'0' + n % 10) ∷ []) (all-digits p passes fuel (n / 10))
        (rw (passes (n % 10) (omega arith)) refl))
]

-- What is true of the ten digits is true of the units of a decimal.
pub all-decimal :
    (p : ℕ → Bool) → ((d : ℕ) → d < 10 → p (b'0' + d) ≡ true) → (n : ℕ) → all p (decimal n) ≡ true
unfolding decimal
all-decimal p passes n = all-digits p passes (suc n) n
