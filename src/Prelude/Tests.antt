-- ===== src/Prelude/Tests.antt =====
-- Boolean tests on the native numbers, branching, and case splits that keep an equation.
use Prim.Native.Nat.{ℕ, compare, Ordering, ◌≤◌, ◌<◌}
use mathlib.Core.Path.{◌≡◌, refl, subst}
use mathlib.Core.Logic.{◌⊎◌, inl, inr}
use mathlib.Core.Bool.{Bool, true, false, not, ◌&&◌, ◌||◌}
use mathlib.Core.Option.{Option, none, some, some-injective}
use native.Mathlib.Omega.{arith}

abbrev pub ltb : ℕ → ℕ → Bool
ltb a b = elim (compare a b) [ Ordering.lt ↦ true | _ ↦ false ]

abbrev pub leb : ℕ → ℕ → Bool
leb a b = elim (compare a b) [ Ordering.gt ↦ false | _ ↦ true ]

infix 50 ◌==◌
abbrev pub ◌==◌ : ℕ → ℕ → Bool
a == b = elim (compare a b) [ Ordering.eq ↦ true | _ ↦ false ]

infix 1 if◌then◌else◌
abbrev pub if◌then◌else◌ {ℓ} : {A : Type ℓ} → Bool → A → A → A
if true then x else y = x
if false then x else y = y

pub ltb→lt : (a b : ℕ) → ltb a b ≡ true → a < b
ltb→lt a b h = ground arith

pub lt→ltb : (a b : ℕ) → a < b → ltb a b ≡ true
lt→ltb a b h = ground arith

pub leb→le : (a b : ℕ) → leb a b ≡ true → a ≤ b
leb→le a b h = ground arith

pub le→leb : (a b : ℕ) → a ≤ b → leb a b ≡ true
le→leb a b h = ground arith

pub ==→eq : (a b : ℕ) → (a == b) ≡ true → a ≡ b
==→eq a b h = ground arith

-- To split on a computed value and keep the equation.
pub Bool-cases : (b : Bool) → (b ≡ true) ⊎ (b ≡ false)
Bool-cases true = inl refl
Bool-cases false = inr refl

pub Option-cases {ℓ} : {A : Type ℓ} (o : Option A) → (o ≡ none) ⊎ ((a : A) × (o ≡ some a))
Option-cases none = inl refl
Option-cases (some a) = inr (a, refl)

-- `a ?? b` of the source.
abbrev pub or_else {ℓ} : {A : Type ℓ} → Option A → A → A
or_else none d = d
or_else (some a) d = a

abbrev pub is_some {ℓ} : {A : Type ℓ} → Option A → Bool
is_some none = false
is_some (some a) = true

-- A property of a branch, given what the test says there.
pub if_elim {ℓ κ} :
    {A : Type ℓ} (P : A → Type κ) (b : Bool) {x y : A}
    → (b ≡ true → P x)
    → (b ≡ false → P y)
    → P (if b then x else y)
if_elim P true f g = f refl
if_elim P false f g = g refl

pub and_true : (a b : Bool) → a ≡ true → b ≡ true → (a && b) ≡ true
and_true a b h k = simp (h, k)

pub and_parts : (a b : Bool) → (a && b) ≡ true → (a ≡ true) × (b ≡ true)
and_parts true b h = (refl, h)
and_parts false b h = ground arith

pub and_parts4 :
    (a b c d : Bool) → (a && b && c && d) ≡ true → (a ≡ true) × (b ≡ true) × (c ≡ true) × (d ≡ true)
and_parts4 true true c d h = let (hc, hd) = and_parts c d h in (refl, refl, hc, hd)
and_parts4 true false c d h = ground arith
and_parts4 false b c d h = ground arith

pub and_true4 :
    (a b c d : Bool) → a ≡ true → b ≡ true → c ≡ true → d ≡ true → (a && b && c && d) ≡ true
and_true4 a b c d ha hb hc hd = simp (ha, hb, hc, hd)

pub not-true : (b : Bool) → not b ≡ true → b ≡ false
not-true true h = ground arith
not-true false h = refl

pub missing_when {ℓ} : {A : Type ℓ} (o : Option A) → not (is_some o) ≡ true → o ≡ none
missing_when none h = refl
missing_when (some x) h = ground arith

pub or_parts : (a b : Bool) → (a || b) ≡ false → (a ≡ false) × (b ≡ false)
or_parts true b h = ground arith
or_parts false b h = (refl, h)

pub not-false : (b : Bool) → not b ≡ false → b ≡ true
not-false true h = refl
not-false false h = ground arith

-- A result was not refused.
pub not_refused {ℓ} :
    {A : Type ℓ} (refuse : Bool) {o : Option A} {a : A}
    → (if refuse then none else o) ≡ some a
    → (refuse ≡ false) × (o ≡ some a)
not_refused true h = ground arith
not_refused false h = (refl, h)

-- What holds of a value holds of what was returned.
pub returned {ℓ κ} : {A : Type ℓ} (P : A → Type κ) {a b : A} → some a ≡ some b → P a → P b
returned P {a} {b} same h = subst P (some-injective a b same) h

infixl 1 ◌>>=◌
abbrev pub ◌>>=◌ {ℓ κ} : {A : Type ℓ} {B : Type κ} → Option A → (A → Option B) → Option B
none >>= k = none
some a >>= k = k a

-- A chain that returns went through its first step.
pub bound {ℓ κ} :
    {A : Type ℓ} {B : Type κ} (o : Option A) {k : A → Option B} {b : B}
    → (o >>= k) ≡ some b
    → (a : A) × (o ≡ some a) × (k a ≡ some b)
bound none h = ground arith
bound (some a) h = (a, refl, h)

-- A result was let through.
pub let_through {ℓ} :
    {A : Type ℓ} (pass : Bool) {o : Option A} {a : A}
    → (if pass then o else none) ≡ some a
    → (pass ≡ true) × (o ≡ some a)
let_through true h = (refl, h)
let_through false h = ground arith
