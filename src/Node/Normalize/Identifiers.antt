-- ===== src/Node/Normalize/Identifiers.antt =====
-- The identifiers that a route template may not hold, told apart from the code's own tests.
use app_health.Prelude.{
  ℕ, ◌≤◌, ◌≡◌, refl, Bool, true, false, not, ◌&&◌, ◌||◌, [], ◌∷◌, leb, ◌==◌, length, all, arith,
  and_parts, and_true, all_weaken, Bool-cases, inl, inr,
}
use mathlib.Core.List.{Memᴰ}
use app_health.Js.Strings.{Text, codes, join, is_digit, is_hex}
use app_health.Js.Strings.Splitting.{lacks, split-join}
use app_health.Node.Normalize.{is_numeric, is_uuid, is_identifier_segment}

-- A segment that is a decimal number.
abbrev pub is_number : Text → Bool
is_number [] = false
is_number (c ∷ []) = leb b'0' c && leb c b'9'
is_number (c ∷ d ∷ cs) = leb b'0' c && leb c b'9' && is_number (d ∷ cs)

-- A hexadecimal text of some length.
pub record IsHex (n : ℕ) (s : Text) : Type 0 where
  pub long : length s ≡ n
  pub hex : all is_hex s ≡ true

-- A UUID of a version from 1 to 5, of the variant that RFC 4122 defines.
pub data IsUuid : Text → Type 0 where
  uuid :
      {a b c d e : Text} {version variant : ℕ}
      → IsHex 8 a
      → IsHex 4 b
      → b'1' ≤ version
      → version ≤ b'5'
      → IsHex 3 c
      → Memᴰ variant (codes "89abAB")
      → IsHex 3 d
      → IsHex 12 e
      → IsUuid (join b'-' (a ∷ b ∷ (version ∷ c) ∷ (variant ∷ d) ∷ e ∷ []))

all_digits : (s : Text) → is_number s ≡ true → all is_digit s ≡ true
all_digits [] h = refl
all_digits (c ∷ []) h = rw h refl
all_digits (c ∷ d ∷ cs) h =
    let (digit, rest) = and_parts (is_digit c) (is_number (d ∷ cs)) h in
    and_true (is_digit c) (all is_digit (d ∷ cs)) digit (all_digits (d ∷ cs) rest)

is_numeric-number : (s : Text) → is_number s ≡ true → is_numeric s ≡ true
unfolding is_numeric
is_numeric-number [] h = ground arith
is_numeric-number (c ∷ cs) h = all_digits (c ∷ cs) h

hex_apart : (c : ℕ) → is_hex c ≡ true → not (c == b'-') ≡ true
hex_apart c h = ground arith

lacks-hex : (n : ℕ) (s : Text) → IsHex n s → lacks b'-' s ≡ true
lacks-hex n s h = all_weaken is_hex (λ c. not (c == b'-')) hex_apart s h.hex

-- The test of the variant in `UUID_RE`.
abbrev is_variant : ℕ → Bool
is_variant r = r == b'8' || r == b'9' || r == b'a' || r == b'b' || r == b'A' || r == b'B'

variant_known : (r : ℕ) → Memᴰ r (codes "89abAB") → (is_variant r ≡ true) × (not (r == b'-') ≡ true)
variant_known r (Memᴰ.head e) = rw e (refl, refl)
variant_known r (Memᴰ.tail (Memᴰ.head e)) = rw e (refl, refl)
variant_known r (Memᴰ.tail (Memᴰ.tail (Memᴰ.head e))) = rw e (refl, refl)
variant_known r (Memᴰ.tail (Memᴰ.tail (Memᴰ.tail (Memᴰ.head e)))) = rw e (refl, refl)
variant_known r (Memᴰ.tail (Memᴰ.tail (Memᴰ.tail (Memᴰ.tail (Memᴰ.head e))))) = rw e (refl, refl)
variant_known r (Memᴰ.tail (Memᴰ.tail (Memᴰ.tail (Memᴰ.tail (Memᴰ.tail (Memᴰ.head e)))))) =
    rw e (refl, refl)
variant_known r (Memᴰ.tail (Memᴰ.tail (Memᴰ.tail (Memᴰ.tail (Memᴰ.tail (Memᴰ.tail none_left)))))) =
    elim none_left [ ]

is_uuid-IsUuid : (s : Text) → IsUuid s → is_uuid s ≡ true
unfolding is_uuid
is_uuid-IsUuid s (uuid {a} {b} {c} {d} {e} {version} {variant} ha hb from to hc hv hd he) =
    let (its_variant, apart) = variant_known variant hv in
    let lower : leb b'1' version ≡ true = ground arith in
    let upper : leb version b'5' ≡ true = ground arith in
    let version_apart : not (version == b'-') ≡ true = ground arith in
    let marks : all (lacks b'-') (a ∷ b ∷ (version ∷ c) ∷ (variant ∷ d) ∷ e ∷ []) ≡ true =
      rw
        (
          lacks-hex 8 a ha,
          lacks-hex 4 b hb,
          version_apart,
          lacks-hex 3 c hc,
          apart,
          lacks-hex 3 d hd,
          lacks-hex 12 e he,
        )
        refl in
    rw
      (
        split-join b'-' a (b ∷ (version ∷ c) ∷ (variant ∷ d) ∷ e ∷ []) marks,
        ha.long,
        ha.hex,
        hb.long,
        hb.hex,
        lower,
        upper,
        hc.long,
        hc.hex,
        its_variant,
        hd.long,
        hd.hex,
        he.long,
        he.hex,
      )
      refl

-- Both kinds of identifier are found by the code's tests.
pub is_identifier_segment-number :
    (s : Text) → not (is_identifier_segment s) ≡ true → not (is_number s) ≡ true
unfolding is_identifier_segment
is_identifier_segment-number s h = elim (Bool-cases (is_number s)) [
  | inl digits ↦
      let impossible : false ≡ true = rw (is_numeric-number s digits) at h in ground arith
  | inr other ↦ rw other refl
]

pub is_identifier_segment-IsUuid : (s : Text) → not (is_identifier_segment s) ≡ true → ¬ IsUuid s
unfolding is_identifier_segment
is_identifier_segment-IsUuid s h u = let known = is_uuid-IsUuid s u in ground (arith, known)
