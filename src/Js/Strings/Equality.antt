-- ===== src/Js/Strings/Equality.antt =====
-- `===` on strings.
use app_health.Prelude.{
  ◌≡◌, refl, sym, ap, ◌∙◌, true, false, [], ◌∷◌, ◌==◌, arith, ==→eq, and_parts, Bool-cases, inl,
  inr,
}
use app_health.Js.Strings.{Text, same_text}

-- Equal texts pass the same tests.
pub same_text→eq : (a b : Text) → same_text a b ≡ true → a ≡ b
same_text→eq [] [] h = refl
same_text→eq [] (c ∷ b) h = ground arith
same_text→eq (c ∷ a) [] h = ground arith
same_text→eq (c ∷ a) (d ∷ b) h =
    let (first, rest) = and_parts (c == d) (same_text a b) h in
    rw (==→eq c d first) (ap (◌∷◌ d) (same_text→eq a b rest))

pub same_text_refl : (a : Text) → same_text a a ≡ true
same_text_refl [] = refl
same_text_refl (c ∷ a) = ground (arith, same_text_refl a)

-- Of two texts of which one is equal to a third and the other is not, neither is the other.
pub same_text_apart :
    (j k i : Text) → same_text j i ≡ true → same_text k i ≡ false → same_text j k ≡ false
same_text_apart j k i here other = elim (Bool-cases (same_text j k)) [
  | inl same ↦
      let impossible : true ≡ false =
        sym here ∙ (ap (λ t. same_text t i) (same_text→eq j k same) ∙ other) in
      ground arith
  | inr differ ↦ differ
]
