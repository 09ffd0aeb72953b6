-- ===== src/Js/Strings/Sorting.antt =====
-- `[...texts].sort()`: by code units.
use app_health.Prelude.{
  suc, ◌≡◌, refl, ap, ◌∙◌, Bool, true, false, ◌&&◌, ◌||◌, List, [], ◌∷◌, ltb, ◌==◌, if◌then◌else◌,
  length, all, any, arith, if_elim, and_parts,
}
use app_health.Js.Strings.{Text}

abbrev pub text_leb : Text → Text → Bool
text_leb [] b = true
text_leb (c ∷ a) [] = false
text_leb (c ∷ a) (d ∷ b) = ltb c d || ((c == d) && text_leb a b)

unfoldable pub insert : Text → List Text → List Text
insert text [] = text ∷ []
insert text (t ∷ ts) =
    let rest = t ∷ insert text ts in if text_leb text t then text ∷ t ∷ ts else rest

unfoldable pub sort : List Text → List Text
unfolding insert
sort [] = []
sort (t ∷ ts) = insert t (sort ts)

pub sort_cons : (t : Text) (ts : List Text) → sort (t ∷ ts) ≡ insert t (sort ts)
unfolding sort
sort_cons t ts = refl

length-insert : (text : Text) (ts : List Text) → length (insert text ts) ≡ suc (length ts)
unfolding insert
length-insert text [] = refl
length-insert text (t ∷ ts) =
    if_elim (λ (l : List Text). length l ≡ suc (suc (length ts))) (text_leb text t) (λ here. refl)
      (λ later. ap (λ n. suc n) (length-insert text ts))

pub length-sort : (ts : List Text) → length (sort ts) ≡ length ts
length-sort [] = unfold sort in refl
length-sort (t ∷ ts) =
    ap length (sort_cons t ts) ∙ (length-insert t (sort ts) ∙ ap (λ n. suc n) (length-sort ts))

all-insert :
    (p : Text → Bool) (text : Text) (ts : List Text)
    → p text ≡ true
    → all p ts ≡ true
    → all p (insert text ts) ≡ true
unfolding insert
all-insert p text [] h k = rw h refl
all-insert p text (t ∷ ts) h k =
    let (pt, rest) = and_parts (p t) (all p ts) k in
    if_elim (λ (l : List Text). all p l ≡ true) (text_leb text t) (λ here. rw h k)
      (λ later. rw pt (all-insert p text ts h rest))

-- A test that all texts pass, all sorted texts pass.
pub all-sort : (p : Text → Bool) (ts : List Text) → all p ts ≡ true → all p (sort ts) ≡ true
all-sort p [] h = unfold sort in refl
all-sort p (t ∷ ts) h =
    let (pt, rest) = and_parts (p t) (all p ts) h in
    rw (sort_cons t ts) (all-insert p t (sort ts) pt (all-sort p ts rest))

any-insert :
    (p : Text → Bool) (text : Text) (ts : List Text) → any p (insert text ts) ≡ (p text || any p ts)
unfolding insert
any-insert p text [] = refl
any-insert p text (t ∷ ts) =
    if_elim (λ (l : List Text). any p l ≡ (p text || (p t || any p ts))) (text_leb text t)
      (λ here. refl) (λ later. rw (any-insert p text ts) (swap (p t) (p text) (any p ts)))
  where
    swap : (a b c : Bool) → (a || (b || c)) ≡ (b || (a || c))
    swap true b c = ground arith
    swap false b c = refl

-- A test that some text passes, some sorted text passes, and conversely.
pub any-sort : (p : Text → Bool) (ts : List Text) → any p (sort ts) ≡ any p ts
any-sort p [] = unfold sort in refl
any-sort p (t ∷ ts) =
    ap (any p) (sort_cons t ts) ∙ (any-insert p t (sort ts) ∙ ap (λ b. p t || b) (any-sort p ts))
