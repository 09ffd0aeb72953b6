-- ===== src/Worker/Sketch/Registers.antt =====
-- What the registers hold after digests were applied, in whatever order.
use app_health.Prelude.{
  ℕ, zero, suc, ◌≤◌, ◌<◌, max, ◌≡◌, refl, sym, ◌∙◌, ap, Bool, true, false, ◌||◌, List, [], ◌∷◌,
  ◌++◌, ◌==◌, if◌then◌else◌, length, arith, Bool-cases, inl, inr,
}
use app_health.Js.Strings.{Text, same_text}
use app_health.Js.Strings.Equality.{same_text→eq, same_text_refl}
use app_health.Worker.Sketch.{raise, register_index, hash_rank, contains, larger, replicate}

-- The register in a place, and 0 where there is none.
abbrev pub at : List ℕ → ℕ → ℕ
at [] i = 0
at (r ∷ rs) zero = r
at (r ∷ rs) (suc i) = at rs i

-- The largest rank of a digest that falls in the register.
abbrev pub highest : ℕ → ℕ → List Text → ℕ
highest precision i [] = 0
highest precision i (hash ∷ hashes) =
    let rest = highest precision i hashes in
    if register_index precision hash == i then max (hash_rank precision hash) rest else rest

pub length-raise : (rs : List ℕ) (index rank : ℕ) → length (raise rs index rank) ≡ length rs
unfolding raise
length-raise [] index rank = refl
length-raise (r ∷ rs) zero rank = refl
length-raise (r ∷ rs) (suc index) rank = ap (λ n. suc n) (length-raise rs index rank)

pub at-raise :
    (rs : List ℕ) (index rank i : ℕ)
    → i < length rs
    → at (raise rs index rank) i ≡ (if index == i then max rank (at rs i) else at rs i)
unfolding raise
at-raise [] index rank i h = omega arith
at-raise (r ∷ rs) zero rank zero h = ground arith
at-raise (r ∷ rs) zero rank (suc i) h = ground arith
at-raise (r ∷ rs) (suc index) rank zero h = ground arith
at-raise (r ∷ rs) (suc index) rank (suc i) h =
    ground (arith, at-raise rs index rank i (omega arith))

pub length-larger : (rs is : List ℕ) → length (larger rs is) ≡ length rs
unfolding larger
length-larger [] is = refl
length-larger (r ∷ rs) [] = refl
length-larger (r ∷ rs) (i ∷ is) = ap (λ n. suc n) (length-larger rs is)

pub at-larger :
    (rs incoming : List ℕ) (i : ℕ)
    → length rs ≡ length incoming
    → at (larger rs incoming) i ≡ max (at rs i) (at incoming i)
unfolding larger
at-larger [] [] i h = ground arith
at-larger [] (x ∷ incoming) i h = omega arith
at-larger (r ∷ rs) [] i h = omega arith
at-larger (r ∷ rs) (x ∷ incoming) zero h = refl
at-larger (r ∷ rs) (x ∷ incoming) (suc i) h = at-larger rs incoming i (omega arith)

pub at-replicate : (n i : ℕ) → at (replicate n 0) i ≡ 0
at-replicate zero i = refl
at-replicate (suc n) zero = refl
at-replicate (suc n) (suc i) = at-replicate n i

pub at-replicate_bound : (n x i : ℕ) → at (replicate n x) i ≤ x
at-replicate_bound zero x i = omega arith
at-replicate_bound (suc n) x zero = omega arith
at-replicate_bound (suc n) x (suc i) = at-replicate_bound n x i

pub length-replicate : (n x : ℕ) → length (replicate n x) ≡ n
length-replicate zero x = refl
length-replicate (suc n) x = ap (λ n. suc n) (length-replicate n x)

pub highest-append :
    (p i : ℕ) (hs ks : List Text) → highest p i (hs ++ ks) ≡ max (highest p i hs) (highest p i ks)
highest-append p i [] ks = ground arith
highest-append p i (h ∷ hs) ks = ground (arith, highest-append p i hs ks)

rest_of : (a b : Bool) → a ≡ false → (a || b) ≡ true → b ≡ true
rest_of true b h k = ground arith
rest_of false b h k = k

or_true : (a b : Bool) → b ≡ true → (a || b) ≡ true
or_true true b h = refl
or_true false b h = h

or_first : (a b : Bool) → a ≡ true → (a || b) ≡ true
or_first a b h = rw h refl

-- A digest among the rest raises the register to its own rank at least.
rank_bound :
    (p i : ℕ) (h : Text) (hs : List Text)
    → contains h hs ≡ true
    → (register_index p h == i) ≡ true
    → hash_rank p h ≤ highest p i hs
rank_bound p i h [] member here = ground arith
rank_bound p i h (k ∷ hs) member here = elim (Bool-cases (same_text h k)) [
  | inl same ↦
      let e = same_text→eq h k same in
      let rank_same = ap (hash_rank p) e in let index_same = ap (register_index p) e in ground arith
  | inr differ ↦
      let other = rest_of (same_text h k) (contains h hs) differ member in
      ground (arith, rank_bound p i h hs other here)
]

-- The register depends only on which digests there are.
highest_mono :
    (p i : ℕ) (hs ks : List Text)
    → ((h : Text) → contains h hs ≡ true → contains h ks ≡ true)
    → highest p i hs ≤ highest p i ks
highest_mono p i [] ks sub = omega arith
highest_mono p i (h ∷ hs) ks sub =
    let rest =
      highest_mono p i hs ks (λ k member. sub k (or_true (same_text k h) (contains k hs) member)) in
    let here =
      rank_bound p i h ks (sub h (or_first (same_text h h) (contains h hs) (same_text_refl h))) in
    elim (Bool-cases (register_index p h == i)) [
      | inl falls ↦ ground (arith, rest, here falls)
      | inr misses ↦ ground (arith, rest)
    ]

pub highest-same :
    (p i : ℕ) (hs ks : List Text)
    → ((h : Text) → contains h hs ≡ contains h ks)
    → highest p i hs ≡ highest p i ks
highest-same p i hs ks same = omega (
  arith,
  highest_mono p i hs ks (λ h member. sym (same h) ∙ member),
  highest_mono p i ks hs (λ h member. same h ∙ member),
)
