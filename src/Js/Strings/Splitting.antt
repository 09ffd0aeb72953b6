-- ===== src/Js/Strings/Splitting.antt =====
-- `split` and `join` undo each other, and what a test on the code units says of the parts.
use app_health.Prelude.{
  ℕ, ◌≡◌, refl, ap, ◌∙◌, Bool, true, false, not, List, [], ◌∷◌, ◌++◌, ◌==◌, if◌then◌else◌, all,
  arith, if_elim, and_parts, and_true, Bool-cases, not-true, drop, get_elem?, returned, some, ◌&&◌,
  all-append, inl, inr,
}
use app_health.Js.Strings.{Text, split, join, before_mark}

-- The text does not hold the code unit.
abbrev pub lacks : ℕ → Text → Bool
lacks mark = all (λ c. not (c == mark))

unfoldable add_unit : ℕ → List Text → List Text
add_unit c [] = (c ∷ []) ∷ []
add_unit c (part ∷ rest) = (c ∷ part) ∷ rest

add_unit_one :
    (c : ℕ) (part : Text) (rest : List Text) → add_unit c (part ∷ rest) ≡ (c ∷ part) ∷ rest
unfolding add_unit
add_unit_one c part rest = refl

split_unit :
    (mark c : ℕ) (cs : Text)
    → (c == mark) ≡ false
    → split mark (c ∷ cs) ≡ add_unit c (split mark cs)
unfolding split add_unit
split_unit mark c cs h = rw h refl

pub split_mark :
    (mark c : ℕ) (cs : Text) → (c == mark) ≡ true → split mark (c ∷ cs) ≡ [] ∷ split mark cs
unfolding split
split_mark mark c cs h = rw h refl

all-add_unit :
    (p : ℕ → Bool) (c : ℕ) (parts : List Text)
    → p c ≡ true
    → all (all p) parts ≡ true
    → all (all p) (add_unit c parts) ≡ true
unfolding add_unit
all-add_unit p c [] pc h = rw pc refl
all-add_unit p c (part ∷ rest) pc h = rw pc h

split_nil : (mark : ℕ) → split mark [] ≡ [] ∷ []
unfolding split
split_nil mark = refl

-- A cut text has a first part.
pub split_parts :
    (mark : ℕ) (s : Text) → (part : Text) × (rest : List Text) × (split mark s ≡ part ∷ rest)
split_parts mark [] = ([], [], split_nil mark)
split_parts mark (c ∷ cs) = elim (Bool-cases (c == mark)) [
  | inl here ↦ ([], split mark cs, split_mark mark c cs here)
  | inr there ↦
      let (part, rest, e) = split_parts mark cs in
      (c ∷ part, rest, split_unit mark c cs there ∙ (ap (add_unit c) e ∙ add_unit_one c part rest))
]

-- A test that every code unit passes, every code unit of the parts passes.
pub all-split :
    (p : ℕ → Bool) (mark : ℕ) (s : Text) → all p s ≡ true → all (all p) (split mark s) ≡ true
all-split p mark [] h = unfold split in refl
all-split p mark (c ∷ cs) h =
    let (pc, rest) = and_parts (p c) (all p cs) h in
    elim (Bool-cases (c == mark)) [
      | inl here ↦ rw (split_mark mark c cs here) (all-split p mark cs rest)
      | inr there ↦
          rw (split_unit mark c cs there)
            (all-add_unit p c (split mark cs) pc (all-split p mark cs rest))
    ]

-- No part holds the mark.
pub lacks-split : (mark : ℕ) (s : Text) → all (lacks mark) (split mark s) ≡ true
lacks-split mark [] = unfold split in refl
lacks-split mark (c ∷ cs) = elim (Bool-cases (c == mark)) [
  | inl here ↦ rw (split_mark mark c cs here) (lacks-split mark cs)
  | inr there ↦
      rw (split_unit mark c cs there) (
        all-add_unit (λ d. not (d == mark)) c (split mark cs) (rw there refl) (lacks-split mark cs))
]

join_one : (mark : ℕ) (part : Text) → join mark (part ∷ []) ≡ part
unfolding join
join_one mark part = refl

pub join_next :
    (mark : ℕ) (part next : Text) (rest : List Text)
    → join mark (part ∷ next ∷ rest) ≡ part ++ mark ∷ join mark (next ∷ rest)
unfolding join
join_next mark part next rest = refl

-- A test that the mark and every code unit of the parts pass, every code unit of the text passes.
pub all-join :
    (p : ℕ → Bool) (mark : ℕ) (parts : List Text)
    → p mark ≡ true
    → all (all p) parts ≡ true
    → all p (join mark parts) ≡ true
all-join p mark [] pm h = unfold join in refl
all-join p mark (part ∷ []) pm h = rw (join_one mark part) (and_parts (all p part) true h).0
all-join p mark (part ∷ next ∷ rest) pm h =
    let (here, later) = and_parts (all p part) (all (all p) (next ∷ rest)) h in
    rw (join_next mark part next rest) (
      all-append p part (mark ∷ join mark (next ∷ rest)) here
        (rw pm (all-join p mark (next ∷ rest) pm later)))

pub join_unit :
    (mark c : ℕ) (cs : Text) (parts : List Text)
    → join mark ((c ∷ cs) ∷ parts) ≡ c ∷ join mark (cs ∷ parts)
unfolding join
join_unit mark c cs [] = refl
join_unit mark c cs (part ∷ parts) = refl

-- Parts that do not hold the mark come back when the joined text is cut.
pub split-join :
    (mark : ℕ) (part : Text) (parts : List Text)
    → all (lacks mark) (part ∷ parts) ≡ true
    → split mark (join mark (part ∷ parts)) ≡ part ∷ parts
split-join mark [] [] h = unfold split join in refl
split-join mark [] (next ∷ rest) h = rw (join_next mark [] next rest) (
    split_mark mark mark (join mark (next ∷ rest)) (ground arith)
    ∙ ap (◌∷◌ []) (split-join mark next rest h))
split-join mark (c ∷ cs) parts h =
    let (this, others) = and_parts (lacks mark (c ∷ cs)) (all (lacks mark) parts) h in
    let (other, kept) = and_parts (not (c == mark)) (lacks mark cs) this in
    rw
      (
        join_unit mark c cs parts,
        split_unit mark c (join mark (cs ∷ parts)) (not-true (c == mark) other),
      )
      (ap (add_unit c)
          (split-join mark cs parts (and_true (lacks mark cs) (all (lacks mark) parts) kept others))
        ∙ add_unit_one c cs parts)

before_mark_unit :
    (mark c : ℕ) (cs : Text)
    → before_mark mark (c ∷ cs) ≡ (if c == mark then [] else (c ∷ before_mark mark cs))
unfolding before_mark
before_mark_unit mark c cs = refl

-- What is kept before the mark does not hold it.
pub lacks-before_mark : (mark : ℕ) (s : Text) → lacks mark (before_mark mark s) ≡ true
lacks-before_mark mark [] = unfold before_mark in refl
lacks-before_mark mark (c ∷ cs) = rw (before_mark_unit mark c cs) (
    if_elim (λ s. lacks mark s ≡ true) (c == mark) (λ here. refl)
      (λ there. rw there (lacks-before_mark mark cs)))

pub all-before_mark :
    (p : ℕ → Bool) (mark : ℕ) (s : Text) → all p s ≡ true → all p (before_mark mark s) ≡ true
all-before_mark p mark [] h = unfold before_mark in refl
all-before_mark p mark (c ∷ cs) h =
    let (pc, rest) = and_parts (p c) (all p cs) h in
    rw (before_mark_unit mark c cs) (
      if_elim (λ s. all p s ≡ true) (c == mark) (λ here. refl)
        (λ there. rw pc (all-before_mark p mark cs rest)))

-- Where the parts before the first mark end, two equal texts are cut at the same place.
pub lacks_before :
    (mark : ℕ) (a b r s : Text)
    → lacks mark a ≡ true
    → lacks mark b ≡ true
    → a ++ mark ∷ r ≡ b ++ mark ∷ s
    → (a ≡ b) × (r ≡ s)
lacks_before mark [] [] r s ha hb same = (refl, ap (drop 1) same)
lacks_before mark [] (d ∷ b) r s ha hb same =
    let first : some mark ≡ some d = ap (λ t. get_elem? t 0) same in
    returned (λ x. (not (x == mark) && lacks mark b) ≡ true → ([] ≡ d ∷ b) × (r ≡ s)) first
      (λ h. ground arith) hb
lacks_before mark (c ∷ a) [] r s ha hb same =
    let first : some c ≡ some mark = ap (λ t. get_elem? t 0) same in
    returned (λ x. (not (c == x) && lacks mark a) ≡ true → (c ∷ a ≡ []) × (r ≡ s)) first
      (λ h. ground arith) ha
lacks_before mark (c ∷ a) (d ∷ b) r s ha hb same =
    let first : some c ≡ some d = ap (λ t. get_elem? t 0) same in
    let (kept, after) =
      lacks_before mark a b r s (and_parts (not (c == mark)) (lacks mark a) ha).1
        (and_parts (not (d == mark)) (lacks mark b) hb).1 (ap (drop 1) same) in
    (returned (λ x. c ∷ a ≡ x ∷ b) first (ap (◌∷◌ c) kept), after)
