-- ===== src/Worker/Sketch/Adding.antt =====
-- What an accumulator stands for, and that `addDigest` adds a digest to that.
use app_health.Prelude.{
  ℕ, ◌^◌, ◌≤◌, ◌<◌, max, ◌≡◌, refl, ◌∙◌, ap, Bool, true, false, ◌||◌, List, [], ◌∷◌, ◌++◌, none,
  some, ltb, leb, length, all, all-append, arith, Bool-cases, inl, inr, and_parts, if_elim, leb→le,
}
use app_health.Js.Strings.{Text, same_text}
use app_health.Js.Strings.Equality.{same_text→eq}
use app_health.Worker.Sketch.{
  Accumulator, is_digest, raise, register_index, hash_rank, contains, replicate, registers_for,
  apply_hash, apply_all, add_to_set, sparse_limit, to_dense, add_digest,
}
use app_health.Worker.Sketch.Registers.{
  at, highest, highest-same, at-raise, length-raise, at-replicate, length-replicate,
}

-- The accumulator stands for the set of the digests: as that set while it has at most 256 of them, or
-- as registers, each of which holds the largest rank of a digest that falls in it.
pub data Represents (precision : ℕ) : Accumulator → List Text → Type 0 where
  few :
      (set digests : List Text)
      → all is_digest set ≡ true
      → ((hash : Text) → contains hash set ≡ contains hash digests)
      → length set ≤ sparse_limit
      → Represents precision
          (record { precision = precision; sparse = some set; dense = none })
          digests
  many :
      (registers : List ℕ) (digests : List Text)
      → length registers ≡ 2 ^ precision
      → ((i : ℕ) → i < 2 ^ precision → at registers i ≡ highest precision i digests)
      → Represents precision
          (record { precision = precision; sparse = none; dense = some registers })
          digests

pub registers_for_lem : (p : ℕ) → 10 ≤ p → p ≤ 16 → registers_for p ≡ some (replicate (2 ^ p) 0)
unfolding registers_for
registers_for_lem p low high =
    if_elim (λ o. o ≡ some (replicate (2 ^ p) 0)) (ltb p 10 || ltb 16 p) (λ out. ground arith)
      (λ within. refl)

contains-append :
    (k h : Text) (set : List Text) → contains k (set ++ h ∷ []) ≡ (same_text k h || contains k set)
contains-append k h [] = refl
contains-append k h (s ∷ set) =
    rw (contains-append k h set) (or_swap (same_text k s) (same_text k h) (contains k set))
  where
    or_swap : (a b c : Bool) → (a || (b || c)) ≡ (b || (a || c))
    or_swap true b c = ground arith
    or_swap false b c = refl

-- A set to which a digest was added contains what it did and the digest.
pub contains-add_to_set :
    (k h : Text) (set : List Text)
    → contains k (add_to_set set h) ≡ (same_text k h || contains k set)
unfolding add_to_set
contains-add_to_set k h set = elim (Bool-cases (contains h set)) [
  | inl there ↦ rw there (elim (Bool-cases (same_text k h)) [
    | inl same ↦ rw same (ap (λ k. contains k set) (same_text→eq k h same) ∙ there)
    | inr differ ↦ rw differ refl
  ])
  | inr absent ↦ rw absent (contains-append k h set)
]

pub all-add_to_set :
    (h : Text) (set : List Text)
    → is_digest h ≡ true
    → all is_digest set ≡ true
    → all is_digest (add_to_set set h) ≡ true
unfolding add_to_set
all-add_to_set h set digest digests =
    if_elim (λ s. all is_digest s ≡ true) (contains h set) (λ there. digests)
      (λ absent. all-append is_digest set (h ∷ []) digests (rw digest refl))

-- The registers after a loop of `apply_hash` over digests.
pub record IsApplied (precision : ℕ) (registers : List ℕ) (digests : List Text) (after : List ℕ)
    : Type 0 where
  same_length : length after ≡ length registers
  raised :
      (i : ℕ)
      → i < length registers
      → at after i ≡ max (at registers i) (highest precision i digests)

pub apply_hash_lem :
    (p : ℕ) (registers : List ℕ) (hash : Text)
    → is_digest hash ≡ true
    → apply_hash registers p hash
      ≡ some (raise registers (register_index p hash) (hash_rank p hash))
unfolding apply_hash
apply_hash_lem p registers hash digest = rw digest refl

pub apply_all-IsApplied :
    (p : ℕ) (registers : List ℕ) (digests : List Text)
    → all is_digest digests ≡ true
    → (after : List ℕ) × (apply_all registers p digests ≡ some after)
      × IsApplied p registers digests after
unfolding apply_all
apply_all-IsApplied p registers [] digests =
    (registers, refl, record { same_length = refl; raised = λ i h. ground arith })
apply_all-IsApplied p registers (hash ∷ hashes) digests =
    let (digest, rest) = and_parts (is_digest hash) (all is_digest hashes) digests in
    let next = raise registers (register_index p hash) (hash_rank p hash) in
    let (after, e, applied) = apply_all-IsApplied p next hashes rest in
    let kept = length-raise registers (register_index p hash) (hash_rank p hash) in
    (
      after,
      rw (apply_hash_lem p registers hash digest) e,
      record {
        same_length = applied.same_length ∙ kept;
        raised = λ i h.
            let later = applied.raised i (omega (arith, kept)) in
            let first = at-raise registers (register_index p hash) (hash_rank p hash) i h in
            ground arith;
      },
    )

to_dense_steps :
    (p : ℕ) (a : Accumulator) (set : List Text) (after : List ℕ)
    → a.precision ≡ p
    → 10 ≤ p
    → p ≤ 16
    → apply_all (replicate (2 ^ p) 0) p set ≡ some after
    → to_dense a set ≡ some (record { precision = p; sparse = none; dense = some after })
unfolding to_dense
to_dense_steps p a set after same low high e = rw (same, registers_for_lem p low high, e) refl

-- What stands for a set as registers.
pub record IsDense (precision : ℕ) (digests : List Text) (registers : List ℕ) : Type 0 where
  pub size : length registers ≡ 2 ^ precision
  pub top : (i : ℕ) → i < 2 ^ precision → at registers i ≡ highest precision i digests

-- The registers of all digests of the set stand for it.
pub to_dense-IsDense :
    (p : ℕ) (a : Accumulator) (set digests : List Text)
    → a.precision ≡ p
    → 10 ≤ p
    → p ≤ 16
    → all is_digest set ≡ true
    → ((hash : Text) → contains hash set ≡ contains hash digests)
    → (after : List ℕ) × (to_dense a set
        ≡ some (record { precision = p; sparse = none; dense = some after }))
      × IsDense p digests after
to_dense-IsDense p a set digests same low high valid member =
    let (after, e, applied) = apply_all-IsApplied p (replicate (2 ^ p) 0) set valid in
    let full = length-replicate (2 ^ p) 0 in
    (
      after,
      to_dense_steps p a set after same low high e,
      record {
        size = applied.same_length ∙ full;
        top = λ i h.
            let raised = applied.raised i (omega (arith, full)) in
            let zero_there = at-replicate (2 ^ p) i in
            omega (arith, raised, zero_there, highest-same p i set digests member);
      },
    )

-- A valid digest is always taken, and the accumulator then stands for one more digest.
pub add_digest-Represents :
    (p : ℕ) (a : Accumulator) (hash : Text) (digests : List Text)
    → 10 ≤ p
    → p ≤ 16
    → is_digest hash ≡ true
    → Represents p a digests
    → (after : Accumulator) × (add_digest a hash ≡ some after) × Represents p after (hash ∷ digests)
unfolding add_digest
add_digest-Represents p _ hash _ low high digest (few set digests valid member small) =
    let added = add_to_set set hash in
    let member' : (k : Text) → contains k added ≡ contains k (hash ∷ digests) =
      λ k. contains-add_to_set k hash set ∙ ap (λ b. same_text k hash || b) (member k) in
    let valid' = all-add_to_set hash set digest valid in
    elim (Bool-cases (leb (length added) sparse_limit)) [
      | inl fits ↦ (
        record { precision = p; sparse = some added; dense = none },
        rw (digest, fits) refl,
        few added (hash ∷ digests) valid' member' (leb→le (length added) sparse_limit fits),
      )
      | inr full ↦
          let start : Accumulator = record { precision = p; sparse = some set; dense = none } in
          let (after, e, dense) =
            to_dense-IsDense p start added (hash ∷ digests) refl low high valid' member' in
          (
            record { precision = p; sparse = none; dense = some after },
            rw (digest, full) e,
            many after (hash ∷ digests) dense.size dense.top,
          )
    ]
add_digest-Represents p _ hash _ low high digest (many registers digests size top) =
    let next = raise registers (register_index p hash) (hash_rank p hash) in
    (
      record { precision = p; sparse = none; dense = some next },
      rw (digest, apply_hash_lem p registers hash digest) refl,
      many next (hash ∷ digests)
          (length-raise registers (register_index p hash) (hash_rank p hash) ∙ size)
          (λ i h.
            let here =
              at-raise registers (register_index p hash) (hash_rank p hash) i
                (omega (arith, size)) in
            ground (arith, here, top i h)),
    )
