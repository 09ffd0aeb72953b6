-- ===== src/Worker/Sketch/Merging.antt =====
-- `merge` of a snapshot joins what two accumulators stand for.
use app_health.Prelude.{
  ℕ, ◌+◌, ◌-◌, ◌^◌, ◌≤◌, ◌<◌, ◌≡◌, refl, sym, ◌∙◌, ap, Bool, true, false, ◌||◌, List, [], ◌∷◌, ◌++◌,
  none, some, ◌==◌, length, all, arith, and_parts,
}
use app_health.Js.Strings.{Text, same_text, join}
use app_health.Js.Strings.Sorting.{sort, all-sort, any-sort}
use app_health.Worker.Sketch.{
  Accumulator, SparseDistinctSketch, sparse_registers, dense_registers, is_digest, contains,
  add_to_set, set_from, sparse_decode, dense_decode, add_digests, larger, merge, snapshot,
}
use app_health.Worker.Sketch.Registers.{
  at, highest, highest-append, highest-same, at-larger, length-larger,
}
use app_health.Worker.Sketch.Decoding.{sparse_decode-snapshot, highest_bound, dense_decode_lem}
use app_health.Worker.Sketch.Adding.{
  Represents, few, many, contains-add_to_set, all-add_to_set, to_dense-IsDense,
  add_digest-Represents,
}

or_assoc : (a b c : Bool) → ((a || b) || c) ≡ (a || (b || c))
or_assoc true b c = refl
or_assoc false b c = refl

or_swap : (a b c : Bool) → (a || (b || c)) ≡ (b || (a || c))
or_swap true true c = refl
or_swap true false c = refl
or_swap false b c = refl

contains-append :
    (k : Text) (xs ys : List Text) → contains k (xs ++ ys) ≡ (contains k xs || contains k ys)
contains-append k [] ys = refl
contains-append k (x ∷ xs) ys =
    ap (λ b. same_text k x || b) (contains-append k xs ys)
    ∙ sym (or_assoc (same_text k x) (contains k xs) (contains k ys))

-- Accumulators stand for sets: only which digests there are matters.
pub Represents-same :
    (p : ℕ) (a : Accumulator) (hs ks : List Text)
    → ((k : Text) → contains k hs ≡ contains k ks)
    → Represents p a hs
    → Represents p a ks
Represents-same p _ _ ks same (few set digests valid member small) =
    few set ks valid (λ k. member k ∙ same k) small
Represents-same p _ _ ks same (many registers digests size top) =
    many registers ks size (λ i h. top i h ∙ highest-same p i digests ks same)

-- Valid digests are all taken, and the accumulator then stands for them too.
pub add_digests-Represents :
    (p : ℕ) (a : Accumulator) (hashes digests : List Text)
    → 10 ≤ p
    → p ≤ 16
    → all is_digest hashes ≡ true
    → Represents p a digests
    → (after : Accumulator) × (add_digests a hashes ≡ some after)
      × Represents p after (hashes ++ digests)
unfolding add_digests
add_digests-Represents p a [] digests low high valid stands = (a, refl, stands)
add_digests-Represents p a (hash ∷ hashes) digests low high valid stands =
    let (digest, rest) = and_parts (is_digest hash) (all is_digest hashes) valid in
    let (next, e, stands_next) = add_digest-Represents p a hash digests low high digest stands in
    let (after, e', stands_after) =
      add_digests-Represents p next hashes (hash ∷ digests) low high rest stands_next in
    (
      after,
      rw e e',
      Represents-same p after (hashes ++ hash ∷ digests) (hash ∷ hashes ++ digests)
          (λ k.
            contains-append k hashes (hash ∷ digests)
            ∙ (or_swap (contains k hashes) (same_text k hash) (contains k digests)
                ∙ ap (λ b. same_text k hash || b) (sym (contains-append k hashes digests))))
          stands_after,
    )

contains-set_from :
    (k : Text) (set hashes : List Text)
    → contains k (set_from set hashes) ≡ (contains k hashes || contains k set)
unfolding set_from
contains-set_from k set [] = refl
contains-set_from k set (hash ∷ hashes) =
    contains-set_from k (add_to_set set hash) hashes
    ∙ (ap (λ b. contains k hashes || b) (contains-add_to_set k hash set)
        ∙ (or_swap (contains k hashes) (same_text k hash) (contains k set)
            ∙ sym (or_assoc (same_text k hash) (contains k hashes) (contains k set))))

all-set_from :
    (set hashes : List Text)
    → all is_digest set ≡ true
    → all is_digest hashes ≡ true
    → all is_digest (set_from set hashes) ≡ true
unfolding set_from
all-set_from set [] valid valid' = valid
all-set_from set (hash ∷ hashes) valid valid' =
    let (digest, rest) = and_parts (is_digest hash) (all is_digest hashes) valid' in
    all-set_from (add_to_set set hash) hashes (all-add_to_set hash set digest valid) rest

-- The registers of both, the larger in each place, stand for both sets.
larger-stands :
    (p : ℕ) (registers incoming : List ℕ) (hs ks : List Text)
    → length registers ≡ 2 ^ p
    → length incoming ≡ 2 ^ p
    → ((i : ℕ) → i < 2 ^ p → at registers i ≡ highest p i hs)
    → ((i : ℕ) → i < 2 ^ p → at incoming i ≡ highest p i ks)
    → Represents p
        (record { precision = p; sparse = none; dense = some (larger registers incoming) })
        (ks ++ hs)
larger-stands p registers incoming hs ks size size' top top' =
    many (larger registers incoming) (ks ++ hs) (length-larger registers incoming ∙ size) (λ i h.
      omega (
        arith,
        at-larger registers incoming i (size ∙ sym size'),
        top i h,
        top' i h,
        highest-append p i ks hs,
      ))

pub same_number : (n : ℕ) → (n == n) ≡ true
same_number n = ground arith

or_none : (b : Bool) → (b || false) ≡ b
or_none true = refl
or_none false = refl

precision-Represents :
    (p : ℕ) (a : Accumulator) (hs : List Text) → Represents p a hs → a.precision ≡ p
precision-Represents p _ _ (few set hs valid member small) = refl
precision-Represents p _ _ (many registers hs size top) = refl

merge_sparse_steps :
    (p : ℕ) (a : Accumulator) (text : Text) (hashes : List Text)
    → a.precision ≡ p
    → sparse_decode text ≡ some hashes
    → merge a (record { precision = p; registers = sparse_registers text }) ≡ add_digests a hashes
unfolding merge
merge_sparse_steps p a text hashes same decodes = rw (same, same_number p, decodes) refl

merge_dense :
    (p : ℕ) (a : Accumulator) (incoming : List ℕ) (hs ks : List Text)
    → 10 ≤ p
    → p ≤ 16
    → Represents p a hs
    → length incoming ≡ 2 ^ p
    → ((i : ℕ) → i < 2 ^ p → at incoming i ≡ highest p i ks)
    → dense_decode incoming p ≡ some incoming
    → (after : Accumulator) × (merge a
          (record { precision = p; registers = dense_registers incoming })
        ≡ some after)
      × Represents p after (ks ++ hs)
unfolding merge
merge_dense p _ incoming _ ks low high (few set hs valid member small) size' top' decodes =
    let start : Accumulator = record { precision = p; sparse = some set; dense = none } in
    let (registers, e, dense) = to_dense-IsDense p start set hs refl low high valid member in
    (
      record { precision = p; sparse = none; dense = some (larger registers incoming) },
      rw (decodes, e, same_number p) refl,
      larger-stands p registers incoming hs ks dense.size size' dense.top top',
    )
merge_dense p _ incoming _ ks low high (many registers hs size top) size' top' decodes = (
  record { precision = p; sparse = none; dense = some (larger registers incoming) },
  rw (decodes, same_number p) refl,
  larger-stands p registers incoming hs ks size size' top top',
)

merge_sparse :
    (p : ℕ) (a : Accumulator) (text : Text) (hashes hs ks : List Text)
    → 10 ≤ p
    → p ≤ 16
    → Represents p a hs
    → sparse_decode text ≡ some hashes
    → all is_digest hashes ≡ true
    → ((k : Text) → contains k hashes ≡ contains k ks)
    → (after : Accumulator) × (merge a (record { precision = p; registers = sparse_registers text })
        ≡ some after)
      × Represents p after (ks ++ hs)
merge_sparse p a text hashes hs ks low high stands decodes valid member =
    let (after, e, stands') = add_digests-Represents p a hashes hs low high valid stands in
    (
      after,
      merge_sparse_steps p a text hashes (precision-Represents p a hs stands) decodes ∙ e,
      Represents-same p after (hashes ++ hs) (ks ++ hs)
          (λ k.
            contains-append k hashes hs
            ∙ (ap (λ b. b || contains k hs) (member k) ∙ sym (contains-append k ks hs)))
          stands',
    )

-- Merging what another accumulator saved never fails, and joins the sets of digests that the two
-- stand for, whichever of them are still exact.
pub merge-Represents :
    (p : ℕ) (a b : Accumulator) (hs ks : List Text)
    → 10 ≤ p
    → p ≤ 16
    → Represents p a hs
    → Represents p b ks
    → (sketch : SparseDistinctSketch) × (after : Accumulator) × (snapshot b ≡ some sketch)
      × (merge a sketch ≡ some after)
      × Represents p after (ks ++ hs)
unfolding snapshot
merge-Represents p a _ hs _ low high stands (few set ks valid member small) =
    let sketch : SparseDistinctSketch = record {
      precision = p;
      registers = sparse_registers (join b',' (sort set));
    } in
    let sorted = set_from [] (sort set) in
    let (after, e, stands') =
      merge_sparse p a (join b',' (sort set)) sorted hs ks low high stands
        (sparse_decode-snapshot set small valid)
        (all-set_from [] (sort set) refl (all-sort is_digest set valid))
        (λ k.
          contains-set_from k [] (sort set)
          ∙ (or_none (contains k (sort set)) ∙ (any-sort (λ h. same_text k h) set ∙ member k))) in
    (sketch, after, refl, e, stands')
merge-Represents p a _ hs _ low high stands (many registers ks size top) =
    let bounded : (i : ℕ) → i < length registers → at registers i ≤ 64 - p + 1 =
      λ i h. omega (arith, top i (omega (arith, size)), highest_bound p i ks) in
    let decodes = dense_decode_lem p registers low high size bounded in
    let (after, e, stands') = merge_dense p a registers hs ks low high stands size top decodes in
    (record { precision = p; registers = dense_registers registers }, after, refl, e, stands')
