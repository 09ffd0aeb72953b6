-- ===== src/Worker/Sketch/Tests.antt =====
-- Accumulators of one or two digests, and registers that are all empty.
use app_health.Prelude.{ℕ, ◌^◌, ◌≡◌, refl, List, [], ◌∷◌, none, some, arith}
use app_health.Js.Strings.{Text, codes}
use app_health.Worker.Sketch.{
  Accumulator, SparseDistinctSketch, dense_registers, is_digest, replicate, dense_decode,
  new_accumulator, add_digests, merge, snapshot,
}
use app_health.Worker.Sketch.Registers.{length-replicate, at-replicate_bound}
use app_health.Worker.Sketch.Decoding.{dense_decode_lem}
use app_health.Worker.Sketch.Adding.{Represents, few}
use app_health.Worker.Sketch.Merging.{merge-Represents}
use app_health.Worker.Sketch.Starting.{new_accumulator-Represents, new_accumulator_forgets}

abbrev ann : Text
ann = codes "ba7816bf8f01cfea414140de5dae2223b00361a396177a9cb410ff61f20015ad"

abbrev bob : Text
bob = codes "248d6a61d20638b8e5c026930c3e6039a33ce45964ff2167f6ecedd419db06c1"

abbrev has : Text → Accumulator
has hash = record { precision = 12; sparse = some (hash ∷ []); dense = none }

new_accumulator-Represents_example :
    (start after : Accumulator) × (new_accumulator 12 none ≡ some start)
    × (add_digests start (ann ∷ bob ∷ ann ∷ []) ≡ some after)
    × Represents 12 after (ann ∷ bob ∷ ann ∷ [])
unfolding is_digest
new_accumulator-Represents_example =
    new_accumulator-Represents 12 (ann ∷ bob ∷ ann ∷ []) (omega arith) (omega arith) refl

merge-Represents_example :
    (sketch : SparseDistinctSketch) × (after : Accumulator) × (snapshot (has bob) ≡ some sketch)
    × (merge (has ann) sketch ≡ some after)
    × Represents 12 after (bob ∷ ann ∷ [])
unfolding is_digest
merge-Represents_example =
    merge-Represents 12 (has ann) (has bob) (ann ∷ []) (bob ∷ []) (omega arith) (omega arith)
      (few (ann ∷ []) (ann ∷ []) refl (λ k. refl) (omega arith))
      (few (bob ∷ []) (bob ∷ []) refl (λ k. refl) (omega arith))

abbrev saved : List ℕ
saved = replicate (2 ^ 10) 7

dense_decode-saved : dense_decode saved 10 ≡ some saved
dense_decode-saved =
    dense_decode_lem 10 saved (omega arith) (omega arith) (length-replicate (2 ^ 10) 7)
      (λ i h. omega (arith, at-replicate_bound (2 ^ 10) 7 i))

new_accumulator_forgets_example :
    (start fresh : Accumulator) × (new_accumulator 10
        (some (record { precision = 10; registers = dense_registers saved }))
      ≡ some start)
    × (new_accumulator 10 none ≡ some fresh)
    × (snapshot start ≡ snapshot fresh)
new_accumulator_forgets_example =
    new_accumulator_forgets 10 saved saved (omega arith) (omega arith) dense_decode-saved
