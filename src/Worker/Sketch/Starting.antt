-- ===== src/Worker/Sketch/Starting.antt =====
-- How an accumulator starts: empty, or from a sketch that was saved.
use app_health.Prelude.{
  ℕ, ◌≤◌, ◌≡◌, refl, true, List, [], append-nil, none, some, all, arith, subst,
}
use app_health.Js.Strings.{Text}
use app_health.Worker.Sketch.{
  Accumulator, dense_registers, is_digest, dense_decode, new_accumulator, add_digests, snapshot,
}
use app_health.Worker.Sketch.Adding.{Represents, few, registers_for_lem}
use app_health.Worker.Sketch.Merging.{add_digests-Represents, same_number}

-- At any supported precision an accumulator can be made, it takes every valid digest, and then it
-- stands for just the digests it was given, however often and in whatever order they came.
pub new_accumulator-Represents :
    (p : ℕ) (hashes : List Text)
    → 10 ≤ p
    → p ≤ 16
    → all is_digest hashes ≡ true
    → (start after : Accumulator) × (new_accumulator p none ≡ some start)
      × (add_digests start hashes ≡ some after)
      × Represents p after hashes
unfolding new_accumulator
new_accumulator-Represents p hashes low high valid =
    let start : Accumulator = record { precision = p; sparse = some []; dense = none } in
    let empty = few [] [] refl (λ k. refl) (omega arith) in
    let (after, e, stands) = add_digests-Represents p start hashes [] low high valid empty in
    (
      start,
      after,
      rw (registers_for_lem p low high) refl,
      e,
      subst (Represents p after) (append-nil hashes) stands,
    )

-- A saved dense sketch that is valid is accepted as a start, but what it counted is lost: the
-- accumulator saves what an empty one does.
pub new_accumulator_forgets :
    (p : ℕ) (bytes registers : List ℕ)
    → 10 ≤ p
    → p ≤ 16
    → dense_decode bytes p ≡ some registers
    → (start fresh : Accumulator) × (new_accumulator p
          (some (record { precision = p; registers = dense_registers bytes }))
        ≡ some start)
      × (new_accumulator p none ≡ some fresh)
      × (snapshot start ≡ snapshot fresh)
unfolding new_accumulator snapshot
new_accumulator_forgets p bytes registers low high decodes = (
  record { precision = p; sparse = some []; dense = some registers },
  record { precision = p; sparse = some []; dense = none },
  rw (registers_for_lem p low high, same_number p, decodes) refl,
  rw (registers_for_lem p low high) refl,
  refl,
)
