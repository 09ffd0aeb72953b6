-- ===== src/Node/Batching/Tests.antt =====
-- The theorems on batch-size.ts at items that are their own size.
use app_health.Prelude.{ℕ, ◌≡◌, refl, List, [], ◌∷◌, ◌++◌}
use app_health.Node.Batching.{envelope_bytes, take_sized_batch}
use app_health.Node.Batching.Laws.{IsLongest, take_sized_batch-IsLongest}

abbrev own_size : ℕ → ℕ
own_size n = n

abbrev waiting : List ℕ
waiting = 500 ∷ 400 ∷ 300 ∷ []

take_sized_batch_tests :
    (take_sized_batch own_size 10 2048 waiting ≡ (500 ∷ 400 ∷ [], 300 ∷ []))
    × (take_sized_batch own_size 1 2048 waiting ≡ (500 ∷ [], 400 ∷ 300 ∷ []))
    × (take_sized_batch own_size 10 1500 waiting ≡ ([], waiting))
unfolding take_sized_batch
take_sized_batch_tests = (refl, refl, refl)

take_sized_batch-IsLongest_example :
    let (batch, rest) = take_sized_batch own_size 10 2048 waiting in
    (batch ++ rest ≡ waiting) × IsLongest own_size 10 2048 envelope_bytes 0 batch rest
take_sized_batch-IsLongest_example = take_sized_batch-IsLongest own_size 10 2048 waiting
