-- ===== src/Node/Batching.antt =====
-- packages/node/src/batch-size.ts: the items at the front of a queue that fit in one request.
pub mod Laws
mod Tests
use app_health.Prelude.{ℕ, ◌+◌, ◌*◌, Bool, ◌||◌, List, [], ◌∷◌, ltb, leb, if◌then◌else◌, take, drop}

-- Bytes kept for the envelope of a batch.
abbrev pub envelope_bytes : ℕ
envelope_bytes = 1024

-- The default of `byteLimit`: the collector's body limit.
abbrev pub body_limit : ℕ
body_limit = 256 * 1024

-- `encoded` gives the bytes of an item's JSON text in UTF-8.
module _ {ℓ} {A : Type ℓ} (encoded : A → ℕ) (limit byte_limit : ℕ) where
  -- The loop over the queue: `bytes` used and `count` items taken so far.
  unfoldable pub fitting : ℕ → ℕ → List A → ℕ
  fitting bytes count [] = count
  fitting bytes count (item ∷ queue) =
      let size = encoded item + 1 in
      let more = fitting (bytes + size) (count + 1) queue in
      if leb limit count || ltb byte_limit (bytes + size) then count else more

  -- The batch, and what `splice` leaves in the queue.
  unfoldable pub take_sized_batch : List A → List A × List A
  unfolding fitting
  take_sized_batch queue =
      let count = fitting envelope_bytes 0 queue in (take count queue, drop count queue)
