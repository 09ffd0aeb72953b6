-- ===== src/Node/Batching/Laws.antt =====
-- What batch-size.ts promises: a prefix within both limits, and the longest one.
use app_health.Prelude.{
  ℕ, suc, ◌+◌, refl, ◌-◌, ◌≤◌, ◌<◌, ◌≡◌, ◌⊎◌, inl, inr, true, false, ◌||◌, List, [], ◌∷◌, ◌++◌,
  arith, ltb, leb, take, drop, length, length-append, take-append-drop, Bool-cases, ap,
}
use native.Mathlib.Nat.{sub_self, sub-zero}
use app_health.Node.Batching.{envelope_bytes, fitting, take_sized_batch}

module _ {ℓ} {A : Type ℓ} (encoded : A → ℕ) (limit byte_limit : ℕ) where
  -- The bytes that a list of items takes in a batch, a separator after each.
  abbrev pub footprint : List A → ℕ
  footprint [] = 0
  footprint (x ∷ xs) = encoded x + 1 + footprint xs

  -- The next item would break a limit.
  abbrev pub IsFull : ℕ → ℕ → List A → Type 0
  IsFull bytes count [] = Unit {0}
  IsFull bytes count (x ∷ xs) = (limit ≤ count) ⊎ (byte_limit < bytes + (encoded x + 1))

  -- `batch` is what the limits let through of `batch ++ rest`, with `bytes` and `count` used before.
  pub record IsLongest (bytes count : ℕ) (batch rest : List A) : Type 0 where
    pub few : length batch ≤ limit - count
    pub small : footprint batch ≤ byte_limit - bytes
    pub full : IsFull (bytes + footprint batch) (count + length batch) rest

  fitting-ge :
      (bytes count : ℕ) (queue : List A)
      → count ≤ fitting encoded limit byte_limit bytes count queue
  unfolding fitting
  fitting-ge bytes count [] = omega arith
  fitting-ge bytes count (x ∷ xs) =
      ground (arith, fitting-ge (bytes + (encoded x + 1)) (count + 1) xs)

  IsLongest-stop :
      (bytes count : ℕ) (x : A) (xs : List A)
      → (leb limit count || ltb byte_limit (bytes + (encoded x + 1))) ≡ true
      → IsLongest bytes count [] (x ∷ xs)
  IsLongest-stop bytes count x xs h = record {
    few = omega arith;
    small = omega arith;
    full = ground arith;
  }

  IsLongest-more :
      (bytes count : ℕ) (x : A) (batch rest : List A)
      → (leb limit count || ltb byte_limit (bytes + (encoded x + 1))) ≡ false
      → IsLongest (bytes + (encoded x + 1)) (count + 1) batch rest
      → IsLongest bytes count (x ∷ batch) rest
  IsLongest-more bytes count x batch rest h l = record {
    few = ground (arith, l.few);
    small = ground (arith, l.small);
    full = rw (bytes_assoc, count_assoc) l.full;
  }
    where
      bytes_assoc : bytes + footprint (x ∷ batch) ≡ bytes + (encoded x + 1) + footprint batch
      bytes_assoc = omega arith

      count_assoc : count + length (x ∷ batch) ≡ count + 1 + length batch
      count_assoc = omega arith

  fitting-IsLongest :
      (bytes count : ℕ) (queue : List A)
      → let taken = fitting encoded limit byte_limit bytes count queue - count in
        IsLongest bytes count (take taken queue) (drop taken queue)
  unfolding fitting
  fitting-IsLongest bytes count [] =
      rw (sub_self count) (record { few = omega arith; small = omega arith; full = tt })
  fitting-IsLongest bytes count (x ∷ xs) =
      elim (Bool-cases (leb limit count || ltb byte_limit (bytes + (encoded x + 1)))) [
        | inl stop ↦ rw (stop, sub_self count) (IsLongest-stop bytes count x xs stop)
        | inr go ↦
            rw (go, one_more)
              (IsLongest-more bytes count x _ _ go
                (fitting-IsLongest (bytes + (encoded x + 1)) (count + 1) xs))
      ]
    where
      later : ℕ
      later = fitting encoded limit byte_limit (bytes + (encoded x + 1)) (count + 1) xs

      one_more : later - count ≡ suc (later - (count + 1))
      one_more = omega (arith, fitting-ge (bytes + (encoded x + 1)) (count + 1) xs)

  -- The batch and the remaining queue are the queue in order; the batch has at most `limit` items
  -- and leaves room for the envelope within `byte_limit`; and if anything remains, then the batch
  -- has `limit` items or the next item would not fit any more.
  pub take_sized_batch-IsLongest :
      (queue : List A)
      → let (batch, rest) = take_sized_batch encoded limit byte_limit queue in
        (batch ++ rest ≡ queue) × IsLongest envelope_bytes 0 batch rest
  unfolding take_sized_batch
  take_sized_batch-IsLongest queue =
      (take-append-drop _ queue, rw sub-zero at (fitting-IsLongest envelope_bytes 0 queue))

  -- An item that fits in a request of its own is taken, so that a queue that starts with one shrinks.
  pub take_sized_batch_progress :
      (x : A) (queue : List A)
      → 0 < limit
      → envelope_bytes + (encoded x + 1) ≤ byte_limit
      → (xs : List A) × ((take_sized_batch encoded limit byte_limit (x ∷ queue)).0 ≡ x ∷ xs)
  unfolding take_sized_batch
  take_sized_batch_progress x queue h fits =
      (take (later - 1) queue, rw opens (ap (λ n. take n (x ∷ queue)) later_suc))
    where
      later : ℕ
      later = fitting encoded limit byte_limit (envelope_bytes + (encoded x + 1)) 1 queue

      opens : (leb limit 0 || ltb byte_limit (envelope_bytes + (encoded x + 1))) ≡ false
      opens = ground arith

      later_suc : later ≡ suc (later - 1)
      later_suc = omega (arith, fitting-ge (envelope_bytes + (encoded x + 1)) 1 queue)

  pub length-take_sized_batch :
      (queue : List A)
      → let (batch, rest) = take_sized_batch encoded limit byte_limit queue in
        length batch + length rest ≡ length queue
  length-take_sized_batch queue =
      let (batch, rest) = take_sized_batch encoded limit byte_limit queue in
      omega (arith, length-append batch rest, ap length (take_sized_batch-IsLongest queue).0)

  pub take_sized_batch_rest :
      (queue : List A)
      → (n : ℕ) × ((take_sized_batch encoded limit byte_limit queue).1 ≡ drop n queue)
  unfolding take_sized_batch
  take_sized_batch_rest queue = (fitting encoded limit byte_limit envelope_bytes 0 queue, refl)
