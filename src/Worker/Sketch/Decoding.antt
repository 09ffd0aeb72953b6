-- ===== src/Worker/Sketch/Decoding.antt =====
-- That a sketch's own encodings decode.
use app_health.Prelude.{
  ℕ, suc, ◌+◌, ◌-◌, ◌^◌, ◌≤◌, ◌<◌, ◌≡◌, refl, sym, ◌∙◌, ap, true, false, not, ◌||◌, List, [], ◌∷◌,
  some, ltb, ◌==◌, length, all, any, all_weaken, arith, Bool-cases, inl, inr, and_parts, if_elim,
  ==→eq,
}
use app_health.Js.Strings.{Text, split, join}
use app_health.Js.Strings.Sorting.{sort, all-sort, length-sort}
use app_health.Js.Strings.Splitting.{lacks, split-join, join_unit}
use app_health.Worker.Sketch.{
  is_digest, is_digest_unit, set_from, sparse_limit, sparse_decode, dense_decode, hash_rank,
}
use app_health.Worker.Sketch.Registers.{at, highest, length-replicate}
use app_health.Worker.Sketch.Adding.{registers_for_lem}

none_fails :
    (hashes : List Text)
    → all is_digest hashes ≡ true
    → any (λ hash. not (is_digest hash)) hashes ≡ false
none_fails [] valid = refl
none_fails (hash ∷ hashes) valid =
    let (digest, rest) = and_parts (is_digest hash) (all is_digest hashes) valid in
    rw digest (none_fails hashes rest)

lacks-digest : (hash : Text) → is_digest hash ≡ true → lacks b',' hash ≡ true
unfolding is_digest
lacks-digest hash digest =
    let (size, units) = and_parts (length hash == 64) (all is_digest_unit hash) digest in
    all_weaken is_digest_unit (λ c. not (c == b',')) (λ c unit. other_unit c unit) hash units
  where
    other_unit : (c : ℕ) → is_digest_unit c ≡ true → not (c == b',') ≡ true
    other_unit c unit = elim (Bool-cases (c == b',')) [
      | inl comma ↦
          let impossible : true ≡ false = sym unit ∙ ap is_digest_unit (==→eq c b',' comma) in
          ground arith
      | inr differ ↦ rw differ refl
    ]

sparse_decode_steps :
    (c : ℕ) (text : Text) (hashes : List Text)
    → split b',' (c ∷ text) ≡ hashes
    → length hashes ≤ sparse_limit
    → all is_digest hashes ≡ true
    → sparse_decode (c ∷ text) ≡ some (set_from [] hashes)
unfolding sparse_decode
sparse_decode_steps c text hashes parts small valid =
    rw (parts, none_fails hashes valid)
      (if_elim (λ o. o ≡ some (set_from [] hashes)) (ltb sparse_limit (length hashes) || false)
        (λ over. ground arith) (λ within. refl))

-- Joined digests, of which there are not too many, decode to their set.
sparse_decode-join :
    (hashes : List Text)
    → length hashes ≤ sparse_limit
    → all is_digest hashes ≡ true
    → sparse_decode (join b',' hashes) ≡ some (set_from [] hashes)
sparse_decode-join [] small valid = unfold sparse_decode join set_from in refl
sparse_decode-join ([] ∷ hashes) small valid = unfold is_digest in ground arith
sparse_decode-join ((c ∷ cs) ∷ hashes) small valid =
    let apart = all_weaken is_digest (lacks b',') lacks-digest ((c ∷ cs) ∷ hashes) valid in
    rw (join_unit b',' c cs hashes) (
      sparse_decode_steps c (join b',' (cs ∷ hashes)) ((c ∷ cs) ∷ hashes)
        (ap (split b',') (sym (join_unit b',' c cs hashes)) ∙ split-join b',' (c ∷ cs) hashes apart)
        small valid)

pub sparse_decode-snapshot :
    (set : List Text)
    → length set ≤ sparse_limit
    → all is_digest set ≡ true
    → sparse_decode (join b',' (sort set)) ≡ some (set_from [] (sort set))
sparse_decode-snapshot set small valid =
    sparse_decode-join (sort set) (omega (arith, length-sort set)) (all-sort is_digest set valid)

hash_rank_bound : (p : ℕ) (hash : Text) → hash_rank p hash ≤ 64 - p + 1
unfolding hash_rank
hash_rank_bound p hash = omega arith

pub highest_bound : (p i : ℕ) (hashes : List Text) → highest p i hashes ≤ 64 - p + 1
highest_bound p i [] = omega arith
highest_bound p i (hash ∷ hashes) = ground (arith, hash_rank_bound p hash, highest_bound p i hashes)

none_over :
    (most : ℕ) (rs : List ℕ)
    → ((i : ℕ) → i < length rs → at rs i ≤ most)
    → any (λ r. ltb most r) rs ≡ false
none_over most [] bounded = refl
none_over most (r ∷ rs) bounded =
    rw (ltb_false most r (bounded 0 (omega arith)))
      (none_over most rs (λ i h. bounded (suc i) (omega arith)))
  where
    ltb_false : (a b : ℕ) → b ≤ a → ltb a b ≡ false
    ltb_false a b h = ground arith

-- Registers that hold ranks decode to themselves.
pub dense_decode_lem :
    (p : ℕ) (registers : List ℕ)
    → 10 ≤ p
    → p ≤ 16
    → length registers ≡ 2 ^ p
    → ((i : ℕ) → i < length registers → at registers i ≤ 64 - p + 1)
    → dense_decode registers p ≡ some registers
unfolding dense_decode
dense_decode_lem p registers low high size bounded =
    rw
      (
        registers_for_lem p low high,
        none_over (64 - p + 1) registers bounded,
        length-replicate (2 ^ p) 0,
        size,
      )
      (if_elim (λ o. o ≡ some registers) (not (2 ^ p == 2 ^ p) || false) (λ differ. ground arith)
        (λ same. refl))
