-- ===== src/Worker/Memory/Dedupe/Pruning.antt =====
-- What pruning and cleaning up drop, and what `markSeen` does with the rest.
use app_health.Prelude.{
  ℕ, suc, ◌≡◌, refl, sym, ◌∙◌, true, false, [], ◌∷◌, none, some, is_some, leb, ltb, arith,
  Bool-cases, inl, inr, returned, if_elim,
}
use app_health.Js.Strings.{Text, same_text}
use app_health.Js.Maps.{Dict, get, set, get_nil, get_cons}
use app_health.Js.Maps.Thinning.{Thinned, done, keep, drop_entry, thinned_refl}
use app_health.Worker.Memory.Dedupe.{batch_key, is_expired, prune_dedupe, mark_seen, cleanup_from}

pub prune_dedupe-Thinned :
    (now : ℕ) (seen : Dict ℕ) → Thinned (is_expired now) seen (prune_dedupe now seen)
unfolding prune_dedupe
prune_dedupe-Thinned now [] = done
prune_dedupe-Thinned now ((id, at) ∷ seen) =
    if_elim (λ (e : Dict ℕ). Thinned (is_expired now) ((id, at) ∷ seen) e) (is_expired now at)
      (λ old. drop_entry id at old (prune_dedupe-Thinned now seen))
      (λ young. keep id at (prune_dedupe-Thinned now seen))

pub cleanup_from-Thinned :
    (before limit removed : ℕ) (seen : Dict ℕ)
    → Thinned (λ at. ltb at before) seen (cleanup_from before limit removed seen).1
unfolding cleanup_from
cleanup_from-Thinned before limit removed [] = done
cleanup_from-Thinned before limit removed ((key, at) ∷ seen) =
    elim (Bool-cases (leb limit removed)) [
      | inl full ↦ rw full (thinned_refl (λ at. ltb at before) ((key, at) ∷ seen))
      | inr room ↦ rw room (elim (Bool-cases (ltb at before)) [
        | inl old ↦
            rw old (drop_entry key at old (cleanup_from-Thinned before limit (suc removed) seen))
        | inr young ↦ rw young (keep key at (cleanup_from-Thinned before limit removed seen))
      ])
    ]

-- Nothing that pruning leaves is expired.
pub prune_young :
    (now : ℕ) (key : Text) (seen : Dict ℕ) (at : ℕ)
    → get key (prune_dedupe now seen) ≡ some at
    → is_expired now at ≡ false
unfolding prune_dedupe
prune_young now key [] at e =
    let impossible : none ≡ some at = rw (get_nil key) at e in ground arith
prune_young now key ((id, t) ∷ seen) at e = elim (Bool-cases (is_expired now t)) [
  | inl old ↦ prune_young now key seen at (rw old at e)
  | inr young ↦
      let there = sym (get_cons key id t (prune_dedupe now seen)) ∙ (rw young at e) in
      elim (Bool-cases (same_text key id)) [
        | inl here ↦ returned (λ x. is_expired now x ≡ false) (rw here at there) young
        | inr other ↦ prune_young now key seen at (rw other at there)
      ]
]

pub mark_seen_fresh :
    (seen : Dict ℕ) (app_id env_id batch_id : Text) (now : ℕ)
    → is_some (get (batch_key app_id env_id batch_id) (prune_dedupe now seen)) ≡ false
    → mark_seen seen app_id env_id batch_id now
      ≡ (true, set (batch_key app_id env_id batch_id) now (prune_dedupe now seen))
unfolding mark_seen
mark_seen_fresh seen app_id env_id batch_id now h = rw h refl

pub mark_seen_again :
    (seen : Dict ℕ) (app_id env_id batch_id : Text) (now : ℕ)
    → is_some (get (batch_key app_id env_id batch_id) (prune_dedupe now seen)) ≡ true
    → mark_seen seen app_id env_id batch_id now ≡ (false, prune_dedupe now seen)
unfolding mark_seen
mark_seen_again seen app_id env_id batch_id now h = rw h refl

-- What is not expired stays.
pub prune_keeps :
    (now : ℕ) (key : Text) (seen : Dict ℕ) (at : ℕ)
    → get key seen ≡ some at
    → is_expired now at ≡ false
    → get key (prune_dedupe now seen) ≡ some at
unfolding prune_dedupe
prune_keeps now key [] at e young =
    let impossible : none ≡ some at = rw (get_nil key) at e in ground arith
prune_keeps now key ((id, t) ∷ seen) at e young = elim (Bool-cases (same_text key id)) [
  | inl here ↦
      let found : some t ≡ some at = rw (get_cons key id t seen, here) at e in
      let fresh : is_expired now t ≡ false =
        returned (λ x. is_expired now x ≡ false) (sym found) young in
      rw (fresh, get_cons key id t (prune_dedupe now seen), here) found
  | inr other ↦
      let rest = prune_keeps now key seen at (rw (get_cons key id t seen, other) at e) young in
      elim (Bool-cases (is_expired now t)) [
        | inl old ↦ rw old rest
        | inr kept ↦ rw (kept, get_cons key id t (prune_dedupe now seen), other) rest
      ]
]
