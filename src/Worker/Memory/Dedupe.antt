-- ===== src/Worker/Memory/Dedupe.antt =====
-- The dedupe repository: the batches that were seen, with the time of each.
pub mod Pruning
pub mod Window
mod Tests
use app_health.Prelude.{
  ℕ, suc, ◌+◌, ◌*◌, Bool, true, false, List, [], ◌∷◌, Option, none, some, is_some, leb, ltb,
  if◌then◌else◌,
}
use app_health.Js.Strings.{Text, join}
use app_health.Js.Maps.{Dict, get, set, remove}

abbrev pub dedupe_window_ms : ℕ
dedupe_window_ms = 60 * 60 * 1000

-- `${appId}|${envId}|${batchId}`
unfoldable pub batch_key : (app_id env_id batch_id : Text) → Text
batch_key app_id env_id batch_id = join b'|' (app_id ∷ env_id ∷ batch_id ∷ [])

-- `seenAt < now - DEDUPE_WINDOW_MS`, which has no natural number on the right
abbrev pub is_expired : (now seen_at : ℕ) → Bool
is_expired now seen_at = ltb (seen_at + dedupe_window_ms) now

unfoldable pub prune_dedupe : ℕ → Dict ℕ → Dict ℕ
prune_dedupe now [] = []
prune_dedupe now ((id, seen_at) ∷ seen) =
    let rest = prune_dedupe now seen in
    if is_expired now seen_at then rest else (id, seen_at) ∷ rest

unfoldable pub mark_seen : Dict ℕ → (app_id env_id batch_id : Text) (now : ℕ) → Bool × Dict ℕ
mark_seen seen app_id env_id batch_id now =
    let pruned = prune_dedupe now seen in
    let key = batch_key app_id env_id batch_id in
    if is_some (get key pruned) then (false, pruned) else (true, set key now pruned)

unfoldable pub forget : Dict ℕ → (app_id env_id batch_id : Text) → Dict ℕ
forget seen app_id env_id batch_id = remove (batch_key app_id env_id batch_id) seen

-- The loop of `cleanupExpired`, with the number removed so far.
unfoldable pub cleanup_from : (before limit removed : ℕ) → Dict ℕ → ℕ × Dict ℕ
cleanup_from before limit removed [] = (removed, [])
cleanup_from before limit removed ((key, seen_at) ∷ seen) =
    let without = cleanup_from before limit (suc removed) seen in
    let (count, rest) = cleanup_from before limit removed seen in
    if leb limit removed
    then (removed, (key, seen_at) ∷ seen)
    else if ltb seen_at before
    then without
    else (count, (key, seen_at) ∷ rest)

unfoldable pub cleanup_expired : Dict ℕ → (before limit : ℕ) → ℕ × Dict ℕ
unfolding cleanup_from
cleanup_expired seen before limit = cleanup_from before limit 0 seen

pub data DedupeCall : Type 0 where
  mark : (app_id env_id batch_id : Text) (now : ℕ) → DedupeCall
  forget_batch : (app_id env_id batch_id : Text) → DedupeCall
  cleanup : (before limit : ℕ) → DedupeCall

-- The answers of `markSeen`, call by call.
unfoldable pub dedupe_answers : Dict ℕ → List DedupeCall → List Bool
unfolding mark_seen forget cleanup_expired
dedupe_answers seen [] = []
dedupe_answers seen (mark app_id env_id batch_id now ∷ calls) =
    let (fresh, after) = mark_seen seen app_id env_id batch_id now in
    fresh ∷ dedupe_answers after calls
dedupe_answers seen (forget_batch app_id env_id batch_id ∷ calls) =
    dedupe_answers (forget seen app_id env_id batch_id) calls
dedupe_answers seen (cleanup before limit ∷ calls) =
    let (count, after) = cleanup_expired seen before limit in dedupe_answers after calls
