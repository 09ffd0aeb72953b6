-- ===== src/Worker/Memory/Dedupe/Tests.antt =====
-- A batch that is sent three times, the third more than an hour after the first.
use app_health.Prelude.{◌≡◌, refl, true, false, List, [], ◌∷◌, none}
use app_health.Js.Strings.{codes, join}
use app_health.Js.Maps.{get, set, remove}
use app_health.Worker.Memory.Dedupe.{
  DedupeCall, mark, forget_batch, cleanup, batch_key, prune_dedupe, mark_seen, forget, cleanup_from,
  cleanup_expired, dedupe_answers,
}
use app_health.Worker.Memory.Dedupe.Window.{window_answers, mark_seen-window}

abbrev sent : List DedupeCall
sent =
    mark (codes "shop") (codes "live") (codes "b1") 1000
    ∷ mark (codes "shop") (codes "live") (codes "b1") 3601000
    ∷ cleanup 500 10
    ∷ mark (codes "shop") (codes "live") (codes "b2") 3601000
    ∷ forget_batch (codes "shop") (codes "live") (codes "b2")
    ∷ mark (codes "shop") (codes "live") (codes "b2") 3601001
    ∷ mark (codes "shop") (codes "live") (codes "b1") 3601001
    ∷ []

dedupe : Unit {0}
unfolding get set remove batch_key join prune_dedupe mark_seen forget cleanup_from cleanup_expired
    dedupe_answers window_answers
dedupe = tt

dedupe_answers-sent : dedupe_answers [] sent ≡ true ∷ false ∷ true ∷ true ∷ true ∷ []
unfolding dedupe
dedupe_answers-sent = refl

mark_seen-window_example : dedupe_answers [] sent ≡ window_answers (λ key. none) sent
mark_seen-window_example = mark_seen-window sent refl
