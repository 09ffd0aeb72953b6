-- ===== src/Node/Client/Frame.antt =====
-- What the drain and the admission leave alone: the settings, and the order of the calls to `close`.
use app_health.Prelude.{◌*◌, ◌≤◌, ◌≡◌, refl, min, false, List, [], ◌∷◌, arith}
use app_health.Node.Diagnostics.{Counter, increment}
use app_health.Node.Batching.{body_limit}
use app_health.Node.Batching.Laws.{length-take_sized_batch}
use app_health.Node.Client.{
  Payload, is_idle, events, logs, products, State, Encoded, queued, drain_products, drain_logs,
  drain_events, resume_drain,
}

module _ {E L P : Type 0} where
  -- `t` is `s` with other queues, no longer together, another drain and other counters.
  pub record Drains (s t : State E L P) : Type 0 where
    pub limits : t.limits ≡ s.limits
    pub closed : t.closed ≡ s.closed
    pub closing : t.closing ≡ s.closing
    pub timer : t.timer ≡ s.timer
    pub timer_waits : t.timer_waits ≡ s.timer_waits
    pub shorter : queued t ≤ queued s
    pub busy : is_idle t.flushing ≡ false

  module _ (encoded : Encoded E L P) where
    drain_products-Drains :
        (ps : List P) (s : State E L P)
        → s.product_queue ≡ ps
        → Drains s (drain_products encoded ps s)
    unfolding drain_products queued
    drain_products-Drains [] s e = ground arith
    drain_products-Drains (p ∷ ps) s e =
        let dropped = record s {
          product_queue = ps;
          diag = increment Counter.dropped_invalid 1 s.diag;
        } in
        ground (
          arith,
          drain_products-Drains ps dropped refl,
          length-take_sized_batch encoded.product (min s.limits.max_batch_size 100) (64 * 1024)
              (p ∷ ps),
        )

    drain_logs-Drains :
        (ls : List L) (s : State E L P) → s.log_queue ≡ ls → Drains s (drain_logs encoded s)
    unfolding drain_logs queued
    drain_logs-Drains [] s e = simp (e, drain_logs) (drain_products-Drains s.product_queue s refl)
    drain_logs-Drains (l ∷ ls) s e =
        rw (e, drain_logs)
          (ground (
            arith,
            length-take_sized_batch encoded.log s.limits.log_batch_size body_limit (l ∷ ls),
          ))

    pub drain_events-Drains :
        (es : List E) (s : State E L P) → s.queue ≡ es → Drains s (drain_events encoded s)
    unfolding drain_events queued
    drain_events-Drains [] s e = simp (e, drain_events) (drain_logs-Drains s.log_queue s refl)
    drain_events-Drains (x ∷ es) s e =
        rw (e, drain_events)
          (ground (
            arith,
            length-take_sized_batch encoded.event (min s.limits.max_batch_size 250) body_limit
                (x ∷ es),
          ))

    pub resume_drain-Drains :
        (batch : Payload E L P) (s : State E L P) → Drains s (resume_drain encoded batch s)
    unfolding resume_drain
    resume_drain-Drains (events xs) s = drain_events-Drains s.queue s refl
    resume_drain-Drains (logs xs) s = drain_logs-Drains s.log_queue s refl
    resume_drain-Drains (products xs) s = drain_products-Drains s.product_queue s refl
