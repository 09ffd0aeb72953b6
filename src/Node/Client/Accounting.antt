-- ===== src/Node/Client/Accounting.antt =====
-- How many items the client was handed, against those that wait, are in flight or are counted.
use app_health.Prelude.{
  ℕ, ◌+◌, ◌*◌, ◌≡◌, refl, min, Bool, true, false, List, [], ◌∷◌, Option, none, some, arith, length,
  length-append, if◌then◌else◌,
}
use app_health.Node.Transport.{TransportResult, delivered, undelivered}
use app_health.Node.Diagnostics.{Diagnostics, Counter, increment, set_queued}
use app_health.Node.Batching.{body_limit}
use app_health.Node.Batching.Laws.{length-take_sized_batch}
use app_health.Node.Client.{
  Payload, events, logs, products, Flushing, idle, sending, settling, State, Encoded, Call,
  record_event, record_log, record_product, flush, close, timer_fires, drain_ends, result, queued,
  payload_size, record_delivery_result, schedule_flush, drain_products, drain_logs, drain_events,
  resume_drain, flush_queues, admitted, enqueue, close_client, settle, fire_timer, step, run,
  push_event, push_log, push_product,
}

-- The items whose fate the counters record.
unfoldable pub settled : Diagnostics → ℕ
settled d = d.sent_events + d.dropped_delivery + d.dropped_invalid + d.dropped_overflow

-- The result of a request settles all of its items, sent or dropped.
settled-record_delivery_result :
    (r : TransportResult) (items : ℕ) (d : Diagnostics)
    → settled (record_delivery_result r items d) ≡ settled d + items
unfolding record_delivery_result settled
settled-record_delivery_result (delivered status retried) items d = ground arith
settled-record_delivery_result (undelivered status retried error) items d = ground arith

module _ {E L P : Type 0} where
  unfoldable pub in_flight : Flushing E L P → ℕ
  in_flight (sending batch) = payload_size batch
  in_flight _ = 0

  -- Waiting, in flight, or counted.
  unfoldable pub known : State E L P → ℕ
  unfolding queued in_flight settled
  known s = queued s + in_flight s.flushing + settled s.diag

  -- What a call offers: `record`, `log` and `track` one item each, until the client is closed.
  abbrev pub offer_of : Call E L P → ℕ
  offer_of (record_event item) = 1
  offer_of (record_log item) = 1
  offer_of (record_product item) = 1
  offer_of _ = 0

  abbrev pub offered : Call E L P → State E L P → ℕ
  offered c s = if s.closed then 0 else offer_of c

  module _ (encoded : Encoded E L P) where
    known-set_queued :
        (s : State E L P) → known (record s { diag = set_queued (queued s) s.diag }) ≡ known s
    unfolding known set_queued
    known-set_queued s = refl

    known-drain_products :
        (ps : List P) (s : State E L P)
        → known (drain_products encoded ps s)
          ≡ length s.queue + length s.log_queue + length ps + settled s.diag
    unfolding drain_products known payload_size
    known-drain_products [] s = ground arith
    known-drain_products (p ∷ ps) s = ground (
      arith,
      known-drain_products ps
          (record s { product_queue = ps; diag = increment Counter.dropped_invalid 1 s.diag }),
      length-take_sized_batch encoded.product (min s.limits.max_batch_size 100) (64 * 1024)
          (p ∷ ps),
    )

    known-drain_logs :
        (ls : List L) (s : State E L P)
        → s.log_queue ≡ ls
        → known (drain_logs encoded s) ≡ queued s + settled s.diag
    unfolding drain_logs known payload_size
    known-drain_logs [] s e =
        rw (e, drain_logs) (ground (arith, known-drain_products s.product_queue s))
    known-drain_logs (l ∷ ls) s e =
        rw (e, drain_logs)
          (ground (
            arith,
            length-take_sized_batch encoded.log s.limits.log_batch_size body_limit (l ∷ ls),
          ))

    known-drain_events :
        (es : List E) (s : State E L P)
        → s.queue ≡ es
        → known (drain_events encoded s) ≡ queued s + settled s.diag
    unfolding drain_events known payload_size
    known-drain_events [] s e =
        rw (e, drain_events) (ground (arith, known-drain_logs s.log_queue s refl))
    known-drain_events (l ∷ ls) s e =
        rw (e, drain_events)
          (ground (
            arith,
            length-take_sized_batch encoded.event (min s.limits.max_batch_size 250) body_limit
                (l ∷ ls),
          ))

    known-flush_queues : (s : State E L P) → known (flush_queues encoded s) ≡ known s
    unfolding flush_queues known
    known-flush_queues s = ground (arith, known-drain_events s.queue s refl)

    known-schedule_flush : (s : State E L P) → known (schedule_flush s) ≡ known s
    unfolding schedule_flush known
    known-schedule_flush s = ground arith

    known-admitted : (long : Bool) (s : State E L P) → known (admitted encoded long s) ≡ known s
    unfolding admitted
    known-admitted long s =
        let s' = record s { diag = set_queued (queued s) s.diag } in
        ground (
          arith,
          known-flush_queues (schedule_flush s'),
          known-schedule_flush s',
          known-set_queued s,
        )

    known-enqueue :
        {A : Type 0} (push : A → State E L P → State E L P) (is_long : State E L P → Bool)
        (item : Option A) (s : State E L P)
        → ((a : A) → known (push a s) ≡ known s + 1)
        → known (enqueue encoded push is_long item s) ≡ known s + (if s.closed then 0 else 1)
    unfolding enqueue known
    known-enqueue push is_long none s h = ground arith
    known-enqueue push is_long (some a) s h =
        ground (arith, h a, known-admitted (is_long (push a s)) (push a s))

    known-push_event : (e : E) (s : State E L P) → known (push_event encoded e s) ≡ known s + 1
    unfolding known
    known-push_event e s = omega (arith, length-append s.queue (e ∷ []))

    known-push_log : (l : L) (s : State E L P) → known (push_log encoded l s) ≡ known s + 1
    unfolding known
    known-push_log l s = omega (arith, length-append s.log_queue (l ∷ []))

    known-push_product : (p : P) (s : State E L P) → known (push_product encoded p s) ≡ known s + 1
    unfolding known
    known-push_product p s = omega (arith, length-append s.product_queue (p ∷ []))

    known-close_client : (s : State E L P) → known (close_client encoded s) ≡ known s
    unfolding close_client known
    known-close_client s =
        ground
          (arith, known-flush_queues (record s { closed = true; timer = false; closing = true }))

    known-fire_timer : (s : State E L P) → known (fire_timer encoded s) ≡ known s
    unfolding fire_timer known
    known-fire_timer s = ground (arith, known-flush_queues (record s { timer = false }))

    known-settle : (s : State E L P) → s.flushing ≡ settling → known (settle encoded s) ≡ known s
    unfolding settle known
    known-settle s e =
        ground (arith, known-schedule_flush (record s { flushing = idle; timer_waits = false }))

    known-resume_drain :
        (batch : Payload E L P) (s : State E L P)
        → known (resume_drain encoded batch s) ≡ queued s + settled s.diag
    unfolding resume_drain queued
    known-resume_drain (events xs) s = known-drain_events s.queue s refl
    known-resume_drain (logs xs) s = known-drain_logs s.log_queue s refl
    known-resume_drain (products xs) s = known-drain_products s.product_queue s

    drain_ends_known :
        (f : Flushing E L P) (s : State E L P)
        → s.flushing ≡ f
        → known (step encoded drain_ends s) ≡ known s
    unfolding step
    drain_ends_known settling s e = simp (e, step) (known-settle s e)
    drain_ends_known idle s e = simp (e, step)
    drain_ends_known (sending batch) s e = simp (e, step)

    result_known :
        (r : TransportResult) (f : Flushing E L P) (s : State E L P)
        → s.flushing ≡ f
        → known (step encoded (result r) s) ≡ known s
    unfolding step known
    result_known r (sending batch) s e =
        let d = record_delivery_result r (payload_size batch) s.diag in
        rw (e, step, known-resume_drain batch (record s { diag = d }))
          (omega (arith, settled-record_delivery_result r (payload_size batch) s.diag))
    result_known r idle s e = simp (e, step)
    result_known r settling s e = simp (e, step)

    known-step :
        (c : Call E L P) (s : State E L P) → known (step encoded c s) ≡ known s + offered c s
    unfolding step
    known-step (record_event item) s =
        known-enqueue (push_event encoded) _ item s (λ e. known-push_event e s)
    known-step (record_log item) s =
        known-enqueue (push_log encoded) _ item s (λ l. known-push_log l s)
    known-step (record_product item) s =
        known-enqueue (push_product encoded) _ item s (λ p. known-push_product p s)
    known-step flush s = ground (arith, known-flush_queues s)
    known-step close s = ground (arith, known-close_client s)
    known-step timer_fires s = ground (arith, known-fire_timer s)
    known-step drain_ends s = ground (arith, drain_ends_known s.flushing s refl)
    known-step (result r) s = ground (arith, result_known r s.flushing s refl)

    unfoldable pub total_offered : List (Call E L P) → State E L P → ℕ
    total_offered [] s = 0
    total_offered (c ∷ cs) s = offered c s + total_offered cs (step encoded c s)

    pub known-run :
        (cs : List (Call E L P)) (s : State E L P)
        → known (run encoded cs s) ≡ known s + total_offered cs s
    unfolding run total_offered
    known-run [] s = omega arith
    known-run (c ∷ cs) s = omega (arith, known-run cs (step encoded c s), known-step c s)
