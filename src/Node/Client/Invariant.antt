-- ===== src/Node/Client/Invariant.antt =====
-- What every reachable state of the client satisfies: bounded queues, and no item left without a
-- timer or a drain that will take it up.
use app_health.Prelude.{
  ◌+◌, ◌≤◌, ◌≡◌, refl, sym, ◌∙◌, ◌⊎◌, inl, inr, Bool, true, false, not, ◌&&◌, ◌||◌, List, [], ◌∷◌,
  Option, none, some, arith, length-append, leb, ◌==◌, Bool-cases, if_elim,
}
use app_health.Node.Transport.{TransportResult}
use app_health.Node.Diagnostics.{Diagnostics}
use app_health.Node.Client.{
  Limits, Flushing, idle, sending, settling, is_idle, State, Encoded, Call, record_event,
  record_log, record_product, flush, close, timer_fires, drain_ends, result, queued, payload_size,
  record_delivery_result, init, schedule_flush, flush_queues, admitted, enqueue, close_client,
  settle, await_drain, fire_timer, step, run, push_event, push_log, push_product,
}
use app_health.Node.Client.Frame.{Drains, drain_events-Drains, resume_drain-Drains}

module _ {E L P : Type 0} where
  -- Something will send what waits: a pending timeout, or a drain whose end wakes a timeout up. With
  -- the timer disabled, or after `close`, that is left to the application.
  abbrev pub is_awake : State E L P → Bool
  is_awake s =
      s.limits.disable_timer || s.closed || s.timer || (s.timer_waits && not (is_idle s.flushing))

  pub record Inv (s : State E L P) : Type 0 where
    pub bounded : queued s ≤ s.limits.max_queue_size
    pub awake : (queued s == 0 || is_awake s) ≡ true
    pub closes : s.closing ≡ s.closed
    pub stopped : s.closed ≡ true → s.timer ≡ false

  pub init-Inv : (limits : Limits) → Inv (init limits)
  unfolding init queued
  init-Inv limits = record {
    bounded = omega arith;
    awake = refl;
    closes = refl;
    stopped = λ e. refl;
  }

  module _ (encoded : Encoded E L P) where
    Drains-Inv : {s t : State E L P} → Drains s t → Inv s → Inv t
    Drains-Inv {s} {t} d v = record {
      bounded = ground (arith, v.bounded, d.shorter, d.limits);
      awake =
          ground (arith, v.awake, d.limits, d.closed, d.timer, d.timer_waits, d.busy, d.shorter);
      closes = ground (arith, v.closes, d.closed, d.closing);
      stopped = ground (arith, v.stopped, d.closed, d.timer);
    }

    -- `flush` does nothing where nothing waits or a drain is on its way, and else starts a drain.
    pub flush_queues_outcome :
        (f : Flushing E L P) (s : State E L P)
        → s.flushing ≡ f
        → ((flush_queues encoded s ≡ s) × ((queued s == 0 || not (is_idle s.flushing)) ≡ true))
          ⊎ (((queued s == 0) ≡ false) × Drains s (flush_queues encoded s))
    unfolding flush_queues
    flush_queues_outcome idle s e = elim (Bool-cases (queued s == 0)) [
      | inl none_left ↦ inl (simp (e, none_left, flush_queues), rw none_left refl)
      | inr some_left ↦ inr (
        some_left,
        simp (e, some_left, flush_queues) (drain_events-Drains encoded s.queue s refl),
      )
    ]
    flush_queues_outcome (sending batch) s e = inl (simp (e, flush_queues), ground arith)
    flush_queues_outcome settling s e = inl (simp (e, flush_queues), ground arith)

    flush_queues-Inv : (s : State E L P) → Inv s → Inv (flush_queues encoded s)
    flush_queues-Inv s v = elim (flush_queues_outcome s.flushing s refl) [
      | inl (same, _) ↦ rw same v
      | inr (_, d) ↦ Drains-Inv d v
    ]

    schedule_flush-Inv :
        (s : State E L P)
        → queued s ≤ s.limits.max_queue_size
        → s.closing ≡ s.closed
        → (s.closed ≡ true → s.timer ≡ false)
        → Inv (schedule_flush s)
    unfolding schedule_flush queued
    schedule_flush-Inv s b c o = record {
      bounded = ground arith;
      awake = ground arith;
      closes = ground arith;
      stopped = ground arith;
    }

    admitted-Inv :
        (long : Bool) (s : State E L P)
        → queued s ≤ s.limits.max_queue_size
        → s.closing ≡ s.closed
        → (s.closed ≡ true → s.timer ≡ false)
        → Inv (admitted encoded long s)
    unfolding admitted queued
    admitted-Inv true s b c o = flush_queues-Inv _ (schedule_flush-Inv _ b c o)
    admitted-Inv false s b c o = schedule_flush-Inv _ b c o

    diag-Inv : (d : Diagnostics) (s : State E L P) → Inv s → Inv (record s { diag = d })
    unfolding queued
    diag-Inv d s v = record {
      bounded = v.bounded;
      awake = v.awake;
      closes = v.closes;
      stopped = v.stopped;
    }

    -- What `push` keeps: the settings, and one more item.
    record IsPush {A : Type 0} (push : A → State E L P → State E L P) : Type 0 where
      limits : (a : A) (s : State E L P) → (push a s).limits ≡ s.limits
      closed : (a : A) (s : State E L P) → (push a s).closed ≡ s.closed
      closing : (a : A) (s : State E L P) → (push a s).closing ≡ s.closing
      timer : (a : A) (s : State E L P) → (push a s).timer ≡ s.timer
      longer : (a : A) (s : State E L P) → queued (push a s) ≡ queued s + 1

    enqueue-Inv :
        {A : Type 0} (push : A → State E L P → State E L P) (is_long : State E L P → Bool)
        (item : Option A) (s : State E L P)
        → IsPush push
        → Inv s
        → Inv (enqueue encoded push is_long item s)
    unfolding enqueue
    enqueue-Inv push is_long none s p v = if_elim Inv s.closed (λ e. v) (λ e. diag-Inv _ s v)
    enqueue-Inv push is_long (some a) s p v =
        if_elim Inv s.closed (λ e. v)
          (λ opened.
            if_elim Inv (leb s.limits.max_queue_size (queued s)) (λ full. diag-Inv _ s v)
              (λ room.
                admitted-Inv (is_long (push a s)) (push a s)
                  (ground (arith, p.longer a s, p.limits a s))
                  (p.closing a s ∙ v.closes ∙ sym (p.closed a s))
                  (λ e. ground (arith, p.closed a s, opened, e))))

    push_event-IsPush : IsPush (push_event encoded)
    unfolding queued
    push_event-IsPush = record {
      limits = λ e s. refl;
      closed = λ e s. refl;
      closing = λ e s. refl;
      timer = λ e s. refl;
      longer = λ e s. omega (arith, length-append s.queue (e ∷ []));
    }

    push_log-IsPush : IsPush (push_log encoded)
    unfolding queued
    push_log-IsPush = record {
      limits = λ l s. refl;
      closed = λ l s. refl;
      closing = λ l s. refl;
      timer = λ l s. refl;
      longer = λ l s. omega (arith, length-append s.log_queue (l ∷ []));
    }

    push_product-IsPush : IsPush (push_product encoded)
    unfolding queued
    push_product-IsPush = record {
      limits = λ p s. refl;
      closed = λ p s. refl;
      closing = λ p s. refl;
      timer = λ p s. refl;
      longer = λ p s. omega (arith, length-append s.product_queue (p ∷ []));
    }

    close_client-Inv : (s : State E L P) → Inv s → Inv (close_client encoded s)
    unfolding close_client queued
    close_client-Inv s v =
        if_elim Inv s.closing (λ e. v)
          (λ e. flush_queues-Inv _ (record {
            bounded = v.bounded;
            awake = ground arith;
            closes = refl;
            stopped = λ h. refl;
          }))

    await_drain-Inv :
        (s : State E L P)
        → queued s ≤ s.limits.max_queue_size
        → s.closing ≡ s.closed
        → s.timer ≡ false
        → (queued s == 0 || not (is_idle s.flushing)) ≡ true
        → Inv (await_drain s)
    unfolding await_drain queued
    await_drain-Inv s b c t w = record {
      bounded = ground arith;
      awake = ground arith;
      closes = ground arith;
      stopped = ground arith;
    }

    fire_timer-Inv : (s : State E L P) → Inv s → Inv (fire_timer encoded s)
    unfolding fire_timer queued
    fire_timer-Inv s v =
        let fired = record s { timer = false } in
        elim (flush_queues_outcome fired.flushing fired refl) [
          | inl (same, w) ↦ rw same (await_drain-Inv fired v.bounded v.closes refl w)
          | inr (_, d) ↦
              await_drain-Inv (flush_queues encoded fired)
                (ground (arith, d.shorter, d.limits, v.bounded))
                (d.closing ∙ v.closes ∙ sym d.closed) d.timer (ground (arith, d.busy))
        ]

    settle-Inv : (s : State E L P) → s.flushing ≡ settling → Inv s → Inv (settle encoded s)
    unfolding settle schedule_flush queued
    settle-Inv s e v = record {
      bounded = ground (arith, v.bounded);
      awake = ground (arith, v.awake);
      closes = ground (arith, v.closes);
      stopped = ground (arith, v.stopped);
    }

    drain_ends-Inv :
        (f : Flushing E L P) (s : State E L P)
        → s.flushing ≡ f
        → Inv s
        → Inv (step encoded drain_ends s)
    unfolding step
    drain_ends-Inv settling s e v = simp (e, step) (settle-Inv s e v)
    drain_ends-Inv idle s e v = simp (e, step) v
    drain_ends-Inv (sending batch) s e v = simp (e, step) v

    result-Inv :
        (r : TransportResult) (f : Flushing E L P) (s : State E L P)
        → s.flushing ≡ f
        → Inv s
        → Inv (step encoded (result r) s)
    unfolding step queued
    result-Inv r (sending batch) s e v =
        let d = record_delivery_result r (payload_size batch) s.diag in
        let got = record s { diag = d; flushing = sending batch } in
        simp (e, step)
          (Drains-Inv (resume_drain-Drains encoded batch got) (record {
            bounded = v.bounded;
            awake = ground (arith, v.awake);
            closes = v.closes;
            stopped = v.stopped;
          }))
    result-Inv r idle s e v = simp (e, step) v
    result-Inv r settling s e v = simp (e, step) v

    pub step-Inv : (c : Call E L P) (s : State E L P) → Inv s → Inv (step encoded c s)
    unfolding step
    step-Inv (record_event item) s v = enqueue-Inv _ _ item s push_event-IsPush v
    step-Inv (record_log item) s v = enqueue-Inv _ _ item s push_log-IsPush v
    step-Inv (record_product item) s v = enqueue-Inv _ _ item s push_product-IsPush v
    step-Inv flush s v = flush_queues-Inv s v
    step-Inv close s v = close_client-Inv s v
    step-Inv timer_fires s v = if_elim Inv s.timer (λ e. fire_timer-Inv s v) (λ e. v)
    step-Inv drain_ends s v = drain_ends-Inv s.flushing s refl v
    step-Inv (result r) s v = result-Inv r s.flushing s refl v

    run-Inv : (cs : List (Call E L P)) (s : State E L P) → Inv s → Inv (run encoded cs s)
    unfolding run
    run-Inv [] s v = v
    run-Inv (c ∷ cs) s v = run-Inv cs (step encoded c s) (step-Inv c s v)

    -- Whatever the application, the network and the timers do, the three queues together never hold
    -- more than `maxQueueSize` items; while something waits and the client is open with its timer
    -- enabled, a timeout is pending or the drain on its way reschedules one; and a closed client has
    -- no pending timeout.
    pub run-init-Inv :
        (limits : Limits) (cs : List (Call E L P)) → Inv (run encoded cs (init limits))
    run-init-Inv limits cs = run-Inv cs (init limits) (init-Inv limits)
