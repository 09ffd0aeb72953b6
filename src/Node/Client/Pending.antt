-- ===== src/Node/Client/Pending.antt =====
-- What the client still owes, and which calls leave that alone.
use app_health.Prelude.{
  ◌≡◌, refl, ◌∙◌, min, Bool, true, false, ◌||◌, List, [], ◌∷◌, ◌++◌, Option, none, some, arith, leb,
  if_elim, Bool-cases, inl, inr,
}
use app_health.Node.Transport.{TransportResult}
use app_health.Node.Diagnostics.{Counter, increment, set_queued}
use app_health.Node.Batching.{body_limit}
use app_health.Node.Batching.Laws.{take_sized_batch-IsLongest}
use app_health.Node.Client.{
  Payload, events, logs, products, Flushing, idle, sending, settling, State, Encoded,
  record_product, drain_ends, result, queued, is_idle, payload_size, record_delivery_result,
  drain_products, drain_logs, drain_events, resume_drain, flush_queues, schedule_flush, admitted,
  enqueue, close_client, settle, fire_timer, step, push_product,
}

module _ {E L P : Type 0} where
  abbrev pub flight_events : Flushing E L P → List E
  flight_events (sending (events xs)) = xs
  flight_events _ = []

  abbrev pub flight_logs : Flushing E L P → List L
  flight_logs (sending (logs xs)) = xs
  flight_logs _ = []

  -- What the client still owes, oldest first.
  abbrev pub pending_events : State E L P → List E
  pending_events s = flight_events s.flushing ++ s.queue

  abbrev pub pending_logs : State E L P → List L
  pending_logs s = flight_logs s.flushing ++ s.log_queue

  -- A drain from `s` takes batches off the front.
  pub record Takes (s t : State E L P) : Type 0 where
    pub events : pending_events t ≡ s.queue
    pub logs : pending_logs t ≡ s.log_queue

  -- Nothing leaves and nothing comes.
  pub record Same (s t : State E L P) : Type 0 where
    pub events : pending_events t ≡ pending_events s
    pub logs : pending_logs t ≡ pending_logs s

  schedule_flush-Same : (s : State E L P) → Same s (schedule_flush s)
  unfolding schedule_flush
  schedule_flush-Same s = record { events = ground arith; logs = ground arith }

  pub Same-self : (s : State E L P) → Same s s
  Same-self s = record { events = refl; logs = refl }

  -- The tests of `enqueue` turn an item away.
  abbrev pub is_refused : State E L P → Bool
  is_refused s = s.closed || leb s.limits.max_queue_size (queued s)

  module _ (encoded : Encoded E L P) where
    drain_products-Takes : (ps : List P) (s : State E L P) → Takes s (drain_products encoded ps s)
    unfolding drain_products
    drain_products-Takes [] s = record { events = refl; logs = refl }
    drain_products-Takes (p ∷ ps) s =
        let dropped = record s {
          product_queue = ps;
          diag = increment Counter.dropped_invalid 1 s.diag;
        } in
        ground (arith, drain_products-Takes ps dropped)

    drain_logs-Takes :
        (ls : List L) (s : State E L P) → s.log_queue ≡ ls → Takes s (drain_logs encoded s)
    unfolding drain_logs
    drain_logs-Takes [] s e = simp (e, drain_logs) (drain_products-Takes s.product_queue s)
    drain_logs-Takes (l ∷ ls) s e = record {
      events = rw (e, drain_logs) refl;
      logs =
          rw (e, drain_logs)
            (take_sized_batch-IsLongest encoded.log s.limits.log_batch_size body_limit (l ∷ ls)).0;
    }

    drain_events-Takes :
        (es : List E) (s : State E L P) → s.queue ≡ es → Takes s (drain_events encoded s)
    unfolding drain_events
    drain_events-Takes [] s e = simp (e, drain_events) (drain_logs-Takes s.log_queue s refl)
    drain_events-Takes (x ∷ es) s e = record {
      events =
          rw (e, drain_events)
            (take_sized_batch-IsLongest encoded.event (min s.limits.max_batch_size 250) body_limit
              (x ∷ es)).0;
      logs = rw (e, drain_events) refl;
    }

    pub resume_drain-Takes :
        (batch : Payload E L P) (s : State E L P) → Takes s (resume_drain encoded batch s)
    unfolding resume_drain
    resume_drain-Takes (events xs) s = drain_events-Takes s.queue s refl
    resume_drain-Takes (logs xs) s = drain_logs-Takes s.log_queue s refl
    resume_drain-Takes (products xs) s = drain_products-Takes s.product_queue s

    pub flush_queues-Same :
        (f : Flushing E L P) (s : State E L P) → s.flushing ≡ f → Same s (flush_queues encoded s)
    unfolding flush_queues
    flush_queues-Same idle s e =
        let t = drain_events-Takes s.queue s refl in
        record {
          events = simp (e, flush_queues) (ground (arith, t.events));
          logs = simp (e, flush_queues) (ground (arith, t.logs));
        }
    flush_queues-Same (sending batch) s e =
        simp (e, flush_queues) (record { events = refl; logs = refl })
    flush_queues-Same settling s e = simp (e, flush_queues) (record { events = refl; logs = refl })

    admitted-Same : (long : Bool) (s : State E L P) → Same s (admitted encoded long s)
    unfolding admitted
    admitted-Same true s =
        let s' = record s { diag = set_queued (queued s) s.diag } in
        let a = schedule_flush-Same s' in
        let b = flush_queues-Same (schedule_flush s').flushing (schedule_flush s') refl in
        record { events = b.events ∙ a.events; logs = b.logs ∙ a.logs }
    admitted-Same false s =
        let a = schedule_flush-Same (record s { diag = set_queued (queued s) s.diag }) in
        record { events = a.events; logs = a.logs }

    module _ {A : Type 0} (push : A → State E L P → State E L P) (is_long : State E L P → Bool)
        (s : State E L P) where
      pub enqueue_refused :
          (item : Option A) → is_refused s ≡ true → Same s (enqueue encoded push is_long item s)
      unfolding enqueue
      enqueue_refused none h = record { events = ground arith; logs = ground arith }
      enqueue_refused (some a) h = record { events = ground arith; logs = ground arith }

      pub enqueue_invalid : Same s (enqueue encoded push is_long none s)
      unfolding enqueue
      enqueue_invalid = record { events = ground arith; logs = ground arith }

      pub enqueue_admitted :
          (a : A) → is_refused s ≡ false → Same (push a s) (enqueue encoded push is_long (some a) s)
      unfolding enqueue
      enqueue_admitted a h =
          let m = admitted-Same (is_long (push a s)) (push a s) in
          record { events = ground (arith, m.events); logs = ground (arith, m.logs) }

    pub record_product-Same :
        (p : P) (s : State E L P) → Same s (step encoded (record_product (some p)) s)
    unfolding step
    record_product-Same p s = elim (Bool-cases (is_refused s)) [
      | inl refused ↦ enqueue_refused (push_product encoded) _ s (some p) refused
      | inr room ↦
          let m = enqueue_admitted (push_product encoded) _ s p room in
          record { events = m.events; logs = m.logs }
    ]

    pub close-Same : (s : State E L P) → Same s (close_client encoded s)
    unfolding close_client
    close-Same s =
        let s' = record s { closed = true; timer = false; closing = true } in
        let m = flush_queues-Same s'.flushing s' refl in
        if_elim (Same s) s.closing (λ e. Same-self s)
          (λ e. record { events = m.events; logs = m.logs })

    pub fire_timer-Same : (s : State E L P) → Same s (fire_timer encoded s)
    unfolding fire_timer
    fire_timer-Same s =
        let s' = record s { timer = false } in
        let m = flush_queues-Same s'.flushing s' refl in
        if_elim (Same s) (is_idle (flush_queues encoded s').flushing)
          (λ e. record { events = m.events; logs = m.logs })
          (λ e. record { events = m.events; logs = m.logs })

    pub drain_ends-Same :
        (f : Flushing E L P) (s : State E L P) → s.flushing ≡ f → Same s (step encoded drain_ends s)
    unfolding step settle schedule_flush
    drain_ends-Same settling s e =
        simp (e, step) (record { events = ground arith; logs = ground arith })
    drain_ends-Same idle s e = simp (e, step) (Same-self s)
    drain_ends-Same (sending batch) s e = simp (e, step) (Same-self s)

    pub result_sending :
        (r : TransportResult) (batch : Payload E L P) (s : State E L P)
        → s.flushing ≡ sending batch
        → step encoded (result r) s
          ≡ resume_drain encoded batch
              (record s { diag = record_delivery_result r (payload_size batch) s.diag })
    unfolding step
    result_sending r batch s e = simp (e, step)

    pub result_settling :
        (r : TransportResult) (s : State E L P)
        → s.flushing ≡ settling
        → step encoded (result r) s ≡ s
    unfolding step
    result_settling r s e = simp (e, step)
