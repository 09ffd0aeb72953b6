-- ===== src/Node/Client/Closing.antt =====
-- What `close` does and does not do to the client.
use app_health.Prelude.{
  ℕ, ◌+◌, ◌≡◌, refl, ◌∙◌, ap, inl, inr, Bool, true, false, ◌||◌, List, [], ◌∷◌, ◌++◌, Option, none,
  some, arith, if◌then◌else◌,
}
use app_health.Node.Transport.{TransportResult}
use app_health.Node.Client.{
  Limits, Flushing, idle, sending, settling, State, Encoded, Call, record_event, record_log,
  record_product, flush, close, timer_fires, drain_ends, result, init, flush_queues, schedule_flush,
  admitted, enqueue, close_client, settle, fire_timer, step, run,
}
use app_health.Node.Client.Frame.{resume_drain-Drains}
use app_health.Node.Client.Invariant.{Inv, flush_queues_outcome, step-Inv, init-Inv}
use app_health.Node.Client.Accounting.{known, offer_of, total_offered, known-run}
use mathlib.Core.List.{Sublistᴰ}
use app_health.Node.Client.Pending.{pending_events, pending_logs}
use app_health.Node.Client.Products.{pending_products}
use app_health.Node.Client.Order.{
  all_completed_events, all_accepted_events, all_completed_logs, all_accepted_logs,
  run_events_in_order, run_logs_in_order,
}
use app_health.Node.Client.ProductOrder.{
  all_completed_products, all_accepted_products, run_products_in_order,
}

module _ {E L P : Type 0} where
  abbrev is_close : Call E L P → Bool
  is_close close = true
  is_close _ = false

  module _ (encoded : Encoded E L P) where
    flush_queues_closed : (s : State E L P) → (flush_queues encoded s).closed ≡ s.closed
    flush_queues_closed s = elim (flush_queues_outcome encoded s.flushing s refl) [
      | inl (same, _) ↦ ap (λ t. t.closed) same
      | inr (_, d) ↦ d.closed
    ]

    admitted_closed : (long : Bool) (s : State E L P) → (admitted encoded long s).closed ≡ s.closed
    unfolding admitted schedule_flush
    admitted_closed true s = flush_queues_closed _ ∙ ground arith
    admitted_closed false s = ground arith

    enqueue_closed :
        {A : Type 0} (push : A → State E L P → State E L P) (is_long : State E L P → Bool)
        (item : Option A) (s : State E L P)
        → ((a : A) → (push a s).closed ≡ s.closed)
        → (enqueue encoded push is_long item s).closed ≡ s.closed
    unfolding enqueue
    enqueue_closed push is_long none s h = ground arith
    enqueue_closed push is_long (some a) s h =
        ground (arith, h a, admitted_closed (is_long (push a s)) (push a s))

    close_client_closed :
        (s : State E L P) → s.closing ≡ s.closed → (close_client encoded s).closed ≡ true
    unfolding close_client
    close_client_closed s h =
        ground
          (arith, flush_queues_closed (record s { closed = true; timer = false; closing = true }))

    fire_timer_closed : (s : State E L P) → (fire_timer encoded s).closed ≡ s.closed
    unfolding fire_timer
    fire_timer_closed s = ground (arith, flush_queues_closed (record s { timer = false }))

    drain_ends_closed :
        (f : Flushing E L P) (s : State E L P)
        → s.flushing ≡ f
        → (step encoded drain_ends s).closed ≡ s.closed
    unfolding step settle schedule_flush
    drain_ends_closed settling s e = simp (e, step) (ground arith)
    drain_ends_closed idle s e = simp (e, step)
    drain_ends_closed (sending batch) s e = simp (e, step)

    result_closed :
        (r : TransportResult) (f : Flushing E L P) (s : State E L P)
        → s.flushing ≡ f
        → (step encoded (result r) s).closed ≡ s.closed
    unfolding step
    result_closed r (sending batch) s e =
        simp (e, step) (resume_drain-Drains encoded batch _).closed
    result_closed r idle s e = simp (e, step)
    result_closed r settling s e = simp (e, step)

    -- Only `close` closes the client.
    step_closed :
        (c : Call E L P) (s : State E L P)
        → s.closing ≡ s.closed
        → (step encoded c s).closed ≡ (is_close c || s.closed)
    unfolding step
    step_closed (record_event item) s h = enqueue_closed _ _ item s (λ e. refl)
    step_closed (record_log item) s h = enqueue_closed _ _ item s (λ l. refl)
    step_closed (record_product item) s h = enqueue_closed _ _ item s (λ p. refl)
    step_closed flush s h = flush_queues_closed s
    step_closed close s h = close_client_closed s h
    step_closed timer_fires s h = ground (arith, fire_timer_closed s)
    step_closed drain_ends s h = drain_ends_closed s.flushing s refl
    step_closed (result r) s h = result_closed r s.flushing s refl

    -- The calls of `record`, `log` and `track` before the first `close`.
    unfoldable pub offers : List (Call E L P) → ℕ
    offers [] = 0
    offers (c ∷ cs) = let later = offer_of c + offers cs in if is_close c then 0 else later

    total_offered-offers :
        (cs : List (Call E L P)) (s : State E L P)
        → Inv s
        → total_offered encoded cs s ≡ (if s.closed then 0 else offers cs)
    unfolding total_offered offers
    total_offered-offers [] s v = ground arith
    total_offered-offers (c ∷ cs) s v = ground (
      arith,
      v.closes,
      step_closed c s v.closes,
      total_offered-offers cs (step encoded c s) (step-Inv encoded c s v),
    )

    -- Over any sequence of calls and results from the start, as many items as `record`, `log` and
    -- `track` were given before the first `close` are in a queue, in the request in flight, or in one
    -- of the counters `sentEvents`, `droppedDelivery`, `droppedInvalid` and `droppedOverflow`. The
    -- endpoint events of the completed requests, then those in flight, then the queue, are just those
    -- that were accepted, in their order and each as often as it was accepted; so are the logs; of the
    -- product events some may be missing there, and none is repeated or overtaken.
    pub run_accounts :
        (limits : Limits) (cs : List (Call E L P))
        → let start : State E L P = init limits in
          let end : State E L P = run encoded cs start in
          (known end ≡ offers cs)
          × (all_completed_events encoded cs start ++ pending_events end
              ≡ all_accepted_events encoded cs start)
          × (all_completed_logs encoded cs start ++ pending_logs end
              ≡ all_accepted_logs encoded cs start)
          × Sublistᴰ
              (all_completed_products encoded cs start ++ pending_products end)
              (all_accepted_products encoded cs start)
    unfolding init known
    run_accounts limits cs = (
      omega (
        arith,
        known-run encoded cs (init limits),
        total_offered-offers cs (init limits) (init-Inv limits),
      ),
      run_events_in_order encoded cs (init limits),
      run_logs_in_order encoded cs (init limits),
      run_products_in_order encoded cs (init limits),
    )
