-- ===== src/Node/Client/Stranding.antt =====
-- `close` during a drain that is past the endpoint loop leaves endpoint events behind.
use app_health.Prelude.{
  ◌≡◌, refl, ap, ◌∙◌, Bool, true, false, List, [], ◌∷◌, Option, arith, if_elim, all, not,
}
use app_health.Node.Transport.{TransportResult}
use app_health.Node.Diagnostics.{Counter, increment}
use app_health.Node.Client.{
  Payload, events, logs, products, Flushing, idle, sending, settling, State, Encoded, Call,
  record_event, record_log, record_product, flush, close, timer_fires, drain_ends, result,
  payload_size, record_delivery_result, drain_products, drain_logs, resume_drain, flush_queues,
  enqueue, close_client, settle, schedule_flush, step, run,
}
use app_health.Node.Client.Frame.{resume_drain-Drains}
use app_health.Node.Client.Pending.{result_sending, result_settling}

open_and_closed : {b : Bool} → b ≡ false → b ≡ true → ⊥
open_and_closed h k = cc

module _ {E L P : Type 0} where
  -- A drain that is past the endpoint loop.
  abbrev pub is_late : Flushing E L P → Bool
  is_late (sending (logs xs)) = true
  is_late (sending (products xs)) = true
  is_late settling = true
  is_late _ = false

  abbrev pub is_end : Call E L P → Bool
  is_end drain_ends = true
  is_end _ = false

  -- `close` waits for such a drain.
  record Waits (q : List E) (s : State E L P) : Type 0 where
    queue : s.queue ≡ q
    closed : s.closed ≡ true
    closing : s.closing ≡ true
    timer : s.timer ≡ false
    late : is_late s.flushing ≡ true

  module _ (encoded : Encoded E L P) where
    drain_products_late :
        (ps : List P) (s : State E L P)
        → let t = drain_products encoded ps s in (t.queue ≡ s.queue) × (is_late t.flushing ≡ true)
    unfolding drain_products
    drain_products_late [] s = (refl, refl)
    drain_products_late (p ∷ ps) s =
        let dropped = record s {
          product_queue = ps;
          diag = increment Counter.dropped_invalid 1 s.diag;
        } in
        ground (arith, drain_products_late ps dropped)

    drain_logs_late :
        (ls : List L) (s : State E L P)
        → s.log_queue ≡ ls
        → let t = drain_logs encoded s in (t.queue ≡ s.queue) × (is_late t.flushing ≡ true)
    unfolding drain_logs
    drain_logs_late [] s e = simp (e, drain_logs) (drain_products_late s.product_queue s)
    drain_logs_late (l ∷ ls) s e = simp (e, drain_logs) (refl, refl)

    resume_drain_late :
        (batch : Payload E L P) (s : State E L P)
        → is_late (sending batch) ≡ true
        → let t = resume_drain encoded batch s in (t.queue ≡ s.queue) × (is_late t.flushing ≡ true)
    unfolding resume_drain
    resume_drain_late (events xs) s h = absurd cc
    resume_drain_late (logs xs) s h = drain_logs_late s.log_queue s refl
    resume_drain_late (products xs) s h = drain_products_late s.product_queue s

    flush_queues_busy :
        (f : Flushing E L P) (s : State E L P)
        → s.flushing ≡ f
        → is_late f ≡ true
        → flush_queues encoded s ≡ s
    unfolding flush_queues
    flush_queues_busy idle s e h = absurd cc
    flush_queues_busy (sending batch) s e h = simp (e, flush_queues)
    flush_queues_busy settling s e h = simp (e, flush_queues)

    enqueue-Waits :
        {A : Type 0} {q : List E} (push : A → State E L P → State E L P)
        (is_long : State E L P → Bool) (item : Option A) (s : State E L P)
        → Waits q s
        → Waits q (enqueue encoded push is_long item s)
    unfolding enqueue
    enqueue-Waits {q} push is_long item s w =
        if_elim (Waits q) s.closed (λ e. w) (λ e. absurd (open_and_closed e w.closed))

    result-Waits :
        {q : List E} (r : TransportResult) (f : Flushing E L P) (s : State E L P)
        → s.flushing ≡ f
        → Waits q s
        → Waits q (step encoded (result r) s)
    result-Waits r (sending batch) s e w =
        let s' = record s { diag = record_delivery_result r (payload_size batch) s.diag } in
        let d = resume_drain-Drains encoded batch s' in
        let (same, late) = resume_drain_late batch s' (rw e at w.late) in
        rw (result_sending encoded r batch s e) (record {
          queue = same ∙ w.queue;
          closed = d.closed ∙ w.closed;
          closing = d.closing ∙ w.closing;
          timer = d.timer ∙ w.timer;
          late = late;
        })
    result-Waits r settling s e w = rw (result_settling encoded r s e) w
    result-Waits r idle s e w = absurd (open_and_closed (ap is_late e) w.late)

    step-Waits :
        {q : List E} (c : Call E L P) (s : State E L P)
        → is_end c ≡ false
        → Waits q s
        → Waits q (step encoded c s)
    unfolding step close_client
    step-Waits (record_event item) s h w = enqueue-Waits _ _ item s w
    step-Waits (record_log item) s h w = enqueue-Waits _ _ item s w
    step-Waits (record_product item) s h w = enqueue-Waits _ _ item s w
    step-Waits flush s h w = rw (flush_queues_busy s.flushing s refl w.late) w
    step-Waits {q} close s h w =
        if_elim (Waits q) s.closing (λ e. w) (λ e. absurd (open_and_closed e w.closing))
    step-Waits {q} timer_fires s h w =
        if_elim (Waits q) s.timer (λ e. absurd (open_and_closed w.timer e)) (λ e. w)
    step-Waits drain_ends s h w = absurd cc
    step-Waits (result r) s h w = result-Waits r s.flushing s refl w

    run-Waits :
        {q : List E} (cs : List (Call E L P)) (s : State E L P)
        → all (λ c. not (is_end c)) cs ≡ true
        → Waits q s
        → Waits q (run encoded cs s)
    unfolding run
    run-Waits [] s h w = w
    run-Waits (c ∷ cs) s h w =
        run-Waits cs (step encoded c s) (ground arith) (step-Waits c s (ground arith) w)

    drain_ends_queue :
        (f : Flushing E L P) (s : State E L P)
        → s.flushing ≡ f
        → (step encoded drain_ends s).queue ≡ s.queue
    unfolding step settle schedule_flush
    drain_ends_queue settling s e = simp (e, step) (ground arith)
    drain_ends_queue idle s e = simp (e, step)
    drain_ends_queue (sending batch) s e = simp (e, step)

    close-Waits :
        (s : State E L P)
        → s.closing ≡ false
        → is_late s.flushing ≡ true
        → Waits s.queue (step encoded close s)
    unfolding step close_client
    close-Waits s h late =
        let s' = record s { closed = true; timer = false; closing = true } in
        if_elim (Waits s.queue) s.closing (λ e. absurd (open_and_closed h e))
          (λ e.
            rw (flush_queues_busy s'.flushing s' refl late)
              (record { queue = refl; closed = refl; closing = refl; timer = refl; late = late }))

    -- The drain that `close` waits for ends without the endpoint events that were recorded while it
    -- was past the endpoint loop: whatever is called and whatever results come in until that end, the
    -- queue of endpoint events is afterwards what it was when `close` was called.
    pub close_strands_events :
        (s : State E L P) (cs : List (Call E L P))
        → s.closing ≡ false
        → is_late s.flushing ≡ true
        → all (λ c. not (is_end c)) cs ≡ true
        → (step encoded drain_ends (run encoded cs (step encoded close s))).queue ≡ s.queue
    close_strands_events s cs h late quiet =
        let t = run encoded cs (step encoded close s) in
        drain_ends_queue t.flushing t refl
        ∙ (run-Waits cs (step encoded close s) quiet (close-Waits s h late)).queue
