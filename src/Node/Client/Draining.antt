-- ===== src/Node/Client/Draining.antt =====
-- A flush ends, and sends what was waiting.
use app_health.Prelude.{
  ℕ, zero, suc, ◌+◌, ◌*◌, ◌≤◌, ◌<◌, ◌≡◌, refl, ap, ◌⊎◌, inl, inr, min, false, List, [], ◌∷◌, arith,
  length, ◌==◌, map, drop, List-cases,
}
use app_health.Node.Transport.{TransportResult}
use app_health.Node.Diagnostics.{Diagnostics, Counter, increment}
use app_health.Node.Batching.{envelope_bytes, body_limit, take_sized_batch}
use app_health.Node.Batching.Laws.{
  take_sized_batch_progress, length-take_sized_batch, take_sized_batch_rest,
}
use app_health.Node.Client.{
  Payload, events, logs, products, Flushing, idle, sending, settling, State, Encoded, result,
  queued, payload_size, record_delivery_result, drain_products, drain_logs, drain_events,
  resume_drain, flush_queues, step, run,
}
use app_health.Node.Client.Pending.{result_sending, result_settling}

-- Every item fits in a request of its own.
abbrev pub AllFit {ℓ} : {A : Type ℓ} → (A → ℕ) → List A → Type 0
AllFit encoded [] = Unit {0}
AllFit encoded (x ∷ xs) = (envelope_bytes + (encoded x + 1) ≤ body_limit) × AllFit encoded xs

AllFit-drop {ℓ} :
    {A : Type ℓ} (encoded : A → ℕ) (n : ℕ) (xs : List A)
    → AllFit encoded xs
    → AllFit encoded (drop n xs)
AllFit-drop encoded zero xs h = h
AllFit-drop encoded (suc n) [] h = tt
AllFit-drop encoded (suc n) (x ∷ xs) h = AllFit-drop encoded n xs h.1

module _ {E L P : Type 0} (encoded : Encoded E L P) where
  -- The endpoint events and logs fit, and batches are not empty.
  pub record Sendable (s : State E L P) : Type 0 where
    pub events_fit : AllFit encoded.event s.queue
    pub logs_fit : AllFit encoded.log s.log_queue
    pub some_events : 0 < s.limits.max_batch_size
    pub some_logs : 0 < s.limits.log_batch_size

  -- The loops before the one that waits have emptied their queues.
  abbrev Stage : Flushing E L P → State E L P → Type 0
  Stage (sending (events xs)) s = Unit {0}
  Stage (sending (logs xs)) s = s.queue ≡ []
  Stage (sending (products xs)) s = (s.queue ≡ []) × (s.log_queue ≡ [])
  Stage settling s = queued s ≡ 0
  Stage idle s = ⊥

  -- A drain from a state with `n` items has sent a batch of them or found none.
  record Progress (n : ℕ) (t : State E L P) : Type 0 where
    sendable : Sendable t
    stage : Stage t.flushing t
    fewer : (queued t < n) ⊎ (t.flushing ≡ settling)

  drain_products-Progress :
      (ps : List P) (s : State E L P)
      → Sendable s
      → s.queue ≡ []
      → s.log_queue ≡ []
      → s.product_queue ≡ ps
      → Progress (queued s) (drain_products encoded ps s)
  unfolding drain_products queued
  drain_products-Progress [] s v e l p = record {
    sendable = record {
      events_fit = v.events_fit;
      logs_fit = v.logs_fit;
      some_events = v.some_events;
      some_logs = v.some_logs;
    };
    stage = rw (e, l) refl;
    fewer = inr refl;
  }
  drain_products-Progress (p ∷ ps) s v e l q = elim (List-cases cut.0) [
    | inl none_fits ↦
        rw (none_fits, drain_products)
          (skipped (drain_products-Progress ps dropped sendable e l refl))
    | inr (x, xs, taken) ↦
        rw (taken, drain_products)
          (record {
            sendable = record {
              events_fit = v.events_fit;
              logs_fit = v.logs_fit;
              some_events = v.some_events;
              some_logs = v.some_logs;
            };
            stage = (e, l);
            fewer = inl (omega (arith, shorter, ap length taken, ap length q));
          })
  ]
    where
      cut : List P × List P
      cut = take_sized_batch encoded.product (min s.limits.max_batch_size 100) (64 * 1024) (p ∷ ps)

      dropped : State E L P
      dropped = record s { product_queue = ps; diag = increment Counter.dropped_invalid 1 s.diag }

      sendable : Sendable dropped
      sendable = record {
        events_fit = v.events_fit;
        logs_fit = v.logs_fit;
        some_events = v.some_events;
        some_logs = v.some_logs;
      }

      shorter : length cut.0 + length cut.1 ≡ suc (length ps)
      shorter =
          length-take_sized_batch encoded.product (min s.limits.max_batch_size 100) (64 * 1024)
            (p ∷ ps)

      skipped :
          Progress (queued dropped) (drain_products encoded ps dropped)
          → Progress (queued s) (drain_products encoded ps dropped)
      skipped g = record {
        sendable = g.sendable;
        stage = g.stage;
        fewer = elim g.fewer [ inl h ↦ inl (omega (arith, ap length q)) | inr h ↦ inr h ];
      }

  drain_logs-Progress :
      (ls : List L) (s : State E L P)
      → Sendable s
      → s.queue ≡ []
      → s.log_queue ≡ ls
      → Progress (queued s) (drain_logs encoded s)
  unfolding drain_logs queued
  drain_logs-Progress [] s v e l =
      let on : drain_logs encoded s ≡ drain_products encoded s.product_queue s =
        simp (l, drain_logs) in
      rw on (drain_products-Progress s.product_queue s v e l refl)
  drain_logs-Progress (x ∷ ls) s v e l =
      let size = s.limits.log_batch_size in
      let fit = rw l at v.logs_fit in
      let (xs, first) =
        take_sized_batch_progress encoded.log size body_limit x ls v.some_logs fit.0 in
      let (n, rest) = take_sized_batch_rest encoded.log size body_limit (x ∷ ls) in
      let total = length-take_sized_batch encoded.log size body_limit (x ∷ ls) in
      simp (l, drain_logs)
        (record {
          sendable = record {
            events_fit = v.events_fit;
            logs_fit = rw rest (AllFit-drop encoded.log n (x ∷ ls) fit);
            some_events = v.some_events;
            some_logs = v.some_logs;
          };
          stage = e;
          fewer = inl (omega (arith, total, ap length first, ap length l));
        })

  drain_events-Progress :
      (es : List E) (s : State E L P)
      → Sendable s
      → s.queue ≡ es
      → Progress (queued s) (drain_events encoded s)
  unfolding drain_events queued
  drain_events-Progress [] s v e =
      let on : drain_events encoded s ≡ drain_logs encoded s = simp (e, drain_events) in
      rw on (drain_logs-Progress s.log_queue s v e refl)
  drain_events-Progress (x ∷ es) s v e =
      let size = min s.limits.max_batch_size 250 in
      let some : 0 < size = omega (arith, v.some_events) in
      let fit = rw e at v.events_fit in
      let (xs, first) = take_sized_batch_progress encoded.event size body_limit x es some fit.0 in
      let (n, rest) = take_sized_batch_rest encoded.event size body_limit (x ∷ es) in
      let total = length-take_sized_batch encoded.event size body_limit (x ∷ es) in
      simp (e, drain_events)
        (record {
          sendable = record {
            events_fit = rw rest (AllFit-drop encoded.event n (x ∷ es) fit);
            logs_fit = v.logs_fit;
            some_events = v.some_events;
            some_logs = v.some_logs;
          };
          stage = tt;
          fewer = inl (omega (arith, total, ap length first, ap length e));
        })

  resume_drain-Progress :
      (batch : Payload E L P) (s : State E L P)
      → Sendable s
      → Stage (sending batch) s
      → Progress (queued s) (resume_drain encoded batch s)
  unfolding resume_drain
  resume_drain-Progress (events xs) s v g = drain_events-Progress s.queue s v refl
  resume_drain-Progress (logs xs) s v g = drain_logs-Progress s.log_queue s v g refl
  resume_drain-Progress (products xs) s v g =
      drain_products-Progress s.product_queue s v g.0 g.1 refl

  Stage-diag :
      (batch : Payload E L P) (d : Diagnostics) (s : State E L P)
      → Stage (sending batch) s
      → Stage (sending batch) (record s { diag = d })
  Stage-diag (events xs) d s g = g
  Stage-diag (logs xs) d s g = g
  Stage-diag (products xs) d s g = g

  Sendable-diag :
      (d : Diagnostics) (s : State E L P) → Sendable s → Sendable (record s { diag = d })
  Sendable-diag d s v = record {
    events_fit = v.events_fit;
    logs_fit = v.logs_fit;
    some_events = v.some_events;
    some_logs = v.some_logs;
  }

  -- Enough results end the drain, and then nothing waits.
  abbrev pub Drained : State E L P → Type 0
  Drained t = (t.flushing ≡ settling) × (queued t ≡ 0)

  drain_terminates :
      (rs : List TransportResult) (s : State E L P) (f : Flushing E L P)
      → s.flushing ≡ f
      → Sendable s
      → Stage f s
      → (queued s < length rs) ⊎ (f ≡ settling)
      → Drained (run encoded (map result rs) s)
  unfolding run queued
  drain_terminates rs s idle e v g m = absurd g
  drain_terminates [] s settling e v g m = (e, g)
  drain_terminates [] s (sending batch) e v g (inl m) = absurd (omega arith)
  drain_terminates [] s (sending batch) e v g (inr m) = absurd cc
  drain_terminates (r ∷ rs) s settling e v g m =
      let stays : step encoded (result r) s ≡ s = result_settling encoded r s e in
      rw (stays, run) (drain_terminates rs s settling e v g (inr refl))
  drain_terminates (r ∷ rs) s (sending batch) e v g m =
      let d = record_delivery_result r (payload_size batch) s.diag in
      let p =
        resume_drain-Progress batch (record s { diag = d }) (Sendable-diag d s v)
          (Stage-diag batch d s g) in
      rw (result_sending encoded r batch s e, run)
        (drain_terminates rs (resume_drain encoded batch (record s { diag = d })) _ refl p.sendable
          p.stage
          (elim m [
            | inl more ↦ elim p.fewer [ inl h ↦ inl (omega arith) | inr h ↦ inr h ]
            | inr done ↦ absurd cc
          ]))

  -- A flush of waiting items ends after at most one request for each of them and one more result:
  -- if every endpoint event and log fits in a request of its own, then after that many results,
  -- delivered or not, the drain has run through its loops and all three queues are empty.
  pub flush_terminates :
      (s : State E L P) (rs : List TransportResult)
      → Sendable s
      → s.flushing ≡ idle
      → 0 < queued s
      → queued s < length rs
      → Drained (run encoded (map result rs) (flush_queues encoded s))
  unfolding flush_queues
  flush_terminates s rs v e waiting m =
      let p = drain_events-Progress s.queue s v refl in
      let nonempty : (queued s == 0) ≡ false = ground arith in
      let starts : flush_queues encoded s ≡ drain_events encoded s =
        simp (e, nonempty, flush_queues) in
      rw starts (
        drain_terminates rs (drain_events encoded s) _ refl p.sendable p.stage
          (elim p.fewer [ inl h ↦ inl (omega arith) | inr h ↦ inr h ]))
