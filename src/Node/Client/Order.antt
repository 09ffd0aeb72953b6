-- ===== src/Node/Client/Order.antt =====
-- The order in which endpoint events and logs leave the client.
use app_health.Prelude.{
  ◌≡◌, refl, sym, ◌∙◌, ap, List, [], ◌∷◌, ◌++◌, none, some, if◌then◌else◌, if_elim, append_assoc,
  append-nil, Bool-cases, inl, inr,
}
use app_health.Node.Transport.{TransportResult}
use app_health.Node.Client.{
  Flushing, idle, sending, settling, State, Encoded, Call, record_event, record_log, record_product,
  flush, close, timer_fires, drain_ends, result, payload_size, record_delivery_result, step, run,
  push_event, push_log,
}
use app_health.Node.Client.Pending.{
  flight_events, flight_logs, pending_events, pending_logs, Same, is_refused, resume_drain-Takes,
  flush_queues-Same, enqueue_refused, enqueue_invalid, enqueue_admitted, Same-self,
  record_product-Same, close-Same, fire_timer-Same, drain_ends-Same, result_sending,
}

-- One step and the rest of the run, composed.
in_order :
    {A : Type 0} (pending now after accepted later last done : List A)
    → done ++ now ≡ pending ++ accepted
    → after ++ last ≡ now ++ later
    → (done ++ after) ++ last ≡ pending ++ (accepted ++ later)
in_order pending now after accepted later last done h k =
    append_assoc done after last
    ∙ ap (◌++◌ done) k
    ∙ sym (append_assoc done now later)
    ∙ ap (λ xs. xs ++ later) h
    ∙ append_assoc pending accepted later

module _ {E L P : Type 0} where
  -- The endpoint events that a call puts into the queue, and those whose request it completes.
  unfoldable pub accepted_events : Call E L P → State E L P → List E
  accepted_events (record_event (some e)) s = if is_refused s then [] else e ∷ []
  accepted_events _ s = []

  unfoldable pub completed_events : Call E L P → State E L P → List E
  completed_events (result r) s = flight_events s.flushing
  completed_events _ s = []

  unfoldable pub accepted_logs : Call E L P → State E L P → List L
  accepted_logs (record_log (some l)) s = if is_refused s then [] else l ∷ []
  accepted_logs _ s = []

  unfoldable pub completed_logs : Call E L P → State E L P → List L
  completed_logs (result r) s = flight_logs s.flushing
  completed_logs _ s = []

  record Moves (c : Call E L P) (s t : State E L P) : Type 0 where
    events : completed_events c s ++ pending_events t ≡ pending_events s ++ accepted_events c s
    logs : completed_logs c s ++ pending_logs t ≡ pending_logs s ++ accepted_logs c s

  Same-Moves :
      (c : Call E L P) {s t : State E L P}
      → completed_events c s ++ pending_events t ≡ pending_events t
      → completed_logs c s ++ pending_logs t ≡ pending_logs t
      → accepted_events c s ≡ []
      → accepted_logs c s ≡ []
      → Same s t
      → Moves c s t
  Same-Moves c {s} ce cl ae al m = record {
    events = rw ae (ce ∙ m.events ∙ sym (append-nil (pending_events s)));
    logs = rw al (cl ∙ m.logs ∙ sym (append-nil (pending_logs s)));
  }

  module _ (encoded : Encoded E L P) where
    record_event-Moves :
        (e : E) (s : State E L P)
        → Moves (record_event (some e)) s (step encoded (record_event (some e)) s)
    unfolding step accepted_events accepted_logs completed_events completed_logs
    record_event-Moves e s = elim (Bool-cases (is_refused s)) [
      | inl refused ↦
          Same-Moves _ refl refl (rw refused refl) refl
            (enqueue_refused encoded (push_event encoded) _ s (some e) refused)
      | inr room ↦
          let m = enqueue_admitted encoded (push_event encoded) _ s e room in
          record {
            events =
                rw room (m.events ∙ sym (append_assoc (flight_events s.flushing) s.queue (e ∷ [])));
            logs = m.logs ∙ sym (append-nil (pending_logs s));
          }
    ]

    record_log-Moves :
        (l : L) (s : State E L P)
        → Moves (record_log (some l)) s (step encoded (record_log (some l)) s)
    unfolding step accepted_events accepted_logs completed_events completed_logs
    record_log-Moves l s = elim (Bool-cases (is_refused s)) [
      | inl refused ↦
          Same-Moves _ refl refl refl (rw refused refl)
            (enqueue_refused encoded (push_log encoded) _ s (some l) refused)
      | inr room ↦
          let m = enqueue_admitted encoded (push_log encoded) _ s l room in
          record {
            events = m.events ∙ sym (append-nil (pending_events s));
            logs =
                rw room (m.logs ∙ sym (append_assoc (flight_logs s.flushing) s.log_queue (l ∷ [])));
          }
    ]

    nothing_completed :
        (r : TransportResult) (s : State E L P)
        → flight_events s.flushing ≡ []
        → flight_logs s.flushing ≡ []
        → Moves (result r) s s
    unfolding accepted_events accepted_logs completed_events completed_logs
    nothing_completed r s he hl = record {
      events = ap (λ xs. xs ++ pending_events s) he ∙ sym (append-nil (pending_events s));
      logs = ap (λ xs. xs ++ pending_logs s) hl ∙ sym (append-nil (pending_logs s));
    }

    result-Moves :
        (r : TransportResult) (f : Flushing E L P) (s : State E L P)
        → s.flushing ≡ f
        → Moves (result r) s (step encoded (result r) s)
    unfolding step accepted_events accepted_logs completed_events completed_logs
    result-Moves r (sending batch) s e =
        let t =
          resume_drain-Takes encoded batch
            (record s { diag = record_delivery_result r (payload_size batch) s.diag }) in
        rw (result_sending encoded r batch s e) (record {
          events =
              ap (◌++◌ (flight_events s.flushing)) t.events ∙ sym (append-nil (pending_events s));
          logs = ap (◌++◌ (flight_logs s.flushing)) t.logs ∙ sym (append-nil (pending_logs s));
        })
    result-Moves r idle s e =
        let stays : step encoded (result r) s ≡ s = simp (e, step) in
        rw stays (nothing_completed r s (ap flight_events e) (ap flight_logs e))
    result-Moves r settling s e =
        let stays : step encoded (result r) s ≡ s = simp (e, step) in
        rw stays (nothing_completed r s (ap flight_events e) (ap flight_logs e))

    step-Moves : (c : Call E L P) (s : State E L P) → Moves c s (step encoded c s)
    unfolding step accepted_events accepted_logs completed_events completed_logs
    step-Moves (record_event none) s =
        Same-Moves _ refl refl refl refl (enqueue_invalid encoded _ _ s)
    step-Moves (record_event (some e)) s = record_event-Moves e s
    step-Moves (record_log none) s =
        Same-Moves _ refl refl refl refl (enqueue_invalid encoded _ _ s)
    step-Moves (record_log (some l)) s = record_log-Moves l s
    step-Moves (record_product none) s =
        Same-Moves _ refl refl refl refl (enqueue_invalid encoded _ _ s)
    step-Moves (record_product (some p)) s =
        Same-Moves _ refl refl refl refl (record_product-Same encoded p s)
    step-Moves flush s =
        Same-Moves _ refl refl refl refl (flush_queues-Same encoded s.flushing s refl)
    step-Moves close s = Same-Moves _ refl refl refl refl (close-Same encoded s)
    step-Moves timer_fires s =
        Same-Moves _ refl refl refl refl
          (if_elim (Same s) s.timer (λ e. fire_timer-Same encoded s) (λ e. Same-self s))
    step-Moves drain_ends s =
        Same-Moves _ refl refl refl refl (drain_ends-Same encoded s.flushing s refl)
    step-Moves (result r) s = result-Moves r s.flushing s refl

    -- The same of a sequence of calls, oldest first.
    unfoldable pub all_accepted_events : List (Call E L P) → State E L P → List E
    all_accepted_events [] s = []
    all_accepted_events (c ∷ cs) s =
        accepted_events c s ++ all_accepted_events cs (step encoded c s)

    unfoldable pub all_completed_events : List (Call E L P) → State E L P → List E
    all_completed_events [] s = []
    all_completed_events (c ∷ cs) s =
        completed_events c s ++ all_completed_events cs (step encoded c s)

    -- Endpoint events leave in the order in which they were accepted: the events of the completed
    -- requests, then those of the request in flight, then the queue, are those that were there at the
    -- start and then the accepted ones; none is lost, repeated or overtaken, whatever the results.
    pub run_events_in_order :
        (cs : List (Call E L P)) (s : State E L P)
        → all_completed_events cs s ++ pending_events (run encoded cs s)
          ≡ pending_events s ++ all_accepted_events cs s
    unfolding run all_accepted_events all_completed_events
    run_events_in_order [] s = sym (append-nil (pending_events s))
    run_events_in_order (c ∷ cs) s =
        in_order _ _ _ _ _ _ (completed_events c s) (step-Moves c s).events
          (run_events_in_order cs (step encoded c s))

    unfoldable pub all_accepted_logs : List (Call E L P) → State E L P → List L
    all_accepted_logs [] s = []
    all_accepted_logs (c ∷ cs) s = accepted_logs c s ++ all_accepted_logs cs (step encoded c s)

    unfoldable pub all_completed_logs : List (Call E L P) → State E L P → List L
    all_completed_logs [] s = []
    all_completed_logs (c ∷ cs) s = completed_logs c s ++ all_completed_logs cs (step encoded c s)

    -- Logs leave in the order in which they were accepted, in the same sense.
    pub run_logs_in_order :
        (cs : List (Call E L P)) (s : State E L P)
        → all_completed_logs cs s ++ pending_logs (run encoded cs s)
          ≡ pending_logs s ++ all_accepted_logs cs s
    unfolding run all_accepted_logs all_completed_logs
    run_logs_in_order [] s = sym (append-nil (pending_logs s))
    run_logs_in_order (c ∷ cs) s =
        in_order _ _ _ _ _ _ (completed_logs c s) (step-Moves c s).logs
          (run_logs_in_order cs (step encoded c s))
