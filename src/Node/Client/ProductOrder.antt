-- ===== src/Node/Client/ProductOrder.antt =====
-- The order in which product events leave the client, and that none leaves twice.
use app_health.Prelude.{
  ◌≡◌, refl, sym, ap, min, List, [], ◌∷◌, ◌++◌, none, some, leb, if◌then◌else◌, length, if_elim,
  append_assoc, append-nil, Bool-cases, inl, inr, subst,
}
use mathlib.Core.List.{Sublistᴰ}
use mathlib.Core.List.Sublistᴰ
use app_health.Node.Transport.{TransportResult}
use app_health.Node.Client.{
  Flushing, idle, sending, settling, State, Encoded, Call, record_event, record_log, record_product,
  flush, close, timer_fires, drain_ends, result, payload_size, record_delivery_result, admitted,
  step, run, push_event, push_log, push_product,
}
use app_health.Node.Client.Pending.{is_refused, result_sending}
use app_health.Node.Client.Products.{
  same_list, flight_products, pending_products, resumed, flushed, admitted_products, turned_away,
  invalid, let_in, passed_by, closed_products, fired_products, ended_products,
}

-- One step and the rest of the run, composed.
within_order :
    {A : Type 0} (pending now after accepted later last done : List A)
    → Sublistᴰ (done ++ now) (pending ++ accepted)
    → Sublistᴰ (after ++ last) (now ++ later)
    → Sublistᴰ ((done ++ after) ++ last) (pending ++ (accepted ++ later))
within_order pending now after accepted later last done h k =
    let first : Sublistᴰ (done ++ (after ++ last)) (done ++ (now ++ later)) =
      Sublistᴰ.append (Sublistᴰ.refl done) k in
    let second : Sublistᴰ ((done ++ now) ++ later) ((pending ++ accepted) ++ later) =
      Sublistᴰ.append h (Sublistᴰ.refl later) in
    rw (append_assoc done after last, ← append_assoc pending accepted later)
      (Sublistᴰ.trans first (rw (append_assoc done now later) at second))

-- Where nothing is accepted.
quiet : {A : Type 0} (ps qs : List A) → Sublistᴰ ps qs → Sublistᴰ ps (qs ++ [])
quiet ps qs h = rw (append-nil qs) h

module _ {E L P : Type 0} where
  -- The product events that a call puts into the queue, and those whose request it completes.
  unfoldable pub accepted_products : Call E L P → State E L P → List P
  accepted_products (record_product (some p)) s = if is_refused s then [] else p ∷ []
  accepted_products _ s = []

  unfoldable pub completed_products : Call E L P → State E L P → List P
  completed_products (result r) s = flight_products s.flushing
  completed_products _ s = []

  module _ (encoded : Encoded E L P) where
    product_recorded :
        (p : P) (s : State E L P)
        → Sublistᴰ
            (pending_products (step encoded (record_product (some p)) s))
            (pending_products s ++ accepted_products (record_product (some p)) s)
    unfolding step accepted_products
    product_recorded p s = elim (Bool-cases (is_refused s)) [
      | inl refused ↦
          rw (refused, turned_away encoded (push_product encoded) _ s (some p) refused)
            (quiet (pending_products s) (pending_products s) same_list)
      | inr room ↦
          let s' = push_product encoded p s in
          let long = leb (min s'.limits.max_batch_size 100) (length s'.product_queue) in
          rw (room, let_in encoded (push_product encoded) _ s p room)
            (subst (λ ps. Sublistᴰ (pending_products (admitted encoded long s')) ps)
              (sym (append_assoc (flight_products s.flushing) s.product_queue (p ∷ [])))
              (admitted_products encoded long s'))
    ]

    result_products :
        (r : TransportResult) (f : Flushing E L P) (s : State E L P)
        → s.flushing ≡ f
        → Sublistᴰ
            (flight_products s.flushing ++ pending_products (step encoded (result r) s))
            (pending_products s)
    unfolding step
    result_products r (sending batch) s e = rw (result_sending encoded r batch s e) (
        Sublistᴰ.append (Sublistᴰ.refl (flight_products s.flushing)) (
          resumed encoded batch
            (record s { diag = record_delivery_result r (payload_size batch) s.diag })))
    result_products r idle s e =
        let stays : step encoded (result r) s ≡ s = simp (e, step) in
        rw (stays, ap flight_products e) same_list
    result_products r settling s e =
        let stays : step encoded (result r) s ≡ s = simp (e, step) in
        rw (stays, ap flight_products e) same_list

    step_products :
        (c : Call E L P) (s : State E L P)
        → Sublistᴰ
            (completed_products c s ++ pending_products (step encoded c s))
            (pending_products s ++ accepted_products c s)
    unfolding step accepted_products completed_products
    step_products (record_event item) s =
        quiet _ _ (passed_by encoded (push_event encoded) _ s item (λ e. refl))
    step_products (record_log item) s =
        quiet _ _ (passed_by encoded (push_log encoded) _ s item (λ l. refl))
    step_products (record_product none) s =
        quiet _ _ (rw (invalid encoded (push_product encoded) _ s) same_list)
    step_products (record_product (some p)) s = product_recorded p s
    step_products flush s = quiet _ _ (flushed encoded s.flushing s refl)
    step_products close s = quiet _ _ (closed_products encoded s)
    step_products timer_fires s = quiet _ _ (
        if_elim (λ (t : State E L P). Sublistᴰ (pending_products t) (pending_products s)) s.timer
          (λ k. fired_products encoded s) (λ k. same_list))
    step_products drain_ends s = quiet _ _ (rw (ended_products encoded s.flushing s refl) same_list)
    step_products (result r) s = quiet _ _ (result_products r s.flushing s refl)

    unfoldable pub all_accepted_products : List (Call E L P) → State E L P → List P
    all_accepted_products [] s = []
    all_accepted_products (c ∷ cs) s =
        accepted_products c s ++ all_accepted_products cs (step encoded c s)

    unfoldable pub all_completed_products : List (Call E L P) → State E L P → List P
    all_completed_products [] s = []
    all_completed_products (c ∷ cs) s =
        completed_products c s ++ all_completed_products cs (step encoded c s)

    -- Product events leave in the order in which they were accepted, none twice.
    pub run_products_in_order :
        (cs : List (Call E L P)) (s : State E L P)
        → Sublistᴰ
            (all_completed_products cs s ++ pending_products (run encoded cs s))
            (pending_products s ++ all_accepted_products cs s)
    unfolding run all_accepted_products all_completed_products
    run_products_in_order [] s = quiet _ _ same_list
    run_products_in_order (c ∷ cs) s =
        within_order _ _ _ _ _ _ (completed_products c s) (step_products c s)
          (run_products_in_order cs (step encoded c s))
