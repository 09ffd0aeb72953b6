-- ===== src/Node/Client/Products.antt =====
-- The product events of the client: they leave in order, but for those that fit in no request.
use app_health.Prelude.{
  ◌*◌, ◌≡◌, refl, sym, min, Bool, true, false, List, [], ◌∷◌, ◌++◌, Option, none, some, arith, ◌==◌,
  if_elim, Bool-cases, inl, inr, subst,
}
use mathlib.Core.List.{Sublistᴰ}
use mathlib.Core.List.Sublistᴰ
use app_health.Node.Diagnostics.{Counter, increment, set_queued}
use app_health.Node.Batching.{take_sized_batch}
use app_health.Node.Batching.Laws.{take_sized_batch-IsLongest}
use app_health.Node.Client.{
  Payload, events, logs, products, Flushing, idle, sending, settling, State, Encoded, drain_ends,
  queued, is_idle, drain_products, drain_logs, drain_events, resume_drain, flush_queues,
  schedule_flush, admitted, enqueue, close_client, settle, fire_timer, step,
}
use app_health.Node.Client.Pending.{is_refused}

pub same_list : {A : Type 0} {xs : List A} → Sublistᴰ xs xs
same_list {A} {xs} = Sublistᴰ.refl xs

module _ {E L P : Type 0} where
  abbrev pub flight_products : Flushing E L P → List P
  flight_products (sending (products xs)) = xs
  flight_products _ = []

  abbrev pub pending_products : State E L P → List P
  pending_products s = flight_products s.flushing ++ s.product_queue

  module _ (encoded : Encoded E L P) where
    drained_products :
        (ps : List P) (s : State E L P)
        → Sublistᴰ (pending_products (drain_products encoded ps s)) ps
    unfolding drain_products
    drained_products [] s = same_list
    drained_products (p ∷ ps) s =
        by_batch
          (take_sized_batch encoded.product (min s.limits.max_batch_size 100) (64 * 1024)
            (p ∷ ps)).0
          refl (λ t. drained_products ps t)
      where
        by_batch :
            (batch : List P)
            → (take_sized_batch encoded.product
                (min s.limits.max_batch_size 100)
                (64 * 1024)
                (p ∷ ps)).0
              ≡ batch
            → ((t : State E L P) → Sublistᴰ (pending_products (drain_products encoded ps t)) ps)
            → Sublistᴰ (pending_products (drain_products encoded (p ∷ ps) s)) (p ∷ ps)
        by_batch [] e rest =
            rw (e, drain_products)
              (Sublistᴰ.cons (
                rest (record s {
                  product_queue = ps;
                  diag = increment Counter.dropped_invalid 1 s.diag;
                })))
        by_batch (x ∷ xs) e rest =
            let whole =
              (take_sized_batch-IsLongest encoded.product (min s.limits.max_batch_size 100)
                (64 * 1024) (p ∷ ps)).0 in
            rw (e, drain_products)
              (subst (λ (ys : List P). Sublistᴰ ys (p ∷ ps)) (sym (rw e at whole)) same_list)

    drained_logs :
        (ls : List L) (s : State E L P)
        → s.log_queue ≡ ls
        → Sublistᴰ (pending_products (drain_logs encoded s)) s.product_queue
    unfolding drain_logs
    drained_logs [] s e = rw (e, drain_logs) (drained_products s.product_queue s)
    drained_logs (l ∷ ls) s e = rw (e, drain_logs) same_list

    drained_events :
        (es : List E) (s : State E L P)
        → s.queue ≡ es
        → Sublistᴰ (pending_products (drain_events encoded s)) s.product_queue
    unfolding drain_events
    drained_events [] s e = rw (e, drain_events) (drained_logs s.log_queue s refl)
    drained_events (x ∷ es) s e = rw (e, drain_events) same_list

    pub resumed :
        (batch : Payload E L P) (s : State E L P)
        → Sublistᴰ (pending_products (resume_drain encoded batch s)) s.product_queue
    unfolding resume_drain
    resumed (events xs) s = drained_events s.queue s refl
    resumed (logs xs) s = drained_logs s.log_queue s refl
    resumed (products xs) s = drained_products s.product_queue s

    pub flushed :
        (f : Flushing E L P) (s : State E L P)
        → s.flushing ≡ f
        → Sublistᴰ (pending_products (flush_queues encoded s)) (pending_products s)
    unfolding flush_queues
    flushed idle s e =
        rw (e, flush_queues)
          (if_elim (λ (t : State E L P). Sublistᴰ (pending_products t) s.product_queue)
            (queued s == 0) (λ k. rw e same_list) (λ k. drained_events s.queue s refl))
    flushed (sending batch) s e = rw (e, flush_queues) (rw e same_list)
    flushed settling s e = rw (e, flush_queues) (rw e same_list)

    scheduled : (s : State E L P) → pending_products (schedule_flush s) ≡ pending_products s
    unfolding schedule_flush
    scheduled s = ground arith

    pub admitted_products :
        (long : Bool) (s : State E L P)
        → Sublistᴰ (pending_products (admitted encoded long s)) (pending_products s)
    unfolding admitted
    admitted_products long s =
        let s' = record s { diag = set_queued (queued s) s.diag } in
        let within =
          subst (λ ps. Sublistᴰ (pending_products (schedule_flush s')) ps) (scheduled s')
            same_list in
        if_elim (λ (t : State E L P). Sublistᴰ (pending_products t) (pending_products s)) long
          (λ k.
            Sublistᴰ.trans (flushed (schedule_flush s').flushing (schedule_flush s') refl) within)
          (λ k. within)

    module _ {A : Type 0} (push : A → State E L P → State E L P) (is_long : State E L P → Bool)
        (s : State E L P) where
      pub turned_away :
          (item : Option A)
          → is_refused s ≡ true
          → pending_products (enqueue encoded push is_long item s) ≡ pending_products s
      unfolding enqueue
      turned_away none h = ground arith
      turned_away (some a) h = ground arith

      pub invalid : pending_products (enqueue encoded push is_long none s) ≡ pending_products s
      unfolding enqueue
      invalid = ground arith

      pub let_in :
          (a : A)
          → is_refused s ≡ false
          → enqueue encoded push is_long (some a) s
            ≡ admitted encoded (is_long (push a s)) (push a s)
      unfolding enqueue
      let_in a h = ground arith

      -- An item of another kind.
      pub passed_by :
          (item : Option A)
          → ((a : A) → pending_products (push a s) ≡ pending_products s)
          → Sublistᴰ (pending_products (enqueue encoded push is_long item s)) (pending_products s)
      passed_by none same = rw invalid same_list
      passed_by (some a) same = elim (Bool-cases (is_refused s)) [
        | inl refused ↦ rw (turned_away (some a) refused) same_list
        | inr room ↦ rw (let_in a room) (
            subst
              (λ ps.
                Sublistᴰ (pending_products (admitted encoded (is_long (push a s)) (push a s))) ps)
              (same a) (admitted_products (is_long (push a s)) (push a s)))
      ]

    pub closed_products :
        (s : State E L P)
        → Sublistᴰ (pending_products (close_client encoded s)) (pending_products s)
    unfolding close_client
    closed_products s =
        let s' = record s { closed = true; timer = false; closing = true } in
        if_elim (λ (t : State E L P). Sublistᴰ (pending_products t) (pending_products s)) s.closing
          (λ k. same_list) (λ k. flushed s'.flushing s' refl)

    pub fired_products :
        (s : State E L P) → Sublistᴰ (pending_products (fire_timer encoded s)) (pending_products s)
    unfolding fire_timer
    fired_products s =
        let s' = record s { timer = false } in
        if_elim (λ (t : State E L P). Sublistᴰ (pending_products t) (pending_products s))
          (is_idle (flush_queues encoded s').flushing) (λ k. flushed s'.flushing s' refl)
          (λ k. flushed s'.flushing s' refl)

    pub ended_products :
        (f : Flushing E L P) (s : State E L P)
        → s.flushing ≡ f
        → pending_products (step encoded drain_ends s) ≡ pending_products s
    unfolding step settle schedule_flush
    ended_products settling s e = simp (e, step) (ground arith)
    ended_products idle s e = simp (e, step)
    ended_products (sending batch) s e = simp (e, step)
