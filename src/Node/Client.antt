-- ===== src/Node/Client.antt =====
-- packages/node/src/client.ts: the queues of the client, their admission, and the drain that empties
-- them one request at a time. The event loop enters as a sequence of calls: `record`, `log`, `track`,
-- `flush` and `close` of the application, a timer that fires, the result of the request in flight,
-- and the microtask that ends a drain.
pub mod Frame
pub mod Invariant
pub mod Pending
pub mod Order
pub mod Products
pub mod ProductOrder
pub mod Accounting
pub mod Closing
pub mod Draining
pub mod Stranding
mod Tests
use app_health.Prelude.{
  ℕ, zero, suc, ◌+◌, ◌*◌, ◌<◌, min, Bool, true, false, not, ◌&&◌, ◌||◌, List, [], ◌∷◌, ◌++◌, Option,
  none, some, ltb, leb, ◌==◌, if◌then◌else◌, length, is_some,
}
use app_health.Node.Transport.{TransportResult, delivered, undelivered, SendError}
use app_health.Node.Diagnostics.{
  Diagnostics, Counter, empty_diagnostics, increment, set_queued, set_last_error,
}
use app_health.Node.Batching.{take_sized_batch, body_limit}

-- What the drain and the admission read of `ResolvedClientConfig`, and `options.disableTimer`.
pub record Limits : Type 0 where
  pub max_queue_size : ℕ
  pub max_batch_size : ℕ
  pub log_batch_size : ℕ
  pub disable_timer : Bool

-- The items of one request: endpoint events, logs or product events.
pub data Payload (E L P : Type 0) : Type 0 where
  events : List E → Payload E L P
  logs : List L → Payload E L P
  products : List P → Payload E L P

-- `flushing`: no drain, one that waits for a request, or one whose loops have ended and whose
-- `finally` has not run yet.
pub data Flushing (E L P : Type 0) : Type 0 where
  idle : Flushing E L P
  sending : Payload E L P → Flushing E L P
  settling : Flushing E L P

pub record State (E L P : Type 0) : Type 0 where
  pub limits : Limits
  pub queue : List E
  pub log_queue : List L
  pub product_queue : List P
  pub diag : Diagnostics
  -- A timeout is pending.
  pub timer : Bool
  -- A timeout has fired and its `finally` waits for the drain.
  pub timer_waits : Bool
  pub closed : Bool
  -- `closing !== null`
  pub closing : Bool
  pub flushing : Flushing E L P

-- The bytes of each kind of item in JSON.
pub record Encoded (E L P : Type 0) : Type 0 where
  pub event : E → ℕ
  pub log : L → ℕ
  pub product : P → ℕ

pub data Call (E L P : Type 0) : Type 0 where
  -- The normalized item, or `null` for invalid input.
  record_event : Option E → Call E L P
  record_log : Option L → Call E L P
  record_product : Option P → Call E L P
  flush close timer_fires drain_ends : Call E L P
  result : TransportResult → Call E L P

-- `recordDeliveryResult`
unfoldable pub record_delivery_result : TransportResult → ℕ → Diagnostics → Diagnostics
unfolding increment set_last_error
record_delivery_result (delivered status retried) items diag =
    let sent = increment Counter.sent_events items (increment Counter.sent_batches 1 diag) in
    set_last_error none (if ltb 0 retried then increment Counter.retried_batches 1 sent else sent)
record_delivery_result (undelivered status retried error) items diag =
    let failed = increment Counter.failed_batches 1 diag in
    set_last_error (some error) (
      increment Counter.dropped_delivery items
        (if ltb 0 retried then increment Counter.retried_batches 1 failed else failed))

module _ {E L P : Type 0} where
  unfoldable pub queued : State E L P → ℕ
  queued s = length s.queue + length s.log_queue + length s.product_queue

  unfoldable pub payload_size : Payload E L P → ℕ
  payload_size (events xs) = length xs
  payload_size (logs xs) = length xs
  payload_size (products xs) = length xs

  abbrev pub is_idle : Flushing E L P → Bool
  is_idle idle = true
  is_idle _ = false

  unfoldable pub init : Limits → State E L P
  unfolding empty_diagnostics
  init limits = record {
    limits = limits;
    queue = [];
    log_queue = [];
    product_queue = [];
    diag = empty_diagnostics;
    timer = false;
    timer_waits = false;
    closed = false;
    closing = false;
    flushing = idle;
  }

  -- `send` of `drainQueues`, up to the call of `fetch`: the batch has left its queue.
  unfoldable pub start_send : Payload E L P → State E L P → State E L P
  unfolding queued set_queued
  start_send batch s = record s { diag = set_queued (queued s) s.diag; flushing = sending batch }

  unfoldable pub schedule_flush : State E L P → State E L P
  schedule_flush s =
      if s.limits.disable_timer || s.closed || s.timer then s else record s { timer = true }

  unfoldable pub await_drain : State E L P → State E L P
  await_drain s = if is_idle s.flushing then s else record s { timer_waits = true }

  module _ (encoded : Encoded E L P) where
    -- The third loop of `drainQueues`; an item that fits in no request is dropped.
    unfoldable pub drain_products : List P → State E L P → State E L P
    unfolding increment start_send
    drain_products [] s = record s { product_queue = []; flushing = settling }
    drain_products (p ∷ ps) s =
        let (batch, rest) =
          take_sized_batch encoded.product (min s.limits.max_batch_size 100) (64 * 1024) (p ∷ ps) in
        elim batch [
          | [] ↦
              drain_products ps
                (record s { product_queue = ps; diag = increment Counter.dropped_invalid 1 s.diag })
          | x ∷ xs ↦ start_send (products (x ∷ xs)) (record s { product_queue = rest })
        ]

    -- The second loop, and then the third.
    unfoldable pub drain_logs : State E L P → State E L P
    unfolding start_send
    drain_logs s = elim s.log_queue [
      | [] ↦ drain_products s.product_queue s
      | l ∷ ls ↦
          let (batch, rest) =
            take_sized_batch encoded.log s.limits.log_batch_size body_limit (l ∷ ls) in
          start_send (logs batch) (record s { log_queue = rest })
    ]

    -- The first loop, and then the others.
    unfoldable pub drain_events : State E L P → State E L P
    unfolding start_send
    drain_events s = elim s.queue [
      | [] ↦ drain_logs s
      | e ∷ es ↦
          let (batch, rest) =
            take_sized_batch encoded.event (min s.limits.max_batch_size 250) body_limit (e ∷ es) in
          start_send (events batch) (record s { queue = rest })
    ]

    -- The loop that sent the batch goes on.
    unfoldable pub resume_drain : Payload E L P → State E L P → State E L P
    resume_drain (events xs) s = drain_events s
    resume_drain (logs xs) s = drain_logs s
    resume_drain (products xs) s = drain_products s.product_queue s

    unfoldable pub flush_queues : State E L P → State E L P
    unfolding queued
    flush_queues s = elim s.flushing [ idle ↦ if queued s == 0 then s else drain_events s | _ ↦ s ]

    -- `enqueue` after `target.push(item)`: `long` is `target.length >= batchSize`.
    unfoldable pub admitted : Bool → State E L P → State E L P
    unfolding queued set_queued
    admitted long s =
        let s' = schedule_flush (record s { diag = set_queued (queued s) s.diag }) in
        if long then flush_queues s' else s'

    -- `enqueue`: `push` puts the item at the end of its queue, and `is_long` compares the length of
    -- that queue with the batch size.
    unfoldable pub enqueue :
        {A : Type 0}
        → (A → State E L P → State E L P)
        → (State E L P → Bool)
        → Option A
        → State E L P
        → State E L P
    unfolding increment queued
    enqueue push is_long item s = if s.closed then s else elim item [
      | none ↦ record s { diag = increment Counter.dropped_invalid 1 s.diag }
      | some a ↦
          if leb s.limits.max_queue_size (queued s)
          then record s { diag = increment Counter.dropped_overflow 1 s.diag }
          else let s' = push a s in admitted (is_long s') s'
    ]

    unfoldable pub close_client : State E L P → State E L P
    close_client s =
        if s.closing
        then s
        else flush_queues (record s { closed = true; timer = false; closing = true })

    -- `flushing = null`, and then the `finally` of a timeout that waited.
    unfoldable pub settle : State E L P → State E L P
    unfolding queued
    settle s =
        let s' = record s { flushing = idle; timer_waits = false } in
        if s.timer_waits && ltb 0 (queued s) then schedule_flush s' else s'

    -- The callback of the timeout: where it starts or meets a drain, its `finally` waits for that.
    unfoldable pub fire_timer : State E L P → State E L P
    unfolding await_drain
    fire_timer s = await_drain (flush_queues (record s { timer = false }))

    abbrev pub push_event : E → State E L P → State E L P
    push_event e s = record s { queue = s.queue ++ e ∷ [] }

    abbrev pub push_log : L → State E L P → State E L P
    push_log l s = record s { log_queue = s.log_queue ++ l ∷ [] }

    abbrev pub push_product : P → State E L P → State E L P
    push_product p s = record s { product_queue = s.product_queue ++ p ∷ [] }

    -- One turn of the event loop. A timeout, a result or an end of drain for which nothing waits does
    -- not happen.
    unfoldable pub step : Call E L P → State E L P → State E L P
    step (record_event item) s =
        enqueue push_event (λ t. leb t.limits.max_batch_size (length t.queue)) item s
    step (record_log item) s =
        enqueue push_log (λ t. leb t.limits.log_batch_size (length t.log_queue)) item s
    step (record_product item) s =
        enqueue push_product (λ t. leb (min t.limits.max_batch_size 100) (length t.product_queue))
          item s
    step flush s = flush_queues s
    step close s = close_client s
    step timer_fires s = if s.timer then fire_timer s else s
    step drain_ends s = elim s.flushing [ settling ↦ settle s | _ ↦ s ]
    step (result r) s = elim s.flushing [
      | sending batch ↦
          resume_drain batch
            (record s { diag = record_delivery_result r (payload_size batch) s.diag })
      | _ ↦ s
    ]

    unfoldable pub run : List (Call E L P) → State E L P → State E L P
    run [] s = s
    run (c ∷ cs) s = run cs (step c s)
