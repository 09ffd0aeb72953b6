-- ===== src/Node/Diagnostics.antt =====
-- packages/node/src/diagnostics.ts: the local counters of the client.
use app_health.Prelude.{ℕ, ◌+◌, Option, none}
use app_health.Node.Transport.{SendError}

pub record Diagnostics : Type 0 where
  pub queued : ℕ
  pub dropped_overflow : ℕ
  pub dropped_invalid : ℕ
  pub dropped_delivery : ℕ
  pub sent_batches : ℕ
  pub failed_batches : ℕ
  pub retried_batches : ℕ
  pub sent_events : ℕ
  pub last_send_error : Option SendError

-- The keys that `increment` takes.
pub data Counter : Type 0 where
  dropped_overflow dropped_invalid dropped_delivery sent_batches failed_batches : Counter
  retried_batches sent_events : Counter

unfoldable pub empty_diagnostics : Diagnostics
empty_diagnostics = record {
  queued = 0;
  dropped_overflow = 0;
  dropped_invalid = 0;
  dropped_delivery = 0;
  sent_batches = 0;
  failed_batches = 0;
  retried_batches = 0;
  sent_events = 0;
  last_send_error = none;
}

unfoldable pub increment : Counter → ℕ → Diagnostics → Diagnostics
increment dropped_overflow by d = record d { dropped_overflow = d.dropped_overflow + by }
increment dropped_invalid by d = record d { dropped_invalid = d.dropped_invalid + by }
increment dropped_delivery by d = record d { dropped_delivery = d.dropped_delivery + by }
increment sent_batches by d = record d { sent_batches = d.sent_batches + by }
increment failed_batches by d = record d { failed_batches = d.failed_batches + by }
increment retried_batches by d = record d { retried_batches = d.retried_batches + by }
increment sent_events by d = record d { sent_events = d.sent_events + by }

unfoldable pub set_queued : ℕ → Diagnostics → Diagnostics
set_queued n d = record d { queued = n }

unfoldable pub set_last_error : Option SendError → Diagnostics → Diagnostics
set_last_error error d = record d { last_send_error = error }
