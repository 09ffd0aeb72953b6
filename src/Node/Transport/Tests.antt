-- ===== src/Node/Transport/Tests.antt =====
-- The theorems on transport.ts at a network that answers 503, then times out, then answers 202.
use app_health.Prelude.{ℕ, zero, suc, ◌*◌, ◌≤◌, ◌≡◌, refl, [], ◌∷◌, length, sum, some}
use app_health.Node.Transport.{
  Reply, threw, responded, delivered, undelivered, ingest_responded, TransportOptions, send_batch,
}
use app_health.Node.Transport.Laws.{Settles, send_batch-Settles, send_batch_wait}

abbrev options : TransportOptions
options = record { request_timeout_ms = 2000; max_retries = 3; retry_backoff_ms = 100 }

abbrev flaky : ℕ → Reply
flaky zero = responded 503
flaky (suc zero) = threw "aborted"
flaky (suc (suc n)) = responded 202

abbrev rejecting : ℕ → Reply
rejecting n = responded 401

abbrev overloaded : ℕ → Reply
overloaded n = responded 429

send_batch_tests :
    (send_batch options flaky ≡ (delivered 202 2, 100 ∷ 200 ∷ []))
    × (send_batch options rejecting ≡ (undelivered (some 401) 0 (ingest_responded 401), []))
    × (send_batch options overloaded
        ≡ (undelivered (some 429) 3 (ingest_responded 429), 100 ∷ 200 ∷ 400 ∷ []))
unfolding send_batch
send_batch_tests = (refl, refl, refl)

send_batch-Settles_example : Settles options flaky 0 (send_batch options flaky)
send_batch-Settles_example = send_batch-Settles options flaky

send_batch_wait_example :
    (length (send_batch options overloaded).1 ≤ 3)
    × (sum (send_batch options overloaded).1 ≤ 8 * 100 * 3)
send_batch_wait_example = send_batch_wait options overloaded
