-- ===== src/Node/Transport.antt =====
-- packages/node/src/transport.ts: one batch, sent with bounded retries.
pub mod Laws
mod Tests
use Prim.Native.String.{String}
use app_health.Prelude.{
  ℕ, zero, suc, ◌+◌, ◌*◌, ◌^◌, min, Bool, true, false, ◌&&◌, ◌||◌, List, [], ◌∷◌, Option, none,
  some, ltb, leb, ◌==◌, if◌then◌else◌,
}

-- What one call of `fetch` comes back with: an exception, the abort on a timeout included, or the
-- status of a response.
pub data Reply : Type 0 where
  threw : String → Reply
  responded : ℕ → Reply

-- The `error` texts: "unknown error", the exception's own, and `ingest responded ${status}`.
pub data SendError : Type 0 where
  unknown_error : SendError
  message : String → SendError
  ingest_responded : ℕ → SendError

pub data TransportResult : Type 0 where
  delivered : (status retried : ℕ) → TransportResult
  undelivered : (status : Option ℕ) (retried : ℕ) (error : SendError) → TransportResult

pub record TransportOptions : Type 0 where
  pub request_timeout_ms : ℕ
  pub max_retries : ℕ
  pub retry_backoff_ms : ℕ

unfoldable pub is_retryable_status : ℕ → Bool
is_retryable_status status = status == 429 || (leb 500 status && leb status 599)

unfoldable pub is_success_status : ℕ → Bool
is_success_status status = leb 200 status && ltb status 300

unfoldable pub backoff_ms : ℕ → ℕ → ℕ
backoff_ms base attempt = base * min (2 ^ attempt) 8

-- The result of the loop, and the sleeps that it made before.
abbrev pub slept : ℕ → TransportResult × List ℕ → TransportResult × List ℕ
slept ms (result, sleeps) = (result, ms ∷ sleeps)

-- The network answers call number `attempt` by `replies attempt`.
module _ (options : TransportOptions) (replies : ℕ → Reply) where
  open options use {max_retries, retry_backoff_ms}

  -- `for (let attempt = 0; attempt <= options.maxRetries; attempt += 1)`; the first argument counts
  -- the rounds that the condition leaves.
  unfoldable pub send_loop : ℕ → ℕ → SendError → Option ℕ → TransportResult × List ℕ
  send_loop zero attempt last_error last_status =
      (undelivered last_status max_retries last_error, [])
  send_loop (suc rounds) attempt last_error last_status = elim (replies attempt) [
    | threw text ↦
        let again =
          slept (backoff_ms retry_backoff_ms attempt)
            (send_loop rounds (attempt + 1) (message text) none) in
        if ltb attempt max_retries then again else (undelivered none attempt (message text), [])
    | responded status ↦
        let again =
          slept (backoff_ms retry_backoff_ms attempt)
            (send_loop rounds (attempt + 1) (ingest_responded status) (some status)) in
        if is_success_status status
        then (delivered status attempt, [])
        else if is_retryable_status status && ltb attempt max_retries
        then again
        else (undelivered (some status) attempt (ingest_responded status), [])
  ]

  unfoldable pub send_batch : TransportResult × List ℕ
  unfolding send_loop is_success_status is_retryable_status backoff_ms
  send_batch = send_loop (max_retries + 1) 0 unknown_error none
