-- ===== src/Node/Transport/Laws.antt =====
-- When the retry loop of transport.ts stops, what it answers then, and how long it slept.
use app_health.Prelude.{
  ℕ, zero, suc, ◌+◌, ◌-◌, ◌*◌, ◌^◌, ◌≤◌, ◌<◌, ◌≡◌, refl, ◌⊎◌, inl, inr, Bool, true, false, ◌&&◌,
  List, [], ◌∷◌, Option, none, some, arith, ltb, if◌then◌else◌, length, sum, Bool-cases, min,
  lt→ltb, ap, dec_lt,
}
use native.Mathlib.Nat.{sub_self, le_trans, mul-le-mul_left}
use native.Mathlib.Numerals.{add-one}
use app_health.Node.Transport.{
  Reply, threw, responded, SendError, unknown_error, message, ingest_responded, TransportResult,
  delivered, undelivered, TransportOptions, is_retryable_status, is_success_status, backoff_ms,
  slept, send_loop, send_batch,
}

-- A failure after which another attempt may succeed.
abbrev pub is_transient : Reply → Bool
is_transient (threw text) = true
is_transient (responded status) = is_retryable_status status

-- What the loop makes of the reply at which it stops.
unfoldable pub verdict : Reply → ℕ → TransportResult
verdict (threw text) attempt = undelivered none attempt (message text)
verdict (responded status) attempt =
    if is_success_status status
    then delivered status attempt
    else undelivered (some status) attempt (ingest_responded status)

-- The sleeps after `count` failed attempts from `attempt` on.
unfoldable pub backoffs : ℕ → ℕ → ℕ → List ℕ
backoffs base attempt zero = []
backoffs base attempt (suc count) = backoff_ms base attempt ∷ backoffs base (attempt + 1) count

backoff_ms-le : (base attempt : ℕ) → backoff_ms base attempt ≤ 8 * base
unfolding backoff_ms
backoff_ms-le base attempt =
    let capped : min (2 ^ attempt) 8 ≤ 8 = omega arith in grind (arith, mul-le-mul_left base capped)

length-backoffs : (base attempt count : ℕ) → length (backoffs base attempt count) ≡ count
unfolding backoffs
length-backoffs base attempt zero = refl
length-backoffs base attempt (suc count) = ap suc (length-backoffs base (attempt + 1) count)

sum-backoffs-le : (base attempt count : ℕ) → sum (backoffs base attempt count) ≤ 8 * base * count
unfolding backoffs
sum-backoffs-le base attempt zero = omega arith
sum-backoffs-le base attempt (suc count) =
    omega (arith, backoff_ms-le base attempt, sum-backoffs-le base (attempt + 1) count)

success_not_retryable :
    (status : ℕ) → is_success_status status ≡ true → is_retryable_status status ≡ false
unfolding is_success_status is_retryable_status
success_not_retryable status h = ground arith

abbrev error_of : Reply → SendError
error_of (threw text) = message text
error_of (responded status) = ingest_responded status

abbrev status_of : Reply → Option ℕ
status_of (threw text) = none
status_of (responded status) = some status

module _ (options : TransportOptions) (replies : ℕ → Reply) where
  open options use {max_retries, retry_backoff_ms}

  -- The loop that starts at `first` stops at `last`: every reply before it was transient, it is
  -- itself final or the last one allowed, and it alone decides the result.
  pub record Settles (first : ℕ) (out : TransportResult × List ℕ) : Type 0 where
    pub last : ℕ
    pub after : first ≤ last
    pub within : last ≤ max_retries
    pub before : (j : ℕ) → first ≤ j → j < last → is_transient (replies j) ≡ true
    pub stops : (is_transient (replies last) ≡ false) ⊎ (last ≡ max_retries)
    pub result : out.0 ≡ verdict (replies last) last
    pub sleeps : out.1 ≡ backoffs retry_backoff_ms first (last - first)

  Settles-here :
      (first : ℕ)
      → first ≤ max_retries
      → (is_transient (replies first) ≡ false) ⊎ (first ≡ max_retries)
      → Settles first (verdict (replies first) first, [])
  unfolding backoffs
  Settles-here first h s = record {
    last = first;
    after = omega arith;
    within = h;
    before = λ j p q. absurd (omega arith);
    stops = s;
    result = refl;
    sleeps = rw (sub_self first);
  }

  Settles-later :
      (first : ℕ) (out : TransportResult × List ℕ)
      → is_transient (replies first) ≡ true
      → Settles (first + 1) out
      → Settles first (slept (backoff_ms retry_backoff_ms first) out)
  unfolding backoffs
  Settles-later first out t s = record {
    last = s.last;
    after = omega (arith, s.after);
    within = s.within;
    before = λ j p q. elim (dec_lt first j) [
      | yes later ↦ s.before j (omega arith) q
      | no here ↦ transient_at j (omega arith)
    ];
    stops = s.stops;
    result = s.result;
    sleeps = rw (gap, backoffs) (ap (◌∷◌ (backoff_ms retry_backoff_ms first)) s.sleeps);
  }
    where
      transient_at : (j : ℕ) → j ≡ first → is_transient (replies j) ≡ true
      transient_at j e = rw e t

      gap : s.last - first ≡ suc (s.last - (first + 1))
      gap = omega (arith, s.after)

  -- One round: a transient failure before the last attempt sleeps and goes on, and all else stops.
  abbrev round : ℕ → ℕ → Reply → TransportResult × List ℕ
  round rounds first reply =
      if is_transient reply && ltb first max_retries
      then slept (backoff_ms retry_backoff_ms first)
          (send_loop options replies rounds (first + 1) (error_of reply) (status_of reply))
      else (verdict reply first, [])

  send_loop-suc :
      (rounds first : ℕ) (error : SendError) (status : Option ℕ) (reply : Reply)
      → replies first ≡ reply
      → send_loop options replies (suc rounds) first error status ≡ round rounds first reply
  unfolding verdict send_loop backoff_ms
  send_loop-suc rounds first error status (threw text) e = rw (e, send_loop) (ground arith)
  send_loop-suc rounds first error status (responded code) e =
      rw (e, send_loop) (ground (arith, success_not_retryable code))

  send_loop-Settles :
      (rounds first : ℕ) (error : SendError) (status : Option ℕ)
      → first + rounds ≡ max_retries
      → Settles first (send_loop options replies (suc rounds) first error status)
  send_loop-Settles zero first error status h =
      rw (send_loop-suc zero first error status (replies first) refl, last_round)
        (Settles-here first (omega arith) (inr (omega arith)))
    where
      last_round : round zero first (replies first) ≡ (verdict (replies first) first, [])
      last_round = ground arith
  send_loop-Settles (suc rounds) first error status h =
      rw (send_loop-suc (suc rounds) first error status (replies first) refl)
        (elim (Bool-cases (is_transient (replies first))) [
          | inl t ↦
              rw (t, lt→ltb first max_retries (omega arith))
                (Settles-later first _ t (send_loop-Settles rounds (first + 1) _ _ (omega arith)))
          | inr f ↦ rw f (Settles-here first (omega arith) (inl f))
        ])

  -- For every behaviour of the network the loop stops: at the first reply that is not transient, or
  -- at attempt `max_retries` if all before it are; that reply alone decides the result, `retried` is
  -- the number of its attempt, and before each further attempt came one backoff.
  pub send_batch-Settles : Settles 0 (send_batch options replies)
  unfolding send_batch
  send_batch-Settles = rw add-one (send_loop-Settles max_retries 0 unknown_error none (omega arith))

  -- The sleeps of one batch: one less than the attempts made, none longer than eight times the base
  -- delay, so that the whole wait is bounded by the options alone.
  pub send_batch_wait :
      (length (send_batch options replies).1 ≤ max_retries)
      × (sum (send_batch options replies).1 ≤ 8 * retry_backoff_ms * max_retries)
  send_batch_wait =
      let s = send_batch-Settles in
      let count = length-backoffs retry_backoff_ms 0 (s.last - 0) in
      let total = sum-backoffs-le retry_backoff_ms 0 (s.last - 0) in
      let reached : s.last - 0 ≤ max_retries = omega (arith, s.within) in
      rw s.sleeps (
        omega (arith, count, s.within),
        le_trans total (mul-le-mul_left (8 * retry_backoff_ms) reached),
      )
