-- ===== src/Notify.antt =====
-- internal/notify/notify.go: one cycle of the notifier, which claims a due callback, posts the stored
-- bytes and records the outcome. The HTTP exchange, HMAC-SHA256 and the draw of the jitter are
-- parameters. The loop that repeats the cycle, its ticker and its log are not modelled.
pub mod Verdict
pub mod Delivery
pub mod Safe
pub mod Backoff
use subscription_bridge.Prelude.{
  ℕ, suc, ◌+◌, ◌*◌, Bytes, bytes, Bool, true, false, ◌&&◌, ◌||◌, not, Option, none, some, ℤ, pos,
  negsuc, ltb_ℤ, ◌==◌, int_eq, nat_eq, if◌then◌else◌, is_some,
}
use subscription_bridge.Protocol.Errors.{
  Error, Result, ok, err, panic, of_store, not_found, not_owned,
}
use subscription_bridge.Protocol.Clock.{Time, Duration, minute, hour}
use subscription_bridge.Store.Models.{OutboundEvent}
use subscription_bridge.Store.World.{World, Act, pure, fail, lift, in_tx, now, ◌>>=◌, ◌>>◌}
use subscription_bridge.Store.Outbound.{
  claim_due_outbound, complete_outbound, retry_outbound, dead_letter_outbound,
}
use subscription_bridge.Hmac.{sign_callback}

-- What the HTTP exchange comes to: the request cannot be built, it fails on the network, or it is
-- answered with a status.
pub data Reply : Type 0 where
  unbuildable : Error → Reply
  network : Reply
  status : ℤ → Reply

-- `Notifier`, with its defaults: a lease of 0 is two minutes, and a `retry_at` of `none` is
-- NextAttempt. Its clock is read once to sign and once to retry. `post` is given the URL, the
-- signature header and the body; it takes time, in which other work changes the store: it is an action
-- on the world. `jitter` is the draw of NextAttempt below a bound.
pub record Notifier : Type 0 where
  pub callback_key : Bytes
  pub webhook_url : Bytes
  pub lease : Duration
  pub retry_at : Option (ℤ → Time → Time)
  pub time_to_sign : Time
  pub time_to_retry : Time
  pub mac : Bytes → Bytes → Bytes
  pub post : Bytes → Bytes → Bytes → World → Reply × World
  pub jitter : ℕ → Option ℕ

-- The base delay of NextAttempt, before jitter: four steps, then six hours.
unfoldable pub base_delay : ℤ → Duration
base_delay attempts =
    if attempts == pos 0
    then minute
    else if attempts == pos 1
    then 5 * minute
    else if attempts == pos 2
    then 15 * minute
    else if attempts == pos 3
    then hour
    else 6 * hour

-- NextAttempt
unfoldable pub next_attempt : (ℕ → Option ℕ) → ℤ → Time → Time
next_attempt jitter attempts t = t + or_base (jitter (base_delay attempts + 1))
  where
    or_base : Option ℕ → ℕ
    or_base none = base_delay attempts
    or_base (some n) = n

-- statusClass
unfoldable pub status_class : ℤ → Bytes
status_class code =
    if not (ltb_ℤ code (pos 500))
    then bytes "http_5xx"
    else if code == pos 408
    then bytes "http_408"
    else if code == pos 425
    then bytes "http_425"
    else if code == pos 429
    then bytes "http_429"
    else if not (ltb_ℤ code (pos 400))
    then bytes "http_4xx"
    else bytes "http_other"

-- `*ev.ClaimToken`
abbrev pub deref : Option Bytes → Act Bytes
deref none = fail (panic (bytes "nil pointer"))
deref (some s) = pure s

-- `errors.Is(err, store.ErrNotOwned)` in `retry`: nothing is wrong where the claim is lost.
abbrev pub forgive : Result (Unit {0}) → Result (Unit {0})
forgive (err (of_store not_owned)) = ok tt
forgive r = r

abbrev pub forgiven : Act (Unit {0}) → Act (Unit {0})
forgiven m w = let (r, w') = m w in (forgive r, w')

-- The time that `retry` chooses.
unfoldable pub retry_time : Notifier → ℤ → Time
retry_time n attempts = chosen n.retry_at attempts n.time_to_retry
  where
    chosen : Option (ℤ → Time → Time) → ℤ → Time → Time
    chosen none = next_attempt n.jitter
    chosen (some f) = f

-- retry
unfoldable pub retry : Notifier → OutboundEvent → Bytes → Act (Unit {0})
retry n e class = in_tx (do
  token ← deref e.claim_token
  forgiven (retry_outbound e.event_id token e.fencing_token (retry_time n e.attempt_count) class))

abbrev pub between : ℤ → ℤ → ℤ → Bool
between low high code = not (ltb_ℤ code low) && not (ltb_ℤ high code)

-- The switch of RunOnce on the status, and the error of the client before it.
unfoldable pub record_outcome : Notifier → OutboundEvent → Reply → Act (Unit {0})
record_outcome n e (unbuildable x) = fail x
record_outcome n e network = retry n e (bytes "network")
record_outcome n e (status code) =
    if between (pos 200) (pos 299) code
    then in_tx (do
      token ← deref e.claim_token
      t ← now
      complete_outbound e.event_id token e.fencing_token t)
    else if code == pos 408 || code == pos 425 || code == pos 429 || not (ltb_ℤ code (pos 500))
    then retry n e (status_class code)
    else if between (pos 400) (pos 499) code
    then in_tx (do
      token ← deref e.claim_token
      t ← now
      dead_letter_outbound e.event_id token e.fencing_token t (status_class code))
    else retry n e (status_class code)

-- The first transaction of RunOnce.
unfoldable pub claim_next : Notifier → Act OutboundEvent
claim_next n =
    in_tx (do t ← now; claim_due_outbound t (if n.lease == 0 then 2 * minute else n.lease))

-- The exchange, and what follows it.
abbrev pub exchanged : Notifier → OutboundEvent → Bytes → Act (Unit {0})
exchanged n e header w =
    let (reply, w') = n.post n.webhook_url header e.payload_body w in record_outcome n e reply w'

-- RunOnce after its claim: nothing is wrong where nothing is due.
abbrev pub delivered : Notifier → Result OutboundEvent → Act (Unit {0})
delivered n (err (of_store not_found)) = pure tt
delivered n (err x) = fail x
delivered n (ok e) = do
  header ← lift (sign_callback n.mac n.callback_key n.time_to_sign e.payload_body)
  exchanged n e header

-- RunOnce
unfoldable pub run_once : Notifier → Act (Unit {0})
run_once n w = let (r, w') = claim_next n w in delivered n r w'
