-- ===== src/Notify/Backoff.antt =====
-- The delay before a callback is posted again.
use subscription_bridge.Prelude.{
  ℕ, ◌+◌, ◌*◌, ◌≤◌, ◌<◌, ◌≡◌, ℤ, Option, some, arith, Option-cases, inl, inr, int_eq,
}
use subscription_bridge.Protocol.Clock.{Time, minute, hour}
use subscription_bridge.Notify.{base_delay, next_attempt}

-- The base delay lies between a minute and six hours.
base_delay-bounds :
    (attempts : ℤ) → (minute ≤ base_delay attempts) × (base_delay attempts ≤ 6 * hour)
unfolding base_delay
base_delay-bounds attempts = ground arith

-- Whatever the draw, which lies below its bound, or its failure: a callback is posted again no sooner
-- than now and no later than the base delay from now, which is six hours at most.
pub next_attempt-bounds :
    (jitter : ℕ → Option ℕ) (attempts : ℤ) (t : Time)
    → ((bound n : ℕ) → jitter bound ≡ some n → n < bound)
    → (t ≤ next_attempt jitter attempts t)
      × (next_attempt jitter attempts t ≤ t + base_delay attempts)
      × (next_attempt jitter attempts t ≤ t + 6 * hour)
unfolding next_attempt
next_attempt-bounds jitter attempts t below =
    let b = base_delay-bounds attempts in
    elim (Option-cases (jitter (base_delay attempts + 1))) [
      | inl failed ↦ rw failed (omega arith, omega arith, omega (arith, b.1))
      | inr (n, drawn) ↦
          let less = below (base_delay attempts + 1) n drawn in
          rw drawn (omega (arith, less), omega (arith, less), omega (arith, less, b.1))
    ]
