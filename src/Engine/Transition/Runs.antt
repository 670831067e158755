-- ===== src/Engine/Transition/Runs.antt =====
-- A subscription under a run of observations, each decided on the row that the last change left: how
-- `applyStripe` of internal/engine/engine.go uses Decide from one provider event to the next.
use subscription_bridge.Prelude.{◌≡◌, refl, inc64, List, [], ◌∷◌, ℤ}
use subscription_bridge.Protocol.Errors.{Result, ok, err}
use subscription_bridge.Protocol.Status.{Status, status_eq}
use subscription_bridge.Protocol.Clock.{Time}
use subscription_bridge.Store.Models.{Subscription}
use subscription_bridge.Engine.Transition.{Observation, Decision, noop, change, decide}
use subscription_bridge.Engine.Transition.Changes.{Outcome, decide-Outcome}

-- The row after a decision: an error rolls the transaction back, a no-op commits nothing.
abbrev pub advance : Subscription → Result Decision → Subscription
advance c (ok (change e n f)) = n
advance c _ = c

abbrev pub committed : Result Decision → List Subscription → List Subscription
committed (ok (change e n f)) later = n ∷ later
committed _ later = later

-- The rows that are committed, one for each callback, the first one first.
unfoldable pub follow : Subscription → List (Observation × Time) → List Subscription
follow c [] = []
follow c ((obs, t) ∷ rest) =
    let later = follow (advance c (decide c obs t)) rest in committed (decide c obs t) later

-- The versions count up by one from the version `v`.
abbrev pub Consecutive : ℤ → List Subscription → Type 0
Consecutive v [] = Unit {0}
Consecutive v (n ∷ ns) = (n.state_version ≡ inc64 v) × Consecutive n.state_version ns

-- Nothing follows an expired row.
abbrev pub EndsAtExpired : List Subscription → Type 0
EndsAtExpired [] = Unit {0}
EndsAtExpired (n ∷ ns) = (n.status ≡ Status.expired → ns ≡ []) × EndsAtExpired ns

-- An expired subscription commits nothing more.
pub follow-expired :
    (c : Subscription) (run : List (Observation × Time))
    → c.status ≡ Status.expired
    → follow c run ≡ []
unfolding follow decide
follow-expired c [] dead = refl
follow-expired c ((obs, t) ∷ rest) dead =
    let quiet : decide c obs t ≡ ok noop = rw (dead, decide) refl in
    rw (quiet, follow-expired c rest dead) refl

-- Whatever the provider reports, in whatever order: the rows that are committed carry consecutive
-- versions, starting after the version of the first row, and nothing is committed after an expiry.
pub follow-Consecutive :
    (c : Subscription) (run : List (Observation × Time))
    → Consecutive c.state_version (follow c run) × EndsAtExpired (follow c run)
unfolding follow
follow-Consecutive c [] = (tt, tt)
follow-Consecutive c ((obs, t) ∷ rest) =
    go (decide c obs t) (decide-Outcome c obs t) (λ c'. follow-Consecutive c' rest)
  where
    go :
        (r : Result Decision)
        → Outcome c t r
        → ((c' : Subscription)
            → Consecutive c'.state_version (follow c' rest) × EndsAtExpired (follow c' rest))
        → Consecutive c.state_version (committed r (follow (advance c r) rest))
          × EndsAtExpired (committed r (follow (advance c r) rest))
    go (ok noop) o later = later c
    go (ok (change e n f)) o later =
        ((o.version, (later n).0), ((λ dead. follow-expired n rest dead), (later n).1))
    go (err x) o later = later c
