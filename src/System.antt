-- ===== src/System.antt =====
-- The program as the requests that it serves: the handlers of internal/engine/engine.go, the rounds of
-- internal/scheduler/scheduler.go and the cycles of internal/notify/notify.go, in any order. Each
-- request brings the environment that it meets: the providers' answers, the key, the clock's readings.
pub mod Safe
use subscription_bridge.Prelude.{Bytes, List, [], ◌∷◌}
use subscription_bridge.Protocol.Errors.{Result}
use subscription_bridge.Store.Models.{Family}
use subscription_bridge.Store.World.{World, Act, pure, ◌>>=◌}
use subscription_bridge.Adapters.{Header}
use subscription_bridge.Engine.Env.{Engine}
use subscription_bridge.Engine.Checkouts.{
  StartClaims, start_checkout, activate_checkout, sweep_checkouts,
}
use subscription_bridge.Engine.Events.{ingest_and_process}
use subscription_bridge.Engine.Operators.{
  Outcome, snapshot, cancel_at_period_end, expire_now, resolve_attempt, replay_latest,
}
use subscription_bridge.Scheduler.{run_round}
use subscription_bridge.Scheduler.Charges.{Scheduler}
use subscription_bridge.Notify.{Notifier, run_once}

pub data Request : Type 0 where
  start : Engine → StartClaims → Bytes → Request
  activate : Engine → Bytes → Request
  sweep : Request
  ingest : Engine → Family → Header → Bytes → Request
  query : Engine → Bytes → Request
  cancel : Engine → Bytes → Request
  expire : Engine → Bytes → Request
  resolve : Engine → Bytes → Outcome → Bytes → Bytes → Bytes → Request
  replay : Bytes → Bytes → Bytes → Request
  schedule : Scheduler → Request
  deliver : Notifier → Request

-- A request is served, with a result or with an error.
unfoldable pub respond : Request → World → World
respond (Request.start e claims payload) w = (start_checkout e claims payload w).1
respond (Request.activate e id) w = (activate_checkout e id w).1
respond Request.sweep w = (sweep_checkouts w).1
respond (Request.ingest e family headers body) w = (ingest_and_process e family headers body w).1
respond (Request.query e ref) w = (snapshot e ref w).1
respond (Request.cancel e ref) w = (cancel_at_period_end e ref w).1
respond (Request.expire e ref) w = (expire_now e ref w).1
respond (Request.resolve e id o reason actor payment) w =
    (resolve_attempt e id o reason actor payment w).1
respond (Request.replay ref reason actor) w = (replay_latest ref reason actor w).1
respond (Request.schedule s) w = (run_round s w).1
respond (Request.deliver n) w = (run_once n w).1

unfoldable pub run : List Request → World → World
run [] w = w
run (r ∷ rs) w = run rs (respond r w)
