-- ===== src/Store/World.antt =====
-- The state of `Memory`, and a transaction as an action on it: the maps, the clock and the source of
-- randomness, both of which the program reads one after another (`reads` counts).
use subscription_bridge.Prelude.{
  ℕ, suc, Bytes, bytes, Bool, true, false, List, [], Option, none, some,
}
use subscription_bridge.Protocol.Errors.{Error, Result, ok, err, panic}
use subscription_bridge.Protocol.Clock.{Time, truncate_utc}
use subscription_bridge.Protocol.Identifier.{Block, claim_token}
use subscription_bridge.Store.Models.{
  Checkout, Subscription, OutboundEvent, ProcessorEvent, ProcessingLease, ScheduledAction,
  ChargeAttempt, Audit,
}
use subscription_bridge.Store.Table
use subscription_bridge.Store.Table.{Table}

pub record Memory : Type 0 where
  pub checkouts : Table Checkout
  pub subs : Table Subscription
  pub outbound : Table OutboundEvent
  pub proc_events : Table ProcessorEvent
  pub leases : Table ProcessingLease
  pub actions : Table ScheduledAction
  pub attempts : Table ChargeAttempt
  pub audits : List Audit

pub record World : Type 0 where
  pub mem : Memory
  pub clock : ℕ → Time
  pub entropy : ℕ → Option Block
  pub reads : ℕ

-- NewMemory
abbrev pub empty_memory : Memory
empty_memory = record {
  checkouts = Table.empty;
  subs = Table.empty;
  outbound = Table.empty;
  proc_events = Table.empty;
  leases = Table.empty;
  actions = Table.empty;
  attempts = Table.empty;
  audits = [];
}

-- A method that may change the store, and returns a value or an error.
abbrev pub Act {ℓ} : Type ℓ → Type ℓ
Act A = World → Result A × World

module _ {ℓ} {A : Type ℓ} where
  abbrev pub pure : A → Act A
  pure a w = (ok a, w)

  abbrev pub fail : Error → Act A
  fail e w = (err e, w)

  abbrev pub lift : Result A → Act A
  lift r w = (r, w)

module _ {ℓ κ} {A : Type ℓ} {B : Type κ} where
  abbrev continue : Result A → (A → Act B) → Act B
  continue (ok a) f w = f a w
  continue (err e) f w = (err e, w)

  infixl 5 ◌>>=◌ ◌>>◌
  abbrev pub ◌>>=◌ : Act A → (A → Act B) → Act B
  ◌>>=◌ m f w = let (r, w') = m w in continue r f w'

  abbrev pub ◌>>◌ : Act A → Act B → Act B
  m >> n = m >>= λ _. n

module _ {ℓ} {A : Type ℓ} where
  abbrev pub gets : (Memory → A) → Act A
  gets f w = (ok (f w.mem), w)

  abbrev pub or_fail : Option A → Error → Act A
  or_fail none e = fail e
  or_fail (some a) e = pure a

abbrev pub modify : (Memory → Memory) → Act (Unit {0})
modify f w = (ok tt, record w { mem = f w.mem })

abbrev pub fail_if : Bool → Error → Act (Unit {0})
fail_if true e = fail e
fail_if false e = pure tt

-- Memory.Now, memTx.Now
unfoldable pub now : Act Time
now w = (ok (truncate_utc (w.clock w.reads)), record w { reads = suc w.reads })

-- newToken, and newUUID and newID of the engine and the scheduler
unfoldable pub new_token : Act Bytes
new_token w = (claim_token (w.entropy w.reads), record w { reads = suc w.reads })

-- mustToken: it panics where the read of randomness fails.
unfoldable pub must_token : Act Bytes
unfolding new_token
must_token w =
    let (r, w') = new_token w in
    elim r [ ok t ↦ (ok t, w') | err e ↦ (err (panic (bytes "rand")), w') ]

-- What InTx does after its function: an error puts the maps back as the snapshot has them. A panic
-- unlocks the store and restores nothing.
unfoldable pub settle {ℓ} : {A : Type ℓ} → Memory → Result A × World → Result A × World
settle snap (ok a, w) = (ok a, w)
settle snap (err (panic s), w) = (err (panic s), w)
settle snap (err e, w) = (err e, record w { mem = snap })

-- InTx, with `snapshot` and `restore`.
unfoldable pub in_tx {ℓ} : {A : Type ℓ} → Act A → Act A
unfolding settle
in_tx m w = settle w.mem (m w)
