-- ===== src/Store/Cases.antt =====
-- What an action leaves in the store.
use subscription_bridge.Protocol.Errors.{Error, Result, ok, err}
use subscription_bridge.Store.World.{Memory, World, Act, settle, in_tx}

-- `P` holds of the store that `m` leaves behind, with a result or with an error.
abbrev pub After {ℓ κ} : {A : Type ℓ} → (Memory → Type κ) → Act A → World → Type κ
After P m w = P (m w).1.mem

module _ {ℓ κ} {A : Type ℓ} (P : Memory → Type κ) where
  After-settle :
      (snap : Memory) (r : Result A) (w : World) → P snap → P w.mem → P (settle snap (r, w)).1.mem
  unfolding settle
  After-settle snap (ok a) w h after = after
  After-settle snap (err (Error.panic s)) w h after = after
  After-settle snap (err _) w h after = h

  -- A transaction keeps what holds before it and after its function.
  pub After-in_tx : (m : Act A) (w : World) → P w.mem → After P m w → After P (in_tx m) w
  unfolding in_tx
  After-in_tx m w h after = let (r, w') = m w in After-settle w.mem r w' h after
