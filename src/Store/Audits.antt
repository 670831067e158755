-- ===== src/Store/Audits.antt =====
-- InsertAudit of `memTx` (internal/store/memory.go). The metadata of a row is a map: an absent one
-- becomes an empty one, which is how the model writes both.
use subscription_bridge.Prelude.{[], ◌∷◌, ◌++◌}
use subscription_bridge.Store.Models.{Audit}
use subscription_bridge.Store.World.{Act, modify}

unfoldable pub insert_audit : Audit → Act (Unit {0})
insert_audit a = modify (λ m. record m { audits = m.audits ++ a ∷ [] })
