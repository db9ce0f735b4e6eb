-- ===== src/Engine/Keeps.antt =====
-- What the steps of the engine leave in the table.
use Prim.Native.String.{String}
use vugva.Common.{◌≡◌, some, List}
use vugva.Action.{Outcome, done, failed, panicked, Action}
use vugva.Action.Ends.{Leaves}
use vugva.Driver.{Driver}
use vugva.Context.{PrimaryContext}
use vugva.Vmt.{Page, VirtualMemoryTable, lookup, update, get}
use vugva.Vmt.Table.{get-put_self}
use vugva.Engine.{VugvaEngine, driven}

pub lookup-update :
    (t : VirtualMemoryTable) (name : String) (f : Page → Page) (p : Page)
    → lookup t name ≡ some p
    → lookup (update t name f) name ≡ some (f p)
unfolding lookup update get
lookup-update t name f p e = rw (update, e) (get-put_self name (f p) t.pages)

module _ {W : Type 0} (cuda : Driver W) where
  -- A call of the driver keeps what holds of the engine.
  pub driven-keeps :
      {A : Type 0} (P : VugvaEngine → Type 0) (m : List PrimaryContext → Action W A)
      (s : VugvaEngine × W)
      → P s.0
      → Leaves (λ _ t. P t.0) (driven cuda m s)
  driven-keeps {A} P m s h = from (m s.0.contexts s.1)
    where
      from : (r : Outcome A × W) → Leaves {S = VugvaEngine × W} (λ _ t. P t.0) (r.0, (s.0, r.1))
      from (done a, w) = h
      from (failed e, w) = tt
      from (panicked, w) = tt
