-- ===== src/Engine/Builder.antt =====
-- src/allocator.rs: `VugvaEngineBuilder`.
use vugva.Common.{ℕ, List, []}
use vugva.Action.{Action}
use vugva.Driver.{Driver}
use vugva.Engine.{VugvaEngine}
use vugva.Engine.Access.{new}

pub record VugvaEngineBuilder : Type 0 where
  pub gpu_ordinals : List ℕ

unfoldable pub builder : VugvaEngineBuilder
builder = record { gpu_ordinals = [] }

unfoldable pub gpus : VugvaEngineBuilder → List ℕ → VugvaEngineBuilder
gpus b ordinals = record b { gpu_ordinals = ordinals }

unfoldable pub build : {W : Type 0} → Driver W → VugvaEngineBuilder → Action W VugvaEngine
unfolding new
build cuda b = new cuda b.gpu_ordinals
