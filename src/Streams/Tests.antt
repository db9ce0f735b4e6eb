-- ===== src/Streams/Tests.antt =====
-- Streams at concrete inputs.
use vugva.Common.{◌≡◌, refl, List, [], ◌∷◌}
use vugva.Error.{cuda_error}
use vugva.Action.{failed}
use vugva.Driver.{Driver}
use vugva.Driver.Quiet.{Nothing, quiet}
use vugva.Context.{PrimaryContext}
use vugva.Streams.{CudaStream, CudaEvent, answer, query_complete, query}

-- A driver on which work is never finished.
abbrev busy : Driver Nothing
busy = record quiet { query_stream = λ _ w. (600, w); query_event = λ _ w. (600, w) }

abbrev stream : CudaStream
stream = record { inner = 8; priority = 0 }

abbrev event : CudaEvent
event = record { inner = 9 }

stream_fails : (query_complete busy stream tt).0 ≡ failed (cuda_error "cuStreamQuery" 600)
unfolding query_complete answer
stream_fails = refl

event_fails : (query busy event tt).0 ≡ failed (cuda_error "cuEventQuery" 600)
unfolding query answer
event_fails = refl

abbrev two_contexts : List PrimaryContext
two_contexts = record { device = 0; ctx = 70 } ∷ record { device = 1; ctx = 71 } ∷ []
