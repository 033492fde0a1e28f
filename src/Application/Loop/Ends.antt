-- ===== src/Application/Loop/Ends.antt =====
-- Stop is not left waiting.
use bancod.Prelude.{◌≡◌, Bool, List, Option, Bytes}
use bancod.Application.Loop.{stop_returned, ServiceState, ServiceSteps}

module _ {P X T : Type 0} (decode : Bytes → Option X) (has_stop : Bool) (plugins : List P)
    (has_log : Bool) where
  -- Steps lead on to the return of Stop, and dispatch nothing.
  CanStop : ServiceState P X T → Type 0
  CanStop s =
      (s' : ServiceState P X T) × ServiceSteps decode has_stop plugins has_log s s'
      × (s'.stopping ≡ stop_returned)
      × (s'.run.dispatched ≡ s.run.dispatched)
