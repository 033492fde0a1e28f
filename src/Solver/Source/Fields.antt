-- ===== src/Solver/Source/Fields.antt =====
-- What the goroutine of Subscribe leaves alone.
use bancod.Prelude.{◌≡◌, refl, Bool, true, false, [], ◌∷◌, ◌++◌, Option, none, some, Bytes}
use bancod.Solver.Source.{
  SourceState, ended, leave, after_decode, after_tx, after_event, on_event, Step, subscribe_fails,
  subscribe, read_event, stream_closes, see_done, send, drop,
}

module _ {X : Type 0} where
  after_decode-keeps :
      (o : Option X) (s : SourceState X)
      → ((after_decode o s).taken ≡ s.taken) × ((after_decode o s).canceled ≡ s.canceled)
  unfolding after_decode
  after_decode-keeps none s = (refl, refl)
  after_decode-keeps (some pkt) s = (refl, refl)

  after_event-keeps :
      (decode : Bytes → Option X) (failed : Bool) (raw : Option Bytes) (s : SourceState X)
      → ((after_event decode failed raw s).taken ≡ s.taken)
        × ((after_event decode failed raw s).canceled ≡ s.canceled)
  unfolding after_event after_tx
  after_event-keeps decode true raw s = (refl, refl)
  after_event-keeps decode false none s = (refl, refl)
  after_event-keeps decode false (some raw) s = after_decode-keeps (decode raw) s

  -- Only the consumer takes packets, and only the owner of the context cancels it.
  pub Step-keeps :
      {decode : Bytes → Option X} {has_stop : Bool} {s s' : SourceState X}
      → Step decode has_stop s s'
      → (s'.taken ≡ s.taken) × (s'.canceled ≡ s.canceled)
  unfolding leave on_event
  Step-keeps (subscribe_fails e) = (refl, refl)
  Step-keeps (subscribe e) = (refl, refl)
  Step-keeps {decode} {s = s} (read_event ev e) =
      after_event-keeps decode ev.failed ev.ark_tx (record s { read = s.read ++ ev ∷ [] })
  Step-keeps (stream_closes e) = (refl, refl)
  Step-keeps (see_done e c) = (refl, refl)
  Step-keeps (send pkt e b) = (refl, refl)
  Step-keeps (drop pkt e c) = (refl, refl)

  -- The goroutine that has ended takes no step.
  pub Step-ne-ended :
      {decode : Bytes → Option X} {has_stop : Bool} {s s' : SourceState X}
      → Step decode has_stop s s'
      → ¬ (s.phase ≡ ended)
  Step-ne-ended (subscribe_fails e) h = cc
  Step-ne-ended (subscribe e) h = cc
  Step-ne-ended (read_event ev e) h = cc
  Step-ne-ended (stream_closes e) h = cc
  Step-ne-ended (see_done e c) h = cc
  Step-ne-ended (send pkt e b) h = cc
  Step-ne-ended (drop pkt e c) h = cc
