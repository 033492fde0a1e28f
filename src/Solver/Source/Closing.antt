-- ===== src/Solver/Source/Closing.antt =====
-- The end of Subscribe's goroutine.
use bancod.Prelude.{◌≡◌, refl, Bool, true, Option, Bytes}
use bancod.Solver.Source.{
  Phase, subscribing, waiting, sending, ended, SourceState, leave, subscribe_fails, see_done, drop,
  own, Moves, here, then,
}

-- Once ctx is done, the goroutine can end and close the channel without reading another event.
pub canceled-closes :
    {X : Type 0} (decode : Bytes → Option X) (has_stop : Bool) (s : SourceState X)
    → s.canceled ≡ true
    → (s' : SourceState X) × Moves decode has_stop s s'
      × (s'.phase ≡ ended)
      × (s'.read ≡ s.read)
      × (s'.taken ≡ s.taken)
unfolding leave
canceled-closes {X} decode has_stop s c = ends s.phase refl
  where
    ends :
        (p : Phase X)
        → s.phase ≡ p
        → (s' : SourceState X) × Moves decode has_stop s s'
          × (s'.phase ≡ ended)
          × (s'.read ≡ s.read)
          × (s'.taken ≡ s.taken)
    ends subscribing e = (_, then here (own (subscribe_fails e)), refl, refl, refl)
    ends waiting e = (_, then here (own (see_done e c)), refl, refl, refl)
    ends (sending pkt) e = (_, then here (own (drop pkt e c)), refl, refl, refl)
    ends ended e = (s, here, e, refl, refl)
