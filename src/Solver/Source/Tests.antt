-- ===== src/Solver/Source/Tests.antt =====
-- A stream with an error, a transaction, and one that does not decode; then it ends.
use bancod.Prelude.{ℕ, refl, true, false, [], ◌∷◌, Option, none, some, Bytes}
use bancod.Solver.Source.{
  Event, ended, SourceState, subscribed, leave, on_event, take_packet, subscribe, read_event, send,
  stream_closes, Moves, here, then, own, take,
}

abbrev decode : Bytes → Option ℕ
decode [] = none
decode (b ∷ bs) = some b

abbrev broken : Event
broken = record { failed = true; ark_tx = none }

abbrev good : Event
good = record { failed = false; ark_tx = some (5 ∷ []) }

abbrev empty : Event
empty = record { failed = false; ark_tx = some [] }

abbrev last : SourceState ℕ
last = record {
  phase = ended;
  buffer = none;
  canceled = false;
  read = broken ∷ good ∷ empty ∷ [];
  taken = 5 ∷ [];
  stops = 1;
}

to_last : Moves decode true subscribed last
unfolding subscribed leave on_event take_packet
to_last =
    then
      (then
        (then
          (then
            (then (then (then here (own (subscribe refl))) (own (read_event broken refl)))
              (own (read_event good refl)))
            (own (send 5 refl refl)))
          (take 5 refl))
        (own (read_event empty refl)))
      (own (stream_closes refl))
