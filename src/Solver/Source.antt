-- ===== src/Solver/Source.antt =====
-- pkg/solver/arkdsource/arkdsource.go: Subscribe, as steps of its goroutine, of the consumer of the
-- channel that it returns, and of the one who cancels its context. `X` is the type of packets.
mod Tests
pub mod Fields
pub mod Accounts
pub mod Delivered
pub mod Closing
use bancod.Prelude.{
  ℕ, ◌+◌, ◌≡◌, Bool, true, false, List, [], ◌∷◌, ◌++◌, Option, none, some, if◌then◌else◌, Bytes,
}

-- A message of the transaction stream: an error, or the raw transaction of an ArkTx event.
pub record Event : Type 0 where
  pub failed : Bool
  pub ark_tx : Option Bytes

-- Where the goroutine is: in GetTransactionsStream; in the outer select; in the select that sends a
-- packet; or ended, with `out` closed.
pub data Phase (X : Type 0) : Type 0 where
  subscribing : Phase X
  waiting : Phase X
  sending : X → Phase X
  ended : Phase X

-- `buffer` is the one place of `out`, and `canceled` says that ctx is done. The histories: `read`
-- the events that came from the stream, `taken` the packets that the consumer has received, and
-- `stops` the calls of `stop`.
pub record SourceState (X : Type 0) : Type 0 where
  pub phase : Phase X
  pub buffer : Option X
  pub canceled : Bool
  pub read : List Event
  pub taken : List X
  pub stops : ℕ

module _ {X : Type 0} where
  unfoldable pub subscribed : SourceState X
  subscribed = record {
    phase = subscribing;
    buffer = none;
    canceled = false;
    read = [];
    taken = [];
    stops = 0;
  }

  -- The return from the loop: the deferred `stop`, if it is not nil, and then `close(out)`.
  unfoldable pub leave : Bool → SourceState X → SourceState X
  leave has_stop s = record s { phase = ended; stops = if has_stop then s.stops + 1 else s.stops }

  -- What `psbt.NewFromRawBytes` gives: an undecodable transaction is skipped.
  pub after_decode : Option X → SourceState X → SourceState X
  after_decode none s = s
  after_decode (some pkt) s = record s { phase = sending pkt }

  -- `ev.ArkTx == nil` is skipped.
  pub after_tx : (Bytes → Option X) → Option Bytes → SourceState X → SourceState X
  unfolding after_decode
  after_tx decode none s = s
  after_tx decode (some raw) s = after_decode (decode raw) s

  -- An event in the outer select; one with an error is skipped.
  pub after_event : (Bytes → Option X) → Bool → Option Bytes → SourceState X → SourceState X
  unfolding after_tx
  after_event decode true raw s = s
  after_event decode false raw s = after_tx decode raw s

  unfoldable pub on_event : (Bytes → Option X) → Event → SourceState X → SourceState X
  unfolding after_event
  on_event decode ev s =
      after_event decode ev.failed ev.ark_tx (record s { read = s.read ++ ev ∷ [] })

  -- The consumer receives the packet in the buffer.
  unfoldable pub take_packet : X → SourceState X → SourceState X
  take_packet pkt s = record s { buffer = none; taken = s.taken ++ pkt ∷ [] }

-- A step of the goroutine. `decode` is psbt's, and `has_stop` says that the client gave a stop
-- function. Where both cases of a select are ready, either may be taken.
pub data Step {X : Type 0} (decode : Bytes → Option X) (has_stop : Bool)
    : SourceState X → SourceState X → Type 0 where
  subscribe_fails :
      {s : SourceState X}
      → s.phase ≡ subscribing
      → Step decode has_stop s (record s { phase = ended })
  subscribe :
      {s : SourceState X}
      → s.phase ≡ subscribing
      → Step decode has_stop s (record s { phase = waiting })
  read_event :
      {s : SourceState X} (ev : Event)
      → s.phase ≡ waiting
      → Step decode has_stop s (on_event decode ev s)
  stream_closes :
      {s : SourceState X} → s.phase ≡ waiting → Step decode has_stop s (leave has_stop s)
  see_done :
      {s : SourceState X}
      → s.phase ≡ waiting
      → s.canceled ≡ true
      → Step decode has_stop s (leave has_stop s)
  send :
      {s : SourceState X} (pkt : X)
      → s.phase ≡ sending pkt
      → s.buffer ≡ none
      → Step decode has_stop s (record s { phase = waiting; buffer = some pkt })
  drop :
      {s : SourceState X} (pkt : X)
      → s.phase ≡ sending pkt
      → s.canceled ≡ true
      → Step decode has_stop s (leave has_stop s)

-- The goroutine with its surroundings.
pub data Move {X : Type 0} (decode : Bytes → Option X) (has_stop : Bool)
    : SourceState X → SourceState X → Type 0 where
  own : {s s' : SourceState X} → Step decode has_stop s s' → Move decode has_stop s s'
  take :
      {s : SourceState X} (pkt : X)
      → s.buffer ≡ some pkt
      → Move decode has_stop s (take_packet pkt s)
  cancel : {s : SourceState X} → Move decode has_stop s (record s { canceled = true })

pub data Moves {X : Type 0} (decode : Bytes → Option X) (has_stop : Bool)
    : SourceState X → SourceState X → Type 0 where
  here : {s : SourceState X} → Moves decode has_stop s s
  then :
      {s s' s'' : SourceState X}
      → Moves decode has_stop s s'
      → Move decode has_stop s' s''
      → Moves decode has_stop s s''
