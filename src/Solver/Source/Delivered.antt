-- ===== src/Solver/Source/Delivered.antt =====
-- What the consumer of Subscribe's channel receives of the stream.
use bancod.Prelude.{
  ◌≡◌, refl, ap, ◌∙◌, ◌≤◌, inl, inr, Bool, false, List, ◌++◌, Option, none, some, Bytes, length,
  length-append, arith,
}
use mathlib.Core.List.{append-nil}
use bancod.Solver.Source.{
  Phase, subscribing, waiting, sending, ended, SourceState, subscribed, Moves,
}
use bancod.Solver.Source.Accounts.{of_option, packets, held, Accounts, keep, Moves-Accounts}

module _ {X : Type 0} where
  of_option-le-1 : (o : Option X) → length (of_option o) ≤ 1
  unfolding of_option
  of_option-le-1 none = omega arith
  of_option-le-1 (some x) = omega arith

  held-le-1 : (p : Phase X) → length (held p) ≤ 1
  unfolding held
  held-le-1 subscribing = omega arith
  held-le-1 waiting = omega arith
  held-le-1 (sending x) = omega arith
  held-le-1 ended = omega arith

  in_between :
      (decode : Bytes → Option X) (s : SourceState X)
      → Accounts decode s
      → (rest : List X) × (packets decode s.read ≡ s.taken ++ rest) × (length rest ≤ 2)
  unfolding Accounts of_option held
  in_between decode s (lost, h, inl none_lost) =
      let sizes = length-append (of_option s.buffer) (held s.phase ++ lost) in
      let inner = length-append (held s.phase) lost in
      (
        of_option s.buffer ++ (held s.phase ++ lost),
        h,
        omega
            (arith, sizes, inner, of_option-le-1 s.buffer, held-le-1 s.phase, ap length none_lost),
      )
  in_between decode s (lost, h, inr (done, at_end, one)) =
      let sizes = length-append (of_option s.buffer) (held s.phase ++ lost) in
      let inner = length-append (held s.phase) lost in
      let empty = ap (λ p. length (held p)) at_end in
      (
        of_option s.buffer ++ (held s.phase ++ lost),
        h,
        omega (arith, sizes, inner, of_option-le-1 s.buffer, empty, one),
      )

  nothing_between :
      (decode : Bytes → Option X) (s : SourceState X)
      → s.phase ≡ ended
      → s.buffer ≡ none
      → s.canceled ≡ false
      → Accounts decode s
      → packets decode s.read ≡ s.taken
  unfolding Accounts of_option held
  nothing_between decode s e b c (lost, h, inl none_lost) =
      h
      ∙ ap (λ o. s.taken ++ (of_option o ++ (held s.phase ++ lost))) b
      ∙ ap (λ p. s.taken ++ (held p ++ lost)) e
      ∙ ap (λ l. s.taken ++ l) none_lost
      ∙ append-nil s.taken
  nothing_between decode s e b c (lost, h, inr (done, at_end, one)) = absurd cc

  started-Accounts : (decode : Bytes → Option X) → Accounts decode subscribed
  unfolding subscribed packets held of_option
  started-Accounts decode = keep decode subscribed refl

  -- The consumer receives the packets of the stream in order, without a gap or a repetition: the
  -- transactions of the ArkTx events without an error that decode. Of those that were read it
  -- lacks the last two at most.
  pub Moves-deliver :
      (decode : Bytes → Option X) (has_stop : Bool) (s : SourceState X)
      → Moves decode has_stop subscribed s
      → (rest : List X) × (packets decode s.read ≡ s.taken ++ rest) × (length rest ≤ 2)
  Moves-deliver decode has_stop s moves =
      in_between decode s (Moves-Accounts decode moves (started-Accounts decode))

  -- Where the channel is closed and drained and ctx is not done, the consumer has received the
  -- packets of all events that were read.
  pub drained-Moves-deliver :
      (decode : Bytes → Option X) (has_stop : Bool) (s : SourceState X)
      → Moves decode has_stop subscribed s
      → s.phase ≡ ended
      → s.buffer ≡ none
      → s.canceled ≡ false
      → packets decode s.read ≡ s.taken
  drained-Moves-deliver decode has_stop s moves e b c =
      nothing_between decode s e b c (Moves-Accounts decode moves (started-Accounts decode))
