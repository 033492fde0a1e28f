-- ===== src/Solver/Source/Accounts.antt =====
-- Where the packets of the stream are: taken by the consumer, in the channel, or in hand.
use bancod.Prelude.{
  ◌≡◌, refl, sym, ap, ◌∙◌, ◌⊎◌, inl, inr, Bool, true, false, List, [], ◌∷◌, ◌++◌, Option, none,
  some, Bytes, length,
}
use mathlib.Core.List.{append_assoc, append-nil}
use bancod.Solver.Source.{
  Event, Phase, subscribing, waiting, sending, ended, SourceState, leave, after_decode, after_tx,
  after_event, on_event, take_packet, Step, subscribe_fails, subscribe, read_event, stream_closes,
  see_done, send, drop, own, take, cancel, Moves, here, then,
}

-- The packets of a stream of events: of each ArkTx event without an error, if it decodes.
unfoldable pub of_option : {X : Type 0} → Option X → List X
of_option none = []
of_option (some x) = x ∷ []

pub packet_of : {X : Type 0} → (Bytes → Option X) → Bool → Option Bytes → Option X
packet_of decode true raw = none
packet_of decode false none = none
packet_of decode false (some raw) = decode raw

unfoldable pub packets : {X : Type 0} → (Bytes → Option X) → List Event → List X
packets decode [] = []
packets decode (ev ∷ evs) = of_option (packet_of decode ev.failed ev.ark_tx) ++ packets decode evs

-- What stands between the stream and the consumer.
unfoldable pub held : {X : Type 0} → Phase X → List X
held (sending pkt) = pkt ∷ []
held subscribing = []
held waiting = []
held ended = []

module _ {X : Type 0} where
  packets-append :
      (decode : Bytes → Option X) (evs : List Event) (ev : Event)
      → packets decode (evs ++ ev ∷ [])
        ≡ packets decode evs ++ of_option (packet_of decode ev.failed ev.ark_tx)
  unfolding packets
  packets-append decode [] ev = append-nil _
  packets-append decode (e ∷ evs) ev = simp (packets-append decode evs ev, append_assoc)

  -- Before the end all packets are accounted for; at the end, one may be lost if ctx is done.
  unfoldable pub Accounts : (Bytes → Option X) → SourceState X → Type 0
  Accounts decode s =
      (lost : List X) × (packets decode s.read
        ≡ s.taken ++ (of_option s.buffer ++ (held s.phase ++ lost)))
      × ((lost ≡ []) ⊎ ((s.canceled ≡ true) × (s.phase ≡ ended) × (length lost ≡ 1)))

  -- Before the end nothing is lost.
  pub nothing_lost :
      (decode : Bytes → Option X) (s : SourceState X) (p : Phase X)
      → s.phase ≡ p
      → ¬ (p ≡ ended)
      → Accounts decode s
      → packets decode s.read ≡ s.taken ++ (of_option s.buffer ++ held p)
  unfolding Accounts
  nothing_lost decode s p e ne (lost, h, inl none_lost) =
      h
      ∙ ap (λ l. s.taken ++ (of_option s.buffer ++ (held s.phase ++ l))) none_lost
      ∙ ap (λ l. s.taken ++ (of_option s.buffer ++ l)) (append-nil (held s.phase) ∙ ap held e)
  nothing_lost decode s p e ne (lost, h, inr (c, at_end, one)) = absurd (ne (sym e ∙ at_end))

  pub keep :
      (decode : Bytes → Option X) (s : SourceState X)
      → packets decode s.read ≡ s.taken ++ (of_option s.buffer ++ held s.phase)
      → Accounts decode s
  unfolding Accounts
  keep decode s h = (
    [],
    h ∙ ap (λ l. s.taken ++ (of_option s.buffer ++ l)) (sym (append-nil (held s.phase))),
    inl refl,
  )

  after_decode-Accounts :
      (decode : Bytes → Option X) (o : Option X) (s : SourceState X)
      → s.phase ≡ waiting
      → packets decode s.read ≡ s.taken ++ (of_option s.buffer ++ of_option o)
      → Accounts decode (after_decode o s)
  unfolding after_decode held of_option
  after_decode-Accounts decode none s e h =
      keep decode s (h ∙ ap (λ l. s.taken ++ (of_option s.buffer ++ l)) (sym (ap held e)))
  after_decode-Accounts decode (some pkt) s e h = keep decode (record s { phase = sending pkt }) h

  after_tx-Accounts :
      (decode : Bytes → Option X) (raw : Option Bytes) (s : SourceState X)
      → s.phase ≡ waiting
      → packets decode s.read
        ≡ s.taken ++ (of_option s.buffer ++ of_option (packet_of decode false raw))
      → Accounts decode (after_tx decode raw s)
  unfolding after_tx packet_of held
  after_tx-Accounts decode none s e h = after_decode-Accounts decode none s e h
  after_tx-Accounts decode (some raw) s e h = after_decode-Accounts decode (decode raw) s e h

  after_event-Accounts :
      (decode : Bytes → Option X) (failed : Bool) (raw : Option Bytes) (s : SourceState X)
      → s.phase ≡ waiting
      → packets decode s.read
        ≡ s.taken ++ (of_option s.buffer ++ of_option (packet_of decode failed raw))
      → Accounts decode (after_event decode failed raw s)
  unfolding after_event packet_of
  after_event-Accounts decode true raw s e h = after_decode-Accounts decode none s e h
  after_event-Accounts decode false raw s e h = after_tx-Accounts decode raw s e h

  on_event-Accounts :
      (decode : Bytes → Option X) (ev : Event) (s : SourceState X)
      → s.phase ≡ waiting
      → Accounts decode s
      → Accounts decode (on_event decode ev s)
  unfolding on_event held
  on_event-Accounts decode ev s e h =
      let before = nothing_lost decode s waiting e (λ d. cc) h in
      let new = packet_of decode ev.failed ev.ark_tx in
      after_event-Accounts decode ev.failed ev.ark_tx (record s { read = s.read ++ ev ∷ [] }) e
        (packets-append decode s.read ev
          ∙ ap (λ l. l ++ of_option new) before
          ∙ simp (append_assoc, append-nil))

  leave-Accounts :
      (decode : Bytes → Option X) (has_stop : Bool) (s : SourceState X)
      → s.phase ≡ waiting
      → Accounts decode s
      → Accounts decode (leave has_stop s)
  unfolding leave held
  leave-Accounts decode has_stop s e h =
      keep decode (leave has_stop s) (nothing_lost decode s waiting e (λ d. cc) h)

  pub Step-Accounts :
      (decode : Bytes → Option X) {has_stop : Bool} {s s' : SourceState X}
      → Step decode has_stop s s'
      → Accounts decode s
      → Accounts decode s'
  unfolding leave held of_option Accounts
  Step-Accounts decode {s = s} (subscribe_fails e) h =
      keep decode (record s { phase = ended }) (nothing_lost decode s subscribing e (λ d. cc) h)
  Step-Accounts decode {s = s} (subscribe e) h =
      keep decode (record s { phase = waiting }) (nothing_lost decode s subscribing e (λ d. cc) h)
  Step-Accounts decode {s = s} (read_event ev e) h = on_event-Accounts decode ev s e h
  Step-Accounts decode {has_stop} {s} (stream_closes e) h = leave-Accounts decode has_stop s e h
  Step-Accounts decode {has_stop} {s} (see_done e c) h = leave-Accounts decode has_stop s e h
  Step-Accounts decode {s = s} (send pkt e b) h =
      let before = nothing_lost decode s (sending pkt) e (λ d. cc) h in
      keep decode (record s { phase = waiting; buffer = some pkt })
        (before ∙ ap (λ o. s.taken ++ (of_option o ++ pkt ∷ [])) b)
  Step-Accounts decode {s = s} (drop pkt e c) h =
      let before = nothing_lost decode s (sending pkt) e (λ d. cc) h in
      (pkt ∷ [], before, inr (c, refl, refl))

  pub take-Accounts :
      (decode : Bytes → Option X) (pkt : X) (s : SourceState X)
      → s.buffer ≡ some pkt
      → Accounts decode s
      → Accounts decode (take_packet pkt s)
  unfolding take_packet Accounts of_option
  take-Accounts decode pkt s b (lost, h, why) = (
    lost,
    h
        ∙ ap (λ o. s.taken ++ (of_option o ++ (held s.phase ++ lost))) b
        ∙ sym (append_assoc s.taken (pkt ∷ []) (held s.phase ++ lost)),
    why,
  )

  pub cancel-Accounts :
      (decode : Bytes → Option X) (s : SourceState X)
      → Accounts decode s
      → Accounts decode (record s { canceled = true })
  unfolding Accounts
  cancel-Accounts decode s (lost, h, inl none_lost) = (lost, h, inl none_lost)
  cancel-Accounts decode s (lost, h, inr (c, at_end, one)) = (lost, h, inr (refl, at_end, one))

  pub Moves-Accounts :
      (decode : Bytes → Option X) {has_stop : Bool} {s s' : SourceState X}
      → Moves decode has_stop s s'
      → Accounts decode s
      → Accounts decode s'
  Moves-Accounts decode here h = h
  Moves-Accounts decode (then r (own t)) h = Step-Accounts decode t (Moves-Accounts decode r h)
  Moves-Accounts decode (then r (take {s = s} pkt b)) h =
      take-Accounts decode pkt s b (Moves-Accounts decode r h)
  Moves-Accounts decode (then r (cancel {s = s})) h =
      cancel-Accounts decode s (Moves-Accounts decode r h)
