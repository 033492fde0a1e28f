-- ===== src/Banco/Plugin/Decoded.antt =====
-- What the plugin's decoder makes of a transaction.
use bancod.Prelude.{
  ◌≡◌, refl, ◌∙◌, ap, subst, inl, inr, List, Option, none, some, Option-cases, Result, ok, err,
  ok-injective,
}
use bancod.Contract.ArkLib.{ArkLib}
use bancod.Contract.Script.{FindError}
use bancod.Contract.Taker.{TxOut}
use bancod.Banco.Pair.{Pair}
use bancod.Banco.Offer.{FundedOffer, Extension, new_offer_from_extension}
use bancod.Banco.Plugin.{
  MatchedOffer, World, PluginEnv, PluginError, find_matching_pair, match_offer, decode_tx, decode,
  present_outputs,
}
use bancod.Banco.Plugin.Matching.{find_matching_pair_cases}
use bancod.Solver.Txmatch.{MsgTx, PsbtPacket}
use bancod.Solver.Builder.{Parsed, parsed, not_found, not_parsed, decode_extension, decode_parsed}

-- A decoded offer is the one in the extension, with a listed pair for its two assets.
module _ {A K F : Type 0} (lib : ArkLib A K) (env : PluginEnv F) where
  -- The pair is the first of the configured ones that matches the offer.
  unfoldable pub IsListed : MatchedOffer A K → Type 0
  IsListed m =
      (pairs : List Pair) × (env.list_pairs ≡ some (some pairs))
      × (find_matching_pair lib pairs m.offer ≡ some m.pair)

  match_offer-ok :
      (r : Result FindError (Option (FundedOffer A K))) (m : MatchedOffer A K)
      → match_offer lib env r ≡ ok m
      → (r ≡ ok (some m.offer)) × IsListed m
  unfolding match_offer IsListed
  match_offer-ok (err x) m e = absurd cc
  match_offer-ok (ok none) m e = absurd cc
  match_offer-ok (ok (some o)) m e = elim (Option-cases env.list_pairs) [
    | inl g ↦ let e' = rw g at e in absurd cc
    | inr (listed, g) ↦ elim (Option-cases listed) [
      | inl k ↦ let e' = rw (g, k) at e in absurd cc
      | inr (pairs, k) ↦ elim (find_matching_pair_cases lib pairs o) [
        | inr (missing, others) ↦ let e' = rw (g, k, missing) at e in absurd cc
        | inl (p, i, found, first) ↦
            let e' : ok (record { offer = o; pair = p }) ≡ ok m = rw (g, k, found) at e in
            subst
              (λ x.
                (◌≡◌ {A = Result FindError (Option (FundedOffer A K))} (ok (some o))
                  (ok (some x.offer)))
                × IsListed x)
              (ok-injective _ _ e') (refl, (pairs, g ∙ ap some k, found))
      ]
    ]
  ]

  -- The stages up to decode, for a transaction that has come through.
  pub record IsOffer (parse : MsgTx → Parsed (Extension A) PluginError) (packet : Option PsbtPacket)
      (m : MatchedOffer A K) : Type 0 where
    pub tx : MsgTx
    pub psbt : PsbtPacket
    pub packet_present : packet ≡ some psbt
    pub tx_present : psbt.unsigned_tx ≡ some tx
    pub ext : Extension A
    pub outs : List TxOut
    pub extension_parsed : parse tx ≡ parsed ext
    pub present : present_outputs tx.tx_out ≡ some outs
    pub offer_read :
        new_offer_from_extension lib (record { txid = tx.txid; outputs = outs }) ext
        ≡ ok (some m.offer)
    pub listed : IsListed m

  decode_tx-ok :
      (tx : MsgTx) (ext : Extension A) (m : MatchedOffer A K)
      → decode_tx lib env tx ext ≡ ok m
      → (outs : List TxOut) × (present_outputs tx.tx_out ≡ some outs)
        × (new_offer_from_extension lib (record { txid = tx.txid; outputs = outs }) ext
            ≡ ok (some m.offer))
        × IsListed m
  unfolding decode_tx
  decode_tx-ok tx ext m e = elim (Option-cases (present_outputs tx.tx_out)) [
    | inl g ↦ let e' = rw (g, decode_tx) at e in absurd cc
    | inr (outs, g) ↦ let (r, l) = match_offer-ok _ m (rw (g, decode_tx) at e) in (outs, g, r, l)
  ]

  pub decode_extension-ok :
      (parse : MsgTx → Parsed (Extension A) PluginError) (packet : Option PsbtPacket)
      (m : MatchedOffer A K) (w w' : World F)
      → decode_extension parse (decode lib env) packet w ≡ (ok m, w')
      → IsOffer parse packet m × (w ≡ w')
  unfolding decode_extension decode_parsed decode
  decode_extension-ok parse none m w w' e = let q = ap (λ r. r.0) e in absurd cc
  decode_extension-ok parse (some packet) m w w' e = elim (Option-cases packet.unsigned_tx) [
    | inl g ↦ let e' = rw g at e in let q = ap (λ r. r.0) e' in absurd cc
    | inr (tx, g) ↦ of_parsed tx g (parse tx) refl (rw g at e)
  ]
    where
      of_parsed :
          (tx : MsgTx)
          → packet.unsigned_tx ≡ some tx
          → (x : Parsed (Extension A) PluginError) → parse tx ≡ x
          → decode_parsed (decode lib env) (some packet) w x ≡ (ok m, w')
          → IsOffer parse (some packet) m × (w ≡ w')
      of_parsed tx g (parsed ext) h k =
          let (outs, here, offer_read, listed) =
            decode_tx-ok tx ext m (ap (λ r. r.0) (rw g at k)) in
          (
            record {
              tx = tx;
              psbt = packet;
              packet_present = refl;
              tx_present = g;
              ext = ext;
              outs = outs;
              extension_parsed = h;
              present = here;
              offer_read = offer_read;
              listed = listed;
            },
            ap (λ r. r.1) (rw g at k),
          )
      of_parsed tx g not_found h k = let q = ap (λ r. r.0) k in absurd cc
      of_parsed tx g (not_parsed x) h k = let q = ap (λ r. r.0) k in absurd cc

  match_offer-listed :
      (m : MatchedOffer A K) → IsListed m → match_offer lib env (ok (some m.offer)) ≡ ok m
  unfolding match_offer IsListed
  match_offer-listed m (pairs, g, found) = rw (match_offer, g, found) refl

  pub IsOffer-decode_extension :
      (parse : MsgTx → Parsed (Extension A) PluginError) (packet : Option PsbtPacket)
      (m : MatchedOffer A K) (w : World F)
      → IsOffer parse packet m
      → decode_extension parse (decode lib env) packet w ≡ (ok m, w)
  unfolding decode_extension decode_parsed decode decode_tx
  IsOffer-decode_extension parse packet m w o =
      let tx = o.tx_present in
      let parsed = o.extension_parsed in
      let outs = o.present in
      let read = o.offer_read in
      rw o.packet_present (
        rw (decode_extension, tx, parsed, decode, tx, decode_tx, outs, read)
          (ap (λ r. (r, w)) (match_offer-listed m o.listed)))
