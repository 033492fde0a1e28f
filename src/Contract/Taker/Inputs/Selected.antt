-- ===== src/Contract/Taker/Inputs/Selected.antt =====
-- Which VTXOs FulfillOffer spends beside the swap's.
use bancod.Prelude.{
  ◌≡◌, refl, subst, ◌∙◌, ap, ◌⊎◌, inl, inr, ◌↔◌, true, false, List, [], ◌∷◌, ◌++◌, some,
  bytes_equal→eq, eq→bytes_equal, Member, Bool-cases, Option-cases, arith,
}
use bancod.Contract.Assets.{Vtxo}
use bancod.Contract.Taker.{ConfigData, OffchainAddr, VtxoWithTapTree, TakerEnv}
use bancod.Contract.Taker.Inputs.{is_at, at_address, select_vtxos}

module _ {B : Type 0} where
  Member-append : (xs ys : List B) (x : B) → Member x (xs ++ ys) ↔ (Member x xs ⊎ Member x ys)
  Member-append [] ys x = (λ m. inr m, λ m. elim m [ inl h ↦ absurd h | inr h ↦ h ])
  Member-append (z ∷ xs) ys x =
      let (to, from) = Member-append xs ys x in
      (
        λ m. elim m [
          | inl e ↦ inl (inl e)
          | inr h ↦ elim (to h) [ inl a ↦ inl (inr a) | inr b ↦ inr b ]
        ],
        λ m. elim m [
          | inl a ↦ elim a [ inl e ↦ inl e | inr h ↦ inr (from (inl h)) ]
          | inr b ↦ inr (from (inr b))
        ],
      )

module _ {A K R X : Type 0} (env : TakerEnv A K R X) (cfg : ConfigData K) where
  -- A VTXO to spend with a wallet address: spendable at present, not recoverable, at the address
  -- and with the tapscripts of the address.
  pub record IsChosen (addr : OffchainAddr) (vs : List Vtxo) (tv : VtxoWithTapTree) : Type 0 where
    pub spendable : Member tv.vtxo vs
    pub live : tv.vtxo.recoverable ≡ false
    pub at_address : env.vtxo_address tv.vtxo cfg.signer_pub_key cfg.network ≡ some addr.address
    pub scripts : tv.tapscripts ≡ addr.tapscripts

  is_at_iff :
      (addr : OffchainAddr) (v : Vtxo)
      → (is_at env cfg addr v ≡ true) ↔ (
          (v.recoverable ≡ false)
          × (env.vtxo_address v cfg.signer_pub_key cfg.network ≡ some addr.address))
  unfolding is_at
  is_at_iff addr v = elim (Option-cases (env.vtxo_address v cfg.signer_pub_key cfg.network)) [
    | inl bad ↦ ground arith
    | inr (a, good) ↦ ground (arith, bytes_equal→eq a addr.address, eq→bytes_equal a addr.address)
  ]

  at_address_iff :
      (addr : OffchainAddr) (vs : List Vtxo) (tv : VtxoWithTapTree)
      → Member tv (at_address env cfg addr vs) ↔ IsChosen addr vs tv
  unfolding at_address
  at_address_iff addr [] tv = (λ m. absurd m, λ c. absurd c.spendable)
  at_address_iff addr (v ∷ vs) tv = elim (Bool-cases (is_at env cfg addr v)) [
    | inl here ↦
        let (live, place) = (is_at_iff addr v).0 here in
        let (to, from) = at_address_iff addr vs tv in
        rw here (
          λ m. elim m [ inl e ↦ first live place e | inr m' ↦ later (to m') ],
          λ c. elim c.spendable [
            | inl e ↦ inl (λ i. record { vtxo = e i; tapscripts = c.scripts i })
            | inr m ↦ inr (from (earlier m c))
          ],
        )
    | inr away ↦
        let (to, from) = at_address_iff addr vs tv in
        rw away (
          λ m. later (to m),
          λ c. elim c.spendable [ inl e ↦ absurd (not_here away e c) | inr m ↦ from (earlier m c) ],
        )
  ]
    where
      later : IsChosen addr vs tv → IsChosen addr (v ∷ vs) tv
      later c = record {
        spendable = inr c.spendable;
        live = c.live;
        at_address = c.at_address;
        scripts = c.scripts;
      }

      earlier : Member tv.vtxo vs → IsChosen addr (v ∷ vs) tv → IsChosen addr vs tv
      earlier m c = record {
        spendable = m;
        live = c.live;
        at_address = c.at_address;
        scripts = c.scripts;
      }

      first :
          v.recoverable ≡ false
          → env.vtxo_address v cfg.signer_pub_key cfg.network ≡ some addr.address
          → tv ≡ record { vtxo = v; tapscripts = addr.tapscripts }
          → IsChosen addr (v ∷ vs) tv
      first live place e = record {
        spendable = inl (ap (λ (t : VtxoWithTapTree). t.vtxo) e);
        live = ap (λ (t : VtxoWithTapTree). t.vtxo.recoverable) e ∙ live;
        at_address =
            ap (λ (t : VtxoWithTapTree). env.vtxo_address t.vtxo cfg.signer_pub_key cfg.network) e
            ∙ place;
        scripts = ap (λ (t : VtxoWithTapTree). t.tapscripts) e;
      }

      not_here : is_at env cfg addr v ≡ false → tv.vtxo ≡ v → IsChosen addr (v ∷ vs) tv → ⊥
      not_here away e c =
          let hit = (is_at_iff addr v).1 (rw e at c.live, rw e at c.at_address) in cc

  -- A VTXO is chosen with some tapscripts exactly when it is spendable, not recoverable, and at a
  -- wallet address that has these tapscripts.
  pub select_vtxos_iff :
      (addrs : List OffchainAddr) (vs : List Vtxo) (tv : VtxoWithTapTree)
      → Member tv (select_vtxos env cfg addrs vs)
        ↔ ((addr : OffchainAddr) × Member addr addrs × IsChosen addr vs tv)
  unfolding select_vtxos
  select_vtxos_iff [] vs tv = (λ m. absurd m, λ c. absurd c.1)
  select_vtxos_iff (addr ∷ addrs) vs tv =
      let (split, join) =
        Member-append (at_address env cfg addr vs) (select_vtxos env cfg addrs vs) tv in
      let (to, from) = select_vtxos_iff addrs vs tv in
      let (to', from') = at_address_iff addr vs tv in
      (
        λ m. elim (split m) [
          | inl here ↦ (addr, inl refl, to' here)
          | inr there ↦ let (a, k, c) = to there in (a, inr k, c)
        ],
        λ (a, k, c). elim k [
          | inl e ↦ join (inl (from' (subst (λ x. IsChosen x vs tv) e c)))
          | inr k' ↦ join (inr (from (a, k', c)))
        ],
      )
