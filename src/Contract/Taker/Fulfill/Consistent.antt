-- ===== src/Contract/Taker/Fulfill/Consistent.antt =====
-- The taker's check of the contract behind an offer.
use bancod.Prelude.{
  ◌≡◌, ◌≢◌, refl, ◌∙◌, ap, List, [], ◌∷◌, Option, none, some, Result, ok, err, ◌>>=◌, or_fail,
  guard, >>=-eq-ok, or_fail-eq-ok, bytes_equal, bytes_equal→eq, bytes_equal_refl, Bool, true, false,
}
use bancod.Contract.ArkLib.{ArkLib}
use bancod.Contract.Offer.{Offer}
use bancod.Contract.Assets.{AssetLib}
use bancod.Contract.Script.{ScriptLib, Closure, vtxo_script}
use bancod.Contract.Taker.{
  TakerEnv, ConfigData, FulfillError, offer_inconsistency, bad_taptree, get_vtxos_failed,
  no_swap_vtxo, bad_vtxo_script,
}
use bancod.Contract.Taker.Fulfill.{Swap, first_of_list, wrapped, check_swap}

pub wrapped-eq-ok :
    {E B : Type 0} (r : Result E B) (x : FulfillError) (b : B) → wrapped r x ≡ ok b → r ≡ ok b
wrapped-eq-ok (ok c) x b e = cc
wrapped-eq-ok (err y) x b e = absurd cc

-- A chain whose steps do not fail with an error does not fail with it.
>>=-ne-err :
    {B C : Type 0} (m : Result FulfillError B) (f : B → Result FulfillError C) (x : FulfillError)
    → m ≢ err x
    → ((b : B) → f b ≢ err x)
    → (m >>= f) ≢ err x
>>=-ne-err (ok b) f x h k e = k b e
>>=-ne-err (err y) f x h k e = h (cc e)

or_fail-ne-err : {B : Type 0} (o : Option B) (x y : FulfillError) → y ≢ x → or_fail o y ≢ err x
or_fail-ne-err none x y h e = h (cc e)
or_fail-ne-err (some b) x y h e = cc e

first_of_list-ne-err :
    {B : Type 0} (bs : List B) (x y : FulfillError) → y ≢ x → first_of_list bs y ≢ err x
first_of_list-ne-err [] x y h e = h (cc e)
first_of_list-ne-err (b ∷ bs) x y h e = cc e

pub guard-eq-ok : {E : Type 0} (b : Bool) (x : E) {u : Unit {0}} → guard b x ≡ ok u → b ≡ true
guard-eq-ok true x e = refl
guard-eq-ok false x e = absurd cc

module _ {A K R X : Type 0} (lib : ArkLib A K) (scripts : ScriptLib K)
    (env : TakerEnv A K R X) where
  -- The swap script of the offer is that of the taptree that the offer stands for.
  pub record IsConsistent (server : K) (o : Offer A K) : Type 0 where
    pub closures : List (Closure K)
    pub key : K
    pub rebuilt : vtxo_script lib scripts server o ≡ ok closures
    pub tap_key : env.tap_key closures ≡ some key
    pub pk_script : env.p2tr_script key ≡ some o.swap_pk_script

  -- A swap output is taken only for an offer whose swap script is that of the contract that the
  -- offer's other fields describe.
  pub check_swap-IsConsistent :
      (assets : AssetLib A) (cfg : ConfigData K) (o : Offer A K) (swap : Swap K R)
      → check_swap lib scripts assets env cfg o ≡ ok swap
      → IsConsistent cfg.signer_pub_key o
  unfolding check_swap
  check_swap-IsConsistent assets cfg o swap e =
      let (closures, e₁, f₁) =
        >>=-eq-ok (wrapped (vtxo_script lib scripts cfg.signer_pub_key o) _) _ e in
      let (key, e₂, f₂) = >>=-eq-ok (or_fail (env.tap_key closures) _) _ f₁ in
      let (tree, e₃, f₃) = >>=-eq-ok (or_fail (env.tap_tree closures) _) _ f₂ in
      let (script, e₄, f₄) = >>=-eq-ok (or_fail (env.p2tr_script key) _) _ f₃ in
      let (same, e₅, f₅) =
        >>=-eq-ok (guard (bytes_equal script o.swap_pk_script) offer_inconsistency) _ f₄ in
      record {
        closures = closures;
        key = key;
        rebuilt = wrapped-eq-ok _ _ closures e₁;
        tap_key = or_fail-eq-ok _ _ key e₂;
        pk_script = or_fail-eq-ok _ _ script e₄ ∙ ap some (bytes_equal→eq _ _ (guard-eq-ok _ _ e₅));
      }

  -- An offer that is consistent is never refused as inconsistent.
  pub IsConsistent-check_swap :
      (assets : AssetLib A) (cfg : ConfigData K) (o : Offer A K)
      → IsConsistent cfg.signer_pub_key o
      → check_swap lib scripts assets env cfg o ≢ err offer_inconsistency
  unfolding check_swap
  IsConsistent-check_swap assets cfg o c =
      rw (c.rebuilt, c.tap_key, c.pk_script, bytes_equal_refl o.swap_pk_script)
        (>>=-ne-err (or_fail (env.tap_tree c.closures) bad_taptree) _ _
          (or_fail-ne-err _ _ _ (λ e. cc e))
          (λ tree.
            >>=-ne-err (or_fail (env.get_vtxos (env.encode_hex o.swap_pk_script)) get_vtxos_failed)
              _ _ (or_fail-ne-err _ _ _ (λ e. cc e))
              (λ vtxos.
                >>=-ne-err (first_of_list vtxos no_swap_vtxo) _ _
                  (first_of_list-ne-err _ _ _ (λ e. cc e))
                  (λ vtxo.
                    >>=-ne-err (first_of_list c.closures bad_vtxo_script) _ _
                      (first_of_list-ne-err _ _ _ (λ e. cc e)) (λ fulfill e. cc e)))))
