-- ===== src/Contract/Script/Closures.antt =====
-- The spending paths of the swap output.
use bancod.Prelude.{◌≡◌, refl, List, [], ◌∷◌, Option, Bytes, ◌⊎◌}
use bancod.Contract.ArkLib.{ArkLib}
use bancod.Contract.Offer.{Offer}
use bancod.Contract.Script.{
  ScriptLib, vtxo_script, fulfill_script, maker_witness_program, fulfill_ops, cancel_closures,
  exit_closures,
}

-- The key is one of a closure's keys.
abbrev pub Signs : {K : Type 0} → Option K → List (Option K) → Type 0
Signs k [] = ⊥
Signs k (x ∷ xs) = (k ≡ x) ⊎ Signs k xs

module _ {A K : Type 0} (lib : ArkLib A K) (scripts : ScriptLib K) where
  -- The contract does not depend on the swap script.
  pub vtxo_script-swap_pk_script :
      (server : K) (o : Offer A K) (s : Bytes)
      → vtxo_script lib scripts server (record o { swap_pk_script = s })
        ≡ vtxo_script lib scripts server o
  unfolding vtxo_script fulfill_script maker_witness_program fulfill_ops cancel_closures
      exit_closures
  vtxo_script-swap_pk_script server o s = refl
