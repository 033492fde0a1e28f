-- ===== src/Solver/Txmatch/Tests.antt =====
-- Predicates on a concrete transaction.
use bancod.Prelude.{
  ℕ, ◌≡◌, ◌↔◌, refl, true, List, [], ◌∷◌, Option, some, get_elem?, pos, to_u64, text,
}
use bancod.Contract.Taker.{TxOut}
use bancod.Solver.Txmatch.{
  MsgTx, PsbtPacket, OutputOpt, has_output, output_index, apply_opts, no_output_criteria, passes,
}
use bancod.Solver.Txmatch.Laws.{IsIndex, has_output_iff}

abbrev one_output : MsgTx
one_output = record {
  txid = text "id";
  tx_in = [];
  tx_out = some (record { value = pos 9; pk_script = text "script" }) ∷ [];
  lock_time = 0;
}

abbrev packet : PsbtPacket
packet = record { unsigned_tx = some one_output; unknown_keys = [] }

abbrev opts : List (Option OutputOpt)
opts = some (output_index (pos 0)) ∷ []

has_output_iff_example : (has_output opts (some packet) ≡ true) ↔ (
    (n : ℕ) × (o : TxOut) × (get_elem? one_output.tx_out n ≡ some (some o))
    × IsIndex (apply_opts opts no_output_criteria).index n
    × (passes (apply_opts opts no_output_criteria).amount (to_u64 o.value) ≡ true)
    × (passes (apply_opts opts no_output_criteria).script o.pk_script ≡ true))
has_output_iff_example = has_output_iff opts packet one_output refl
