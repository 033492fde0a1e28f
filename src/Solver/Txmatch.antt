-- ===== src/Solver/Txmatch.antt =====
-- pkg/solver/txmatch/txmatch.go: predicates on transactions. A nil pointer or function is `none`.
mod Tests
pub mod Laws
use bancod.Prelude.{
  ℕ, ◌+◌, ◌≡◌, Bool, true, false, not, ◌&&◌, ◌||◌, List, [], ◌∷◌, Option, none, some, ◌==◌, ltb,
  leb, if◌then◌else◌, length, get_elem?, any, Bytes, bytes_equal, ℤ, pos, negsuc, to_u64,
}
use bancod.Contract.Taker.{TxOut}

-- wire.OutPoint and wire.TxIn.
pub record OutPoint : Type 0 where
  pub hash : Bytes
  pub index : ℕ

pub record TxIn : Type 0 where
  pub previous_out_point : OutPoint
  pub sequence : ℕ

-- The parts of wire.MsgTx that are read, with its TxID().
pub record MsgTx : Type 0 where
  pub txid : Bytes
  pub tx_in : List (Option TxIn)
  pub tx_out : List (Option TxOut)
  pub lock_time : ℕ

-- psbt.Packet: of an unknown field its key is read.
pub record PsbtPacket : Type 0 where
  pub unsigned_tx : Option MsgTx
  pub unknown_keys : List (Option Bytes)

abbrev pub Predicate : Type 0
Predicate = Option PsbtPacket → Bool

pub always : Bool → Predicate
always v tx = v

-- A nil predicate does not hold.
abbrev pub holds : Option Predicate → Predicate
holds none tx = false
holds (some p) tx = p tx

pub all : List (Option Predicate) → Predicate
all [] tx = true
all (p ∷ ps) tx = let rest = all ps tx in if holds p tx then rest else false

pub any_of : List (Option Predicate) → Predicate
any_of [] tx = false
any_of (p ∷ ps) tx = let rest = any_of ps tx in if holds p tx then true else rest

pub not_of : Option Predicate → Predicate
not_of none tx = false
not_of (some p) tx = not (p tx)

-- A test of the transaction, false where it is missing.
abbrev pub on_tx : (MsgTx → Bool) → Predicate
on_tx f none = false
on_tx f (some packet) = elim packet.unsigned_tx [ none ↦ false | some tx ↦ f tx ]

pub has_output_count : ℕ → Predicate
has_output_count n = on_tx (λ tx. length tx.tx_out == n)

pub has_input_count : ℕ → Predicate
has_input_count n = on_tx (λ tx. length tx.tx_in == n)

pub has_lock_time : ℕ → Predicate
has_lock_time n = on_tx (λ tx. tx.lock_time == n)

has_key : Bytes → List (Option Bytes) → Bool
has_key key [] = false
has_key key (none ∷ us) = has_key key us
has_key key (some k ∷ us) = let rest = has_key key us in if bytes_equal k key then true else rest

pub has_unknown_global_field : Bytes → Predicate
unfolding has_key
has_unknown_global_field key none = false
has_unknown_global_field key (some packet) = has_key key packet.unknown_keys

-- outputCriteria. `index` is set by OutputIndex, and can be negative.
pub record OutputCriteria : Type 0 where
  pub index : Option ℤ
  pub amount : Option (ℕ → Bool)
  pub script : Option (Bytes → Bool)

abbrev pub OutputOpt : Type 0
OutputOpt = OutputCriteria → OutputCriteria

pub output_index : ℤ → OutputOpt
output_index i c = record c { index = some i }

pub output_amount : ℕ → OutputOpt
output_amount n c = record c { amount = some (λ v. v == n) }

pub output_amount_at_least : ℕ → OutputOpt
output_amount_at_least n c = record c { amount = some (λ v. leb n v) }

pub output_amount_at_most : ℕ → OutputOpt
output_amount_at_most n c = record c { amount = some (λ v. leb v n) }

pub output_amount_in_range : ℕ → ℕ → OutputOpt
output_amount_in_range lo hi c = record c { amount = some (λ v. leb lo v && leb v hi) }

pub output_script : Bytes → OutputOpt
output_script want c = record c { script = some (λ s. bytes_equal s want) }

unfoldable pub output_script_matching : (Bytes → Bool) → OutputOpt
output_script_matching f c = record c { script = some f }

-- inputCriteria
pub record InputCriteria : Type 0 where
  pub index : Option ℤ
  pub prev_out : Option (OutPoint → Bool)
  pub sequence : Option (ℕ → Bool)

abbrev pub InputOpt : Type 0
InputOpt = InputCriteria → InputCriteria

pub input_index : ℤ → InputOpt
input_index i c = record c { index = some i }

pub input_spending : OutPoint → InputOpt
input_spending op c = record c {
  prev_out = some (λ got. bytes_equal got.hash op.hash && got.index == op.index);
}

pub input_sequence : ℕ → InputOpt
input_sequence n c = record c { sequence = some (λ got. got == n) }

-- The options in order; a nil option is left out.
unfoldable pub apply_opts {ℓ} : {C : Type ℓ} → List (Option (C → C)) → C → C
apply_opts [] c = c
apply_opts (none ∷ os) c = apply_opts os c
apply_opts (some o ∷ os) c = apply_opts os (o c)

-- A test that is not set passes.
abbrev pub passes {ℓ} : {V : Type ℓ} → Option (V → Bool) → V → Bool
passes none v = true
passes (some f) v = f v

unfoldable pub match_output : Option TxOut → OutputCriteria → Bool
match_output none c = false
match_output (some o) c =
    if not (passes c.amount (to_u64 o.value))
    then false
    else if not (passes c.script o.pk_script)
    then false
    else true

pub match_input : Option TxIn → InputCriteria → Bool
match_input none c = false
match_input (some i) c =
    if not (passes c.prev_out i.previous_out_point)
    then false
    else if not (passes c.sequence i.sequence)
    then false
    else true

-- The element at an index that can be out of range, or any element.
abbrev pub at_or_any {ℓ} : {B : Type ℓ} → (B → Bool) → Option ℤ → List B → Bool
at_or_any f none xs = any f xs
at_or_any f (some (negsuc n)) xs = false
at_or_any f (some (pos n)) xs = elim (get_elem? xs n) [ none ↦ false | some x ↦ f x ]

abbrev pub no_output_criteria : OutputCriteria
no_output_criteria = record { index = none; amount = none; script = none }

abbrev pub no_input_criteria : InputCriteria
no_input_criteria = record { index = none; prev_out = none; sequence = none }

unfoldable pub has_output : List (Option OutputOpt) → Predicate
unfolding apply_opts match_output
has_output opts =
    let c = apply_opts opts no_output_criteria in
    on_tx (λ tx. at_or_any (λ o. match_output o c) c.index tx.tx_out)

pub has_input : List (Option InputOpt) → Predicate
unfolding apply_opts match_input
has_input opts =
    let c = apply_opts opts no_input_criteria in
    on_tx (λ tx. at_or_any (λ i. match_input i c) c.index tx.tx_in)
