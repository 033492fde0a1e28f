-- ===== src/Solver/Txmatch/Laws.antt =====
-- The predicates against what they say of the outputs of a transaction, and on a nil transaction.
use bancod.Prelude.{
  ℕ, zero, suc, ◌≡◌, refl, ◌∙◌, ap, ◌↔◌, inl, inr, Bool, true, false, List, [], ◌∷◌, map, Option,
  none, some, get_elem?, any, ℤ, pos, negsuc, to_u64, Bool-cases, Option-cases, arith,
}
use bancod.Contract.Taker.{TxOut}
use bancod.Solver.Txmatch.{
  MsgTx, PsbtPacket, Predicate, all, any_of, not_of, on_tx, has_output_count, has_input_count,
  has_lock_time, has_output, has_input, OutputCriteria, OutputOpt, InputOpt, apply_opts, passes,
  match_output, at_or_any, no_output_criteria,
}

any_iff :
    {B : Type 0} (f : B → Bool) (xs : List B)
    → (any f xs ≡ true) ↔ ((n : ℕ) × (x : B) × (get_elem? xs n ≡ some x) × (f x ≡ true))
any_iff {B} f [] = (λ e. cc, λ (n, x, e, h). cc)
any_iff {B} f (y ∷ ys) = elim (Bool-cases (f y)) [
  | inl here ↦ rw here (λ e. (0, y, refl, here), λ h. refl)
  | inr away ↦ rw away (
    λ e. let (n, x, at, h) = (any_iff f ys).0 e in (suc n, x, at, h),
    λ (n, x, at, h). back n x at h away (any_iff f ys).1,
  )
]
  where
    back :
        (n : ℕ) (x : B)
        → get_elem? (y ∷ ys) n ≡ some x
        → f x ≡ true
        → f y ≡ false
        → (((n : ℕ) × (x : B) × (get_elem? ys n ≡ some x) × (f x ≡ true)) → any f ys ≡ true)
        → any f ys ≡ true
    back zero x at h away g = absurd (ground arith)
    back (suc n) x at h away g = g (n, x, at, h)

match_output_iff :
    (p : Option TxOut) (c : OutputCriteria)
    → (match_output p c ≡ true) ↔ (
        (o : TxOut) × (p ≡ some o)
        × (passes c.amount (to_u64 o.value) ≡ true)
        × (passes c.script o.pk_script ≡ true))
unfolding match_output
match_output_iff none c = (λ e. cc, λ (o, e, h, k). cc)
match_output_iff (some o) c = (
  λ e. (o, refl, ground arith, ground arith),
  λ (x, e, h, k).
      let same : x ≡ o = cc in
      let amount = rw same at h in let script = rw same at k in rw (amount, script),
)

-- The criterion on the index, if there is one.
abbrev pub IsIndex : Option ℤ → ℕ → Type 0
IsIndex none n = Unit
IsIndex (some i) n = i ≡ pos n

at_or_any_iff :
    {B : Type 0} (f : B → Bool) (i : Option ℤ) (xs : List B)
    → (at_or_any f i xs ≡ true)
      ↔ ((n : ℕ) × (x : B) × (get_elem? xs n ≡ some x) × (f x ≡ true) × IsIndex i n)
at_or_any_iff f none xs = (
  λ e. let (n, x, at, h) = (any_iff f xs).0 e in (n, x, at, h, tt),
  λ (n, x, at, h, u). (any_iff f xs).1 (n, x, at, h),
)
at_or_any_iff f (some (negsuc m)) xs = (λ e. cc, λ (n, x, at, h, u). cc)
at_or_any_iff {B} f (some (pos m)) xs = elim (Option-cases (get_elem? xs m)) [
  | inl out ↦ rw (out, at_or_any) (λ e. cc, λ (n, x, at, h, u). absurd (clash n x at u out))
  | inr (y, at_m) ↦
      rw (at_m, at_or_any) (λ h. (m, y, at_m, h, refl), λ (n, x, at, h, u). hit n x y at h u at_m)
]
  where
    clash :
        (n : ℕ) (x : B)
        → get_elem? xs n ≡ some x
        → ◌≡◌ {A = ℤ} (pos m) (pos n)
        → get_elem? xs m ≡ none
        → ⊥
    clash n x at u out = let same : m ≡ n = cc in let at' = rw same at out in cc

    hit :
        (n : ℕ) (x y : B)
        → get_elem? xs n ≡ some x
        → f x ≡ true
        → ◌≡◌ {A = ℤ} (pos m) (pos n)
        → get_elem? xs m ≡ some y
        → f y ≡ true
    hit n x y at h u at_m =
        let same : m ≡ n = cc in let at' = rw same at at_m in let elem : x ≡ y = cc in rw elem at h

-- HasOutput holds of a packet with a transaction exactly when the transaction has an output, at
-- the index if OutputIndex is given, that meets the amount and the script criteria that the
-- options leave set.
pub has_output_iff :
    (opts : List (Option OutputOpt)) (packet : PsbtPacket) (tx : MsgTx)
    → packet.unsigned_tx ≡ some tx
    → (has_output opts (some packet) ≡ true) ↔ (
        (n : ℕ) × (o : TxOut) × (get_elem? tx.tx_out n ≡ some (some o))
        × IsIndex (apply_opts opts no_output_criteria).index n
        × (passes (apply_opts opts no_output_criteria).amount (to_u64 o.value) ≡ true)
        × (passes (apply_opts opts no_output_criteria).script o.pk_script ≡ true))
unfolding has_output
has_output_iff opts packet tx given =
    let c = apply_opts opts no_output_criteria in
    let (to, from) = at_or_any_iff (λ o. match_output o c) c.index tx.tx_out in
    rw given (
      λ e.
          let (n, x, at, h, i) = to e in
          let (o, same, a, s) = (match_output_iff x c).0 h in (n, o, at ∙ ap some same, i, a, s),
      λ (n, o, at, i, a, s).
          from (n, some o, at, (match_output_iff (some o) c).1 (o, refl, a, s), i),
    )

-- The predicates on the transaction itself, with any arguments.
pub data IsStructural : Predicate → Type 0 where
  output_count : (n : ℕ) → IsStructural (has_output_count n)
  input_count : (n : ℕ) → IsStructural (has_input_count n)
  lock_time : (n : ℕ) → IsStructural (has_lock_time n)
  output : (opts : List (Option OutputOpt)) → IsStructural (has_output opts)
  input : (opts : List (Option InputOpt)) → IsStructural (has_input opts)

-- The packet is nil, or has no transaction.
abbrev pub HasNoTx : Option PsbtPacket → Type 0
HasNoTx tx = on_tx (λ m. true) tx ≡ false

on_tx_missing : (f : MsgTx → Bool) (tx : Option PsbtPacket) → HasNoTx tx → on_tx f tx ≡ false
on_tx_missing f none h = refl
on_tx_missing f (some packet) h = elim (Option-cases packet.unsigned_tx) [
  | inl missing ↦ rw missing
  | inr (m, given) ↦ let bad = rw given at h in cc
]

structural_missing :
    {p : Predicate} → IsStructural p → (tx : Option PsbtPacket) → HasNoTx tx → p tx ≡ false
unfolding has_output has_input has_output_count has_input_count has_lock_time
structural_missing (output_count n) tx h = on_tx_missing _ tx h
structural_missing (input_count n) tx h = on_tx_missing _ tx h
structural_missing (lock_time n) tx h = on_tx_missing _ tx h
structural_missing (output opts) tx h = on_tx_missing _ tx h
structural_missing (input opts) tx h = on_tx_missing _ tx h

-- On a nil packet, and on one without a transaction, the structural predicates do not hold, and so
-- the negation of each of them does.
pub not_of_missing :
    (p : Predicate) (tx : Option PsbtPacket)
    → IsStructural p
    → HasNoTx tx
    → (p tx ≡ false) × (not_of (some p) tx ≡ true)
unfolding not_of
not_of_missing p tx s h = let no_match = structural_missing s tx h in (no_match, rw no_match)

-- For predicates that are not nil, Not of All is Any of the Nots.
pub not_of-all :
    (ps : List Predicate) (tx : Option PsbtPacket)
    → not_of (some (all (map some ps))) tx
      ≡ any_of (map (λ (p : Predicate). some (not_of (some p))) ps) tx
unfolding not_of all any_of
not_of-all [] tx = refl
not_of-all (p ∷ ps) tx = ground (arith, not_of-all ps tx)
