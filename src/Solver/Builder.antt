-- ===== src/Solver/Builder.antt =====
-- pkg/solver/builder: a plugin assembled from filters, a decoder, validators and an action. `S` is
-- the state of the world that the stages read and change, `T` the type of intents, `E` of errors.
mod Tests
pub mod Stages
use bancod.Prelude.{
  ◌≡◌, Bool, true, false, List, [], ◌∷◌, ◌++◌, Option, none, some, if◌then◌else◌, Bytes, Result, ok,
  err,
}
use bancod.Contract.Taker.{TxOut}
use bancod.Solver.Txmatch.{MsgTx, PsbtPacket, Predicate, has_output, output_script_matching}

-- What a stage can return beside its result: ErrSkip, or any other error. `panicked` is a panic.
pub data StageError (E : Type 0) : Type 0 where
  skip : StageError E
  failed : E → StageError E
  panicked : StageError E

-- The fields of Builder, where Decode and Solve may be missing, and of its plugin.
pub record Builder (S T E : Type 0) : Type 0 where
  pub filters : List Predicate
  pub decode : Option (Option PsbtPacket → S → Result (StageError E) T × S)
  pub validators : List (T → S → Result (StageError E) Bool × S)
  pub solve : Option (T → S → S)
  pub log : Bool

pub record Plugin (S T E : Type 0) : Type 0 where
  pub filters : List Predicate
  pub decode : Option PsbtPacket → S → Result (StageError E) T × S
  pub validators : List (T → S → Result (StageError E) Bool × S)
  pub solve : T → S → S
  pub log : Bool

-- The result of Match: an intent with true; or false, with the error handed to report, if any; or
-- no result, where a stage panicked.
pub data Match (T E : Type 0) : Type 0 where
  matched : T → Match T E
  missed : Match T E
  reported : StageError E → Match T E
  crashed : Match T E

-- The loop over the filters.
unfoldable pub run_filters : List Predicate → Option PsbtPacket → Bool
run_filters [] tx = true
run_filters (f ∷ fs) tx = let rest = run_filters fs tx in if f tx then rest else false

-- What an error of a stage makes of Match.
unfoldable pub of_error : {T E : Type 0} → StageError E → Match T E
of_error panicked = crashed
of_error skip = reported skip
of_error (failed e) = reported (failed e)

module _ {S T E : Type 0} where
  -- For[T]()
  unfoldable pub for_intents : Builder S T E
  for_intents = record { filters = []; decode = none; validators = []; solve = none; log = false }

  -- A nil predicate or validator is left out.
  unfoldable pub filter : Option Predicate → Builder S T E → Builder S T E
  filter none b = b
  filter (some p) b = record b { filters = b.filters ++ p ∷ [] }

  unfoldable pub set_decode :
      (Option PsbtPacket → S → Result (StageError E) T × S) → Builder S T E → Builder S T E
  set_decode f b = record b { decode = some f }

  unfoldable pub validate :
      Option (T → S → Result (StageError E) Bool × S) → Builder S T E → Builder S T E
  validate none b = b
  validate (some f) b = record b { validators = b.validators ++ f ∷ [] }

  unfoldable pub set_solve : (T → S → S) → Builder S T E → Builder S T E
  set_solve f b = record b { solve = some f }

  unfoldable pub with_logger : Bool → Builder S T E → Builder S T E
  with_logger log b = record b { log = log }

  -- Build panics (`none`) without a decoder or an action.
  unfoldable pub build : Builder S T E → Option (Plugin S T E)
  build b = elim b.decode [
    | none ↦ none
    | some d ↦ elim b.solve [
      | none ↦ none
      | some s ↦ some (record {
        filters = b.filters;
        decode = d;
        validators = b.validators;
        solve = s;
        log = b.log;
      })
    ]
  ]

  -- One turn of the loop over the validators, from its answer; `rest` is the loop's other turns.
  unfoldable pub after_validate :
      (S → Match T E × S) → Result (StageError E) Bool × S → Match T E × S
  after_validate rest (ok true, s) = rest s
  after_validate rest (ok false, s) = (missed, s)
  after_validate rest (err e, s) = (of_error e, s)

  -- The loop, from an intent and the world that decoding left.
  unfoldable pub run_validators :
      List (T → S → Result (StageError E) Bool × S) → T → S → Match T E × S
  unfolding after_validate
  run_validators [] t s = (matched t, s)
  run_validators (v ∷ vs) t s = after_validate (λ s'. run_validators vs t s') (v t s)

  -- From the decoder's answer on.
  unfoldable pub after_decode :
      List (T → S → Result (StageError E) Bool × S) → Result (StageError E) T × S → Match T E × S
  after_decode vs (err e, s) = (of_error e, s)
  after_decode vs (ok t, s) = run_validators vs t s

  -- plugin.Match
  unfoldable pub match_tx : Plugin S T E → Option PsbtPacket → S → Match T E × S
  match_tx p tx s =
      if run_filters p.filters tx then after_decode p.validators (p.decode tx s) else (missed, s)

  -- What report logs: no skip, and nothing without a logger.
  pub report_logs : Plugin S T E → Match T E → List E
  report_logs p (reported (failed e)) = if p.log then e ∷ [] else []
  report_logs p _ = []

-- extension.NewExtensionFromTx: an extension, ErrExtensionNotFound, or another error.
pub data Parsed (X E : Type 0) : Type 0 where
  parsed : X → Parsed X E
  not_found : Parsed X E
  not_parsed : E → Parsed X E

-- HasArkExtension, over extension.IsExtension.
unfoldable pub has_ark_extension : (Bytes → Bool) → Predicate
unfolding has_output output_script_matching
has_ark_extension is_extension = has_output (some (output_script_matching is_extension) ∷ [])

module _ {S T E X : Type 0} where
  -- The decoder of ForExtension, where the transaction is there.
  unfoldable pub decode_parsed :
      (Option PsbtPacket → X → S → Result (StageError E) T × S)
      → Option PsbtPacket
      → S
      → Parsed X E
      → Result (StageError E) T × S
  decode_parsed decode tx s (parsed x) = decode tx x s
  decode_parsed decode tx s not_found = (err skip, s)
  decode_parsed decode tx s (not_parsed e) = (err (failed e), s)

  unfoldable pub decode_extension :
      (MsgTx → Parsed X E)
      → (Option PsbtPacket → X → S → Result (StageError E) T × S)
      → Option PsbtPacket
      → S
      → Result (StageError E) T × S
  decode_extension parse decode none s = (err skip, s)
  decode_extension parse decode (some packet) s = elim packet.unsigned_tx [
    | none ↦ (err skip, s)
    | some tx ↦ decode_parsed decode (some packet) s (parse tx)
  ]

  -- ForExtension, for a decoder that is not nil.
  unfoldable pub for_extension :
      (Bytes → Bool)
      → (MsgTx → Parsed X E)
      → (Option PsbtPacket → X → S → Result (StageError E) T × S)
      → Builder S T E
  unfolding for_intents filter set_decode has_ark_extension decode_extension
  for_extension is_extension parse decode =
      set_decode (decode_extension parse decode)
        (filter (some (has_ark_extension is_extension)) for_intents)
