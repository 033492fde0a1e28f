-- ===== src/Prelude/Results.antt =====
-- Go's pair of a value and an error, as one value: `ok a` with a nil error, or the error. The
-- type of errors is each component's own.
use mathlib.Core.Path.{◌≡◌, refl}
use mathlib.Core.Logic.{◌⊎◌, inl, inr}
use mathlib.Core.Bool.{Bool, true, false}
use mathlib.Core.Option.{Option, none, some}

pub data Result {ℓ κ} (E : Type ℓ) (A : Type κ) : Type (ℓ ⊔ κ) where
  ok : A → Result E A
  err : E → Result E A

-- `if !test { return failure }`
abbrev pub guard {ℓ} : {E : Type ℓ} → (test : Bool) (failure : E) → Result E (Unit {0})
guard false failure = err failure
guard true failure = ok tt

-- A foreign call that fails with an error of its own, which the caller wraps as `e`.
abbrev pub or_fail {ℓ κ} : {E : Type ℓ} {A : Type κ} → Option A → E → Result E A
or_fail none e = err e
or_fail (some a) e = ok a

-- What Go writes as `if err != nil { return err }` between two calls, with and without a value.
infixl 5 ◌>>=◌ ◌>>◌
abbrev pub ◌>>=◌ {ℓ κ ι} :
    {E : Type ℓ} {V : Type κ} {W : Type ι} → Result E V → (next : V → Result E W) → Result E W
err failure >>= next = err failure
ok v >>= next = next v

abbrev pub ◌>>◌ {ℓ κ} : {E : Type ℓ} {W : Type κ} → Result E (Unit {0}) → Result E W → Result E W
first >> second = first >>= (λ (u : Unit {0}). second)

pub >>=-eq-ok {ℓ κ ι} :
    {E : Type ℓ} {V : Type κ} {W : Type ι} (first : Result E V) (next : V → Result E W) {w : W}
    → (first >>= next) ≡ ok w
    → (v : V) × (first ≡ ok v) × (next v ≡ ok w)
>>=-eq-ok (err failure) next h = cc
>>=-eq-ok (ok v) next h = (v, refl, h)

pub Result-cases {ℓ κ} :
    {E : Type ℓ} {A : Type κ} (r : Result E A) → ((a : A) × (r ≡ ok a)) ⊎ ((e : E) × (r ≡ err e))
Result-cases (ok a) = inl (a, refl)
Result-cases (err e) = inr (e, refl)

pub ok-injective {ℓ κ} :
    {E : Type ℓ} {A : Type κ} (a b : A) → ◌≡◌ {A = Result E A} (ok a) (ok b) → a ≡ b
ok-injective a b h = cc

pub or_fail-eq-ok {ℓ κ} :
    {E : Type ℓ} {A : Type κ} (o : Option A) (e : E) (a : A) → or_fail o e ≡ ok a → o ≡ some a
or_fail-eq-ok none e a h = cc
or_fail-eq-ok (some b) e a h = cc
