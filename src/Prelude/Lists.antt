-- ===== src/Prelude/Lists.antt =====
-- Lists measured by native numbers, under the library's names, and equality of byte strings.
use Prim.Native.Nat.{ℕ, zero, suc, ◌+◌, ◌-◌, ◌≤◌}
use Prim.Native.Char.{code}
use Prim.Native.String.{String}
use mathlib.Core.Path.{◌≡◌, refl, ap, subst}
use mathlib.Core.Logic.{◌↔◌, ◌⊎◌, inl, inr}
use mathlib.Core.Bool.{Bool, true, false, ◌&&◌, ◌||◌}
use mathlib.Core.Option.{Option, none, some}
use mathlib.Core.List.{List, [], ◌∷◌, ◌++◌}
use native.Mathlib.Omega.{arith}
use bancod.Prelude.Tests.{◌==◌}

module _ {ℓ} {A : Type ℓ} where
  abbrev pub length : List A → ℕ
  length [] = 0
  length (x ∷ xs) = suc (length xs)

  abbrev pub get_elem? : List A → ℕ → Option A
  get_elem? [] i = none
  get_elem? (x ∷ xs) zero = some x
  get_elem? (x ∷ xs) (suc i) = get_elem? xs i

  abbrev pub take : ℕ → List A → List A
  take zero xs = []
  take (suc n) [] = []
  take (suc n) (x ∷ xs) = x ∷ take n xs

  abbrev pub drop : ℕ → List A → List A
  drop zero xs = xs
  drop (suc n) [] = []
  drop (suc n) (x ∷ xs) = drop n xs

  pub length-append : (xs ys : List A) → length (xs ++ ys) ≡ length xs + length ys
  length-append [] ys = omega arith
  length-append (x ∷ xs) ys = omega (arith, length-append xs ys)

  pub length-take : (n : ℕ) (xs : List A) → n ≤ length xs → length (take n xs) ≡ n
  length-take zero xs h = refl
  length-take (suc n) [] h = elim h [ ]
  length-take (suc n) (x ∷ xs) h = ap suc (length-take n xs (omega arith))

  pub length-drop : (n : ℕ) (xs : List A) → length (drop n xs) ≡ length xs - n
  length-drop zero xs = omega arith
  length-drop (suc n) [] = omega arith
  length-drop (suc n) (x ∷ xs) = omega (arith, length-drop n xs)

  pub take-append : (xs ys : List A) → take (length xs) (xs ++ ys) ≡ xs
  take-append [] ys = refl
  take-append (x ∷ xs) ys = ap (λ t. x ∷ t) (take-append xs ys)

  pub drop-append : (xs ys : List A) → drop (length xs) (xs ++ ys) ≡ ys
  drop-append [] ys = refl
  drop-append (x ∷ xs) ys = drop-append xs ys

  abbrev pub any : (A → Bool) → List A → Bool
  any p [] = false
  any p (x ∷ xs) = p x || any p xs

module _ {ℓ κ} {A : Type ℓ} (P : A → Type κ) where
  abbrev pub All : List A → Type κ
  All [] = Unit
  All (x ∷ xs) = P x × All xs

  pub All-append : (xs ys : List A) → All xs → All ys → All (xs ++ ys)
  All-append [] ys h k = k
  All-append (x ∷ xs) ys (p, h) k = (p, All-append xs ys h k)

  pub All-take : (n : ℕ) (xs : List A) → All xs → All (take n xs)
  All-take zero xs h = tt
  All-take (suc n) [] h = tt
  All-take (suc n) (x ∷ xs) (p, h) = (p, All-take n xs h)

  pub All-drop : (n : ℕ) (xs : List A) → All xs → All (drop n xs)
  All-drop zero xs h = h
  All-drop (suc n) [] h = tt
  All-drop (suc n) (x ∷ xs) (p, h) = All-drop n xs h

pub All-imp {ℓ κ ι} :
    {A : Type ℓ} (P : A → Type κ) (Q : A → Type ι) (xs : List A)
    → ((x : A) → P x → Q x)
    → All P xs
    → All Q xs
All-imp P Q [] f h = tt
All-imp P Q (x ∷ xs) f (p, h) = (f x p, All-imp P Q xs f h)

-- The element stands in the list.
abbrev pub Member : {A : Type 0} → A → List A → Type 0
Member x [] = ⊥
Member x (y ∷ ys) = (x ≡ y) ⊎ Member x ys

pub All-Member : {A : Type 0} (P : A → Type 0) (xs : List A) {x : A} → All P xs → Member x xs → P x
All-Member P (y ∷ ys) h (inl e) = rw e h.0
All-Member P (y ∷ ys) h (inr m) = All-Member P ys h.1 m
All-Member P [] h m = absurd m

pub Member-All :
    {A : Type 0} (P : A → Type 0) (xs : List A) → ((x : A) → Member x xs → P x) → All P xs
Member-All P [] h = tt
Member-All P (y ∷ ys) h = (h y (inl refl), Member-All P ys (λ x m. h x (inr m)))

-- A pointer that is nil, or meets `P`.
abbrev pub IfSome {ℓ κ} : {A : Type ℓ} → (A → Type κ) → Option A → Type κ
IfSome P none = Unit
IfSome P (some a) = P a

-- A byte slice, and a Go string, which is a sequence of bytes.
abbrev pub Bytes : Type 0
Bytes = List ℕ

-- The bytes of an ASCII literal.
abbrev pub text : String → Bytes
text String.[] = []
text (String.◌∷◌ c s) = code c ∷ text s

-- `bytes.Equal`, and `==` on strings.
abbrev pub bytes_equal : Bytes → Bytes → Bool
bytes_equal [] [] = true
bytes_equal [] (y ∷ ys) = false
bytes_equal (x ∷ xs) [] = false
bytes_equal (x ∷ xs) (y ∷ ys) = (x == y) && bytes_equal xs ys

pub bytes_equal→eq : (xs ys : Bytes) → bytes_equal xs ys ≡ true → xs ≡ ys
bytes_equal→eq [] [] h = refl
bytes_equal→eq [] (y ∷ ys) h = ground arith
bytes_equal→eq (x ∷ xs) [] h = ground arith
bytes_equal→eq (x ∷ xs) (y ∷ ys) h = ground (arith, bytes_equal→eq xs ys)

pub bytes_equal_refl : (xs : Bytes) → bytes_equal xs xs ≡ true
bytes_equal_refl [] = refl
bytes_equal_refl (x ∷ xs) = ground (arith, bytes_equal_refl xs)

pub eq→bytes_equal : (xs ys : Bytes) → xs ≡ ys → bytes_equal xs ys ≡ true
eq→bytes_equal xs ys e = subst (λ t. bytes_equal xs t ≡ true) e (bytes_equal_refl xs)

pub bytes_equal_iff : (xs ys : Bytes) → (bytes_equal xs ys ≡ true) ↔ (xs ≡ ys)
bytes_equal_iff xs ys = (bytes_equal→eq xs ys, eq→bytes_equal xs ys)
