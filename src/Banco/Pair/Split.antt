-- ===== src/Banco/Pair/Split.antt =====
-- Reading a pair's name, against a description of what the two sides are.
use bancod.Prelude.{
  ◌≡◌, ◌≢◌, refl, sym, ◌∙◌, ap, ◌↔◌, ◌⊎◌, subst, false, [], ◌∷◌, ◌++◌, none, some, ◌==◌, Bytes, All,
  Bool-cases, inl, inr, arith,
}
use mathlib.Core.List.{append_assoc, append-nil}
use bancod.Banco.Pair.{Pair, base, quote, split_pair, split_from, two_parts}

abbrev pub NoSlash : Bytes → Type 0
NoSlash s = All (λ c. c ≢ b'/') s

split_from-slash :
    (front a b : Bytes) → NoSlash a → split_from front (a ++ b'/' ∷ b) ≡ (front ++ a) ∷ b ∷ []
unfolding split_from
split_from-slash front [] b h = simp append-nil
split_from-slash front (c ∷ a) b (h, hs) =
    let other : (c == b'/') ≡ false = ground arith in
    rw other (split_from-slash (front ++ c ∷ []) a b hs ∙ simp append_assoc)

split_from-whole : (front s : Bytes) → NoSlash s → split_from front s ≡ (front ++ s) ∷ []
unfolding split_from
split_from-whole front [] h = simp append-nil
split_from-whole front (c ∷ s) (h, hs) =
    let other : (c == b'/') ≡ false = ground arith in
    rw other (split_from-whole (front ++ c ∷ []) s hs ∙ simp append_assoc)

-- A name "a/b" where a has no slash has base a and quote b, whatever b holds.
pub base-quote :
    (p : Pair) (a b : Bytes) → NoSlash a → p.pair ≡ a ++ b'/' ∷ b → (base p ≡ a) × (quote p ≡ b)
unfolding base quote
base-quote p a b h e = rw (e, split_from-slash [] a b h) (refl, refl)

slash_cases :
    (s : Bytes) → NoSlash s ⊎ ((a : Bytes) × (b : Bytes) × (s ≡ a ++ b'/' ∷ b) × NoSlash a)
slash_cases [] = inl tt
slash_cases (c ∷ s) = elim (Bool-cases (c == b'/')) [
  | inl slash ↦ let same : c ≡ b'/' = ground arith in inr ([], s, ap (λ x. x ∷ s) same, tt)
  | inr other ↦
      let ne : c ≢ b'/' = ground arith in
      elim (slash_cases s) [
        | inl h ↦ inl (ne, h)
        | inr (a, b, e, h) ↦ inr (c ∷ a, b, ap (λ t. c ∷ t) e, (ne, h))
      ]
]

two_parts-single : (s : Bytes) → two_parts (s ∷ []) ≡ none
unfolding two_parts
two_parts-single [] = refl
two_parts-single (c ∷ s) = refl

two_parts-pair :
    (a b u v : Bytes)
    → (two_parts (a ∷ b ∷ []) ≡ some (u, v)) ↔ ((u ≡ a) × (v ≡ b) × (a ≢ []) × (b ≢ []))
unfolding two_parts
two_parts-pair [] b u v = ground arith
two_parts-pair (x ∷ a) [] u v = ground arith
two_parts-pair (x ∷ a) (y ∷ b) u v = ground arith

-- What splitPair accepts is exactly a name "a/b" with both sides non-empty and no slash in a, and
-- its result is the two sides.
pub split_pair-eq-some_iff :
    (name a b : Bytes)
    → (split_pair name ≡ some (a, b)) ↔ ((name ≡ a ++ b'/' ∷ b) × NoSlash a × (a ≢ []) × (b ≢ []))
unfolding split_pair
split_pair-eq-some_iff name a b = (
  λ e. elim (slash_cases name) [
    | inl h ↦
        let none_left = rw (split_from-whole [] name h) at e in
        absurd (cc (two_parts-single name, none_left))
    | inr (u, v, same, h) ↦
        let both = rw (same, split_from-slash [] u v h) at e in
        let (eu, ev, nu, nv) = (two_parts-pair u v a b).0 both in
        (same ∙ cc (eu, ev), subst NoSlash (sym eu) h, λ z. nu (sym eu ∙ z), λ z. nv (sym ev ∙ z))
  ],
  λ (same, h, ha, hb).
      rw (same, split_from-slash [] a b h) ((two_parts-pair a b a b).1 (refl, refl, ha, hb)),
)

-- Two sides that are not empty, as splitPair finds them.
abbrev pub IsNamed : Pair → Type 0
IsNamed p = (a : Bytes) × (b : Bytes) × (split_pair p.pair ≡ some (a, b))
