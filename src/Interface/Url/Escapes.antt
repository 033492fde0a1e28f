-- ===== src/Interface/Url/Escapes.antt =====
-- Escaping and unescaping a part of a path.
use bancod.Prelude.{
  ℕ, ◌+◌, ◌*◌, ◌/◌, ◌%◌, ◌<◌, ◌≡◌, refl, ap, ◌∙◌, ==_iff, true, false, Bool-cases, inl, inr, [],
  ◌∷◌, some, ◌==◌, Bytes, IsByte, All, arith,
}
use bancod.Interface.Url.{
  is_plain, hex_digit, escape_byte, path_escape, unhex, at_byte, at_first, at_second, push,
  unescape, path_unescape,
}

hex_digit-unhex : (d : ℕ) → d < 16 → unhex (hex_digit d) ≡ some d
unfolding unhex hex_digit
hex_digit-unhex d h = ground arith

plain-ne-percent : (c : ℕ) → is_plain c ≡ true → (c == b'%') ≡ false
unfolding is_plain
plain-ne-percent c h = elim (Bool-cases (c == b'%')) [
  | inl same ↦ let e : is_plain c ≡ false = ap is_plain ((==_iff c b'%').0 same) in absurd cc
  | inr other ↦ other
]

unescape-first :
    (h d : ℕ) (s : Bytes) → unhex h ≡ some d → unescape at_first (h ∷ s) ≡ unescape (at_second d) s
unfolding unescape
unescape-first h d s e = rw (e, unescape)

unescape-second :
    (d l e : ℕ) (s : Bytes)
    → unhex l ≡ some e
    → unescape (at_second d) (l ∷ s) ≡ push (d * 16 + e) (unescape at_byte s)
unfolding unescape
unescape-second d l e s h = rw (h, unescape)

unescape-escape_byte :
    (c : ℕ) (s : Bytes)
    → IsByte c
    → unescape at_byte (escape_byte c s) ≡ push c (unescape at_byte s)
unfolding escape_byte unescape
unescape-escape_byte c s h = elim (Bool-cases (is_plain c)) [
  | inl plain ↦ rw (plain, plain-ne-percent c plain)
  | inr other ↦ rw other (
      unescape-first (hex_digit (c / 16)) (c / 16) (hex_digit (c % 16) ∷ s)
        (hex_digit-unhex (c / 16) (omega arith))
      ∙ unescape-second (c / 16) (hex_digit (c % 16)) (c % 16) s
          (hex_digit-unhex (c % 16) (omega arith))
      ∙ ap (λ d. push d (unescape at_byte s)) (omega arith))
]

-- Unescaping what PathEscape made gives the bytes back.
pub path_unescape-path_escape : (s : Bytes) → All IsByte s → path_unescape (path_escape s) ≡ some s
unfolding path_unescape path_escape unescape push
path_unescape-path_escape [] h = refl
path_unescape-path_escape (c ∷ s) (b, h) =
    unescape-escape_byte c (path_escape s) b ∙ ap (push c) (path_unescape-path_escape s h)

hex_digit-ne-slash : (d : ℕ) → d < 16 → (hex_digit d == b'/') ≡ false
unfolding hex_digit
hex_digit-ne-slash d h = ground arith

plain-ne-slash : (c : ℕ) → is_plain c ≡ true → (c == b'/') ≡ false
unfolding is_plain
plain-ne-slash c h = elim (Bool-cases (c == b'/')) [
  | inl same ↦ let e : is_plain c ≡ false = ap is_plain ((==_iff c b'/').0 same) in absurd cc
  | inr other ↦ other
]

abbrev pub NoSlash : Bytes → Type 0
NoSlash = All (λ c. (c == b'/') ≡ false)

escape_byte-NoSlash : (c : ℕ) (s : Bytes) → IsByte c → NoSlash s → NoSlash (escape_byte c s)
unfolding escape_byte
escape_byte-NoSlash c s h n = elim (Bool-cases (is_plain c)) [
  | inl plain ↦ rw plain (plain-ne-slash c plain, n)
  | inr other ↦ rw other (
    refl,
    (hex_digit-ne-slash (c / 16) (omega arith), (hex_digit-ne-slash (c % 16) (omega arith), n)),
  )
]

-- No slash comes out of PathEscape.
pub path_escape-NoSlash : (s : Bytes) → All IsByte s → NoSlash (path_escape s)
unfolding path_escape
path_escape-NoSlash [] h = tt
path_escape-NoSlash (c ∷ s) (b, h) =
    escape_byte-NoSlash c (path_escape s) b (path_escape-NoSlash s h)
