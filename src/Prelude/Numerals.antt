-- ===== src/Prelude/Numerals.antt =====
-- strconv: decimal numbers.
use bancod.Prelude.{
  ℕ, zero, suc, ◌+◌, ◌-◌, ◌*◌, ◌^◌, Bool, true, false, ◌&&◌, [], ◌∷◌, Option, none, some, ltb, leb,
  ◌==◌, if◌then◌else◌, Bytes, ℤ, pos, negsuc,
}

-- The digits of a decimal number behind `acc`; `none` on any other byte.
unfoldable pub parse_digits : ℕ → Bytes → Option ℕ
parse_digits acc [] = some acc
parse_digits acc (c ∷ s) =
    let rest = parse_digits (acc * 10 + (c - b'0')) s in
    if leb b'0' c && leb c b'9' then rest else none

-- A decimal number of one digit or more.
unfoldable pub parse_number : Bytes → Option ℕ
parse_number [] = none
parse_number (c ∷ s) = parse_digits 0 (c ∷ s)

-- A number in the range of an int, by its sign.
unfoldable pub in_range : Bool → ℕ → Option ℤ
in_range true zero = some (pos 0)
in_range true (suc n) = if ltb n (2 ^ 63) then some (negsuc n) else none
in_range false n = if ltb n (2 ^ 63) then some (pos n) else none

unfoldable pub signed : Bool → Option ℕ → Option ℤ
signed negative none = none
signed negative (some n) = in_range negative n

-- strconv.Atoi: a sign or none, and digits, within an int's range.
unfoldable pub atoi : Bytes → Option ℤ
atoi [] = none
atoi (c ∷ s) =
    if c == b'-'
    then signed true (parse_number s)
    else if c == b'+'
    then signed false (parse_number s)
    else signed false (parse_number (c ∷ s))
