-- ===== src/Interface/Url.antt =====
-- net/url as the server and the command line use it: the escapes in a part of a path.
pub mod Escapes
use bancod.Prelude.{
  ℕ, ◌+◌, ◌-◌, ◌*◌, ◌/◌, ◌%◌, Bool, ◌&&◌, ◌||◌, [], ◌∷◌, ◌++◌, Option, none, some, leb, ltb, ◌==◌,
  if◌then◌else◌, Bytes,
}

-- url.PathEscape leaves these bytes, and escapes all others.
pub is_plain : ℕ → Bool
is_plain c =
    (leb b'a' c && leb c b'z')
    || (leb b'A' c && leb c b'Z')
    || (leb b'0' c && leb c b'9')
    || c == b'-'
    || c == b'_'
    || c == b'.'
    || c == b'~'
    || c == b'$'
    || c == b'&'
    || c == b'+'
    || c == b':'
    || c == b'='
    || c == b'@'

pub hex_digit : ℕ → ℕ
hex_digit d = if ltb d 10 then b'0' + d else b'A' + (d - 10)

pub escape_byte : ℕ → Bytes → Bytes
escape_byte c tail =
    if is_plain c then c ∷ tail else b'%' ∷ hex_digit (c / 16) ∷ hex_digit (c % 16) ∷ tail

pub path_escape : Bytes → Bytes
path_escape [] = []
path_escape (c ∷ s) = escape_byte c (path_escape s)

pub unhex : ℕ → Option ℕ
unhex c =
    if leb b'0' c && leb c b'9'
    then some (c - b'0')
    else if leb b'a' c && leb c b'f'
    then some (c - b'a' + 10)
    else if leb b'A' c && leb c b'F'
    then some (c - b'A' + 10)
    else none

-- What the reader is at: a byte, or the first or the second digit of an escape.
pub data Place : Type 0 where
  at_byte at_first : Place
  at_second : ℕ → Place

pub push : ℕ → Option Bytes → Option Bytes
push c none = none
push c (some s) = some (c ∷ s)

-- url.PathUnescape, which fails on a `%` without two hexadecimal digits.
pub unescape : Place → Bytes → Option Bytes
unescape at_byte [] = some []
unescape at_first [] = none
unescape (at_second d) [] = none
unescape at_byte (c ∷ s) =
    let rest = unescape (if c == b'%' then at_first else at_byte) s in
    if c == b'%' then rest else push c rest
unescape at_first (h ∷ s) = elim (unhex h) [ none ↦ none | some d ↦ unescape (at_second d) s ]
unescape (at_second d) (l ∷ s) =
    let rest = unescape at_byte s in
    elim (unhex l) [ none ↦ none | some e ↦ push (d * 16 + e) rest ]

unfoldable pub path_unescape : Bytes → Option Bytes
unfolding unescape unhex push
path_unescape s = unescape at_byte s
