-- ===== src/Banco/Pair.antt =====
-- pkg/banco/pair.go, and the reading of a pair's name in internal/core/application/service.go.
pub mod Split
use bancod.Prelude.{
  ℕ, ◌≡◌, Bool, true, false, List, [], ◌∷◌, ◌++◌, Option, none, some, ◌==◌, if◌then◌else◌, length,
  Bytes,
}

pub record Pair : Type 0 where
  pub pair : Bytes
  pub min_amount : ℕ
  pub max_amount : ℕ
  pub base_decimals : ℕ
  pub quote_decimals : ℕ
  pub price_feed : Bytes
  pub invert_price : Bool

-- strings.SplitN(s, "/", 2): the parts before and behind the first separator, or s alone. `front`
-- holds what was read.
unfoldable pub split_from : Bytes → Bytes → List Bytes
split_from front [] = front ∷ []
split_from front (c ∷ s) =
    let longer = split_from (front ++ c ∷ []) s in if c == b'/' then front ∷ s ∷ [] else longer

unfoldable pub split_n2 : Bytes → List Bytes
unfolding split_from
split_n2 s = split_from [] s

unfoldable pub first_part : List Bytes → Bytes
first_part [] = []
first_part (a ∷ rest) = a

unfoldable pub second_part : List Bytes → Bytes
second_part [] = []
second_part (a ∷ []) = []
second_part (a ∷ b ∷ rest) = b

unfoldable pub base : Pair → Bytes
unfolding first_part split_n2
base p = first_part (split_n2 p.pair)

unfoldable pub quote : Pair → Bytes
unfolding second_part split_n2
quote p = second_part (split_n2 p.pair)

-- The two sides, if the name has two and neither is empty.
pub two_parts : List Bytes → Option (Bytes × Bytes)
two_parts ((x ∷ a) ∷ (y ∷ b) ∷ []) = some (x ∷ a, y ∷ b)
two_parts _ = none

-- splitPair of internal/core/application.
unfoldable pub split_pair : Bytes → Option (Bytes × Bytes)
unfolding two_parts split_n2
split_pair name = two_parts (split_n2 name)
