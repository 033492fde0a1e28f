-- ===== src/Prelude/Slashes.antt =====
-- The parts of a path, as strings.Split gives them.
use bancod.Prelude.{ℕ, ◌≡◌, refl, false, List, [], ◌∷◌, ◌==◌, if◌then◌else◌, Bytes, All}

-- The parts between slashes.
pub with_head : ℕ → List Bytes → List Bytes
with_head c [] = (c ∷ []) ∷ []
with_head c (p ∷ ps) = (c ∷ p) ∷ ps

unfoldable pub split_slash : Bytes → List Bytes
unfolding with_head
split_slash [] = [] ∷ []
split_slash (c ∷ s) = let rest = split_slash s in if c == b'/' then [] ∷ rest else with_head c rest

-- A text without a slash is one part.
pub split_slash-one : (s : Bytes) → All (λ c. (c == b'/') ≡ false) s → split_slash s ≡ s ∷ []
unfolding split_slash
split_slash-one [] h = refl
split_slash-one (c ∷ s) (n, h) = rw (n, split_slash-one s h)
