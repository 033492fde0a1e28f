-- ===== src/Config/Path.antt =====
-- path/filepath: Join of two elements, with Clean.
use bancod.Prelude.{
  Bool, false, List, [], ◌∷◌, ◌++◌, ◌==◌, if◌then◌else◌, Bytes, text, bytes_equal, refl, ◌≡◌,
}
use bancod.Prelude.Slashes.{split_slash}

-- `..` behind the parts kept, the last first: it removes one, stays at the front of a relative
-- path, and goes at the root.
pub pop_part : Bool → List Bytes → List Bytes
pop_part rooted [] = if rooted then [] else text ".." ∷ []
pop_part rooted (p ∷ ps) = if bytes_equal p (text "..") then text ".." ∷ p ∷ ps else ps

pub clean_parts : Bool → List Bytes → List Bytes → List Bytes
clean_parts rooted kept [] = kept
clean_parts rooted kept (p ∷ ps) =
    clean_parts rooted
      (if bytes_equal p []
        then kept
        else if bytes_equal p (text ".")
        then kept
        else if bytes_equal p (text "..")
        then pop_part rooted kept
        else p ∷ kept)
      ps

-- The parts, the last first, behind `tail`.
pub join_parts : List Bytes → Bytes → Bytes
join_parts [] tail = tail
join_parts (p ∷ []) tail = p ++ tail
join_parts (p ∷ q ∷ ps) tail = join_parts (q ∷ ps) (b'/' ∷ (p ++ tail))

pub is_rooted : Bytes → Bool
is_rooted [] = false
is_rooted (c ∷ s) = c == b'/'

pub or_dot : Bytes → Bytes
or_dot [] = text "."
or_dot (c ∷ s) = c ∷ s

-- filepath.Clean
pub clean : Bytes → Bytes
unfolding split_slash pop_part clean_parts join_parts is_rooted or_dot
clean path =
    let parts = join_parts (clean_parts (is_rooted path) [] (split_slash path)) [] in
    if is_rooted path then b'/' ∷ parts else or_dot parts

-- filepath.Join, which leaves out empty elements.
unfoldable pub join : Bytes → Bytes → Bytes
unfolding clean
join [] [] = []
join [] (c ∷ s) = clean (c ∷ s)
join (c ∷ s) [] = clean (c ∷ s)
join (c ∷ s) (d ∷ t) = clean ((c ∷ s) ++ b'/' ∷ d ∷ t)

join_home : join (text "/home/ann/") (text ".bancod") ≡ text "/home/ann/.bancod"
unfolding join
join_home = refl

join_dots : join (text "a/../../b/./c") (text "..") ≡ text "../b"
unfolding join
join_dots = refl
