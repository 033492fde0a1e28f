-- ===== src/Interface/Gateway/Paths.antt =====
-- The path of a pair.
use bancod.Prelude.{
  ◌≡◌, ◌≢◌, refl, sym, ap, ◌∙◌, false, Bool-cases, inl, inr, List, [], ◌∷◌, ◌++◌, none, some, ◌==◌,
  Bytes, text, bytes_equal, bytes_equal→eq, IsByte, All,
}
use bancod.Prelude.Slashes.{split_slash, split_slash-one}
use bancod.Banco.Pair.{split_pair}
use bancod.Application.Pairs.{is_empty}
use bancod.Interface.Url.{path_escape, path_unescape}
use bancod.Interface.Url.Escapes.{path_unescape-path_escape, path_escape-NoSlash}
use bancod.Interface.Gateway.{
  Method, delete, to_remove, is_dirty, unescape_all, on_remove, route_v1, route_parts, route_clean,
  route,
}

not_equal : (s t : Bytes) → s ≢ t → bytes_equal s t ≡ false
not_equal s t n = elim (Bool-cases (bytes_equal s t)) [
  | inl same ↦ absurd (n (bytes_equal→eq s t same))
  | inr other ↦ other
]

-- A name with two sides is none of the texts that the mux treats in a way of its own.
pub ne_of_split :
    (name t : Bytes) {sides : Bytes × Bytes}
    → split_pair name ≡ some sides
    → split_pair t ≡ none
    → name ≢ t
ne_of_split name t e n h = let k = ap split_pair h in cc

escape-ne :
    (name t : Bytes) → All IsByte name → path_unescape t ≡ some t → name ≢ t → path_escape name ≢ t
escape-ne name t b plain n e =
    let k = sym (path_unescape-path_escape name b) ∙ ap path_unescape e ∙ plain in n (cc)

pub not_empty : (s : Bytes) → s ≢ [] → is_empty s ≡ false
not_empty [] n = absurd (n refl)
not_empty (c ∷ s) n = refl

parts_of :
    (e : Bytes)
    → All (λ c. (c == b'/') ≡ false) e
    → split_slash (text "/v1/pair/" ++ e) ≡ [] ∷ text "v1" ∷ text "pair" ∷ e ∷ []
unfolding split_slash
parts_of e h = ap (λ l. [] ∷ text "v1" ∷ text "pair" ∷ l) (split_slash-one e h)

unescape_all-cons :
    (p q : Bytes) (ps qs : List Bytes)
    → path_unescape p ≡ some q
    → unescape_all ps ≡ some qs
    → unescape_all (p ∷ ps) ≡ some (q ∷ qs)
unfolding unescape_all
unescape_all-cons p q ps qs e e' = rw (e, e', unescape_all)

literals :
    (path_unescape [] ≡ some [])
    × (path_unescape (text "v1") ≡ some (text "v1"))
    × (path_unescape (text "pair") ≡ some (text "pair"))
unfolding path_unescape
literals = (refl, refl, refl)

plain_of :
    (e name : Bytes)
    → path_unescape e ≡ some name
    → unescape_all ([] ∷ text "v1" ∷ text "pair" ∷ e ∷ [])
      ≡ some ([] ∷ text "v1" ∷ text "pair" ∷ name ∷ [])
unfolding unescape_all
plain_of e name h = unescape_all-cons [] [] (text "v1" ∷ text "pair" ∷ e ∷ []) _ literals.0 (
    unescape_all-cons (text "v1") (text "v1") (text "pair" ∷ e ∷ []) _ literals.1 (
      unescape_all-cons (text "pair") (text "pair") (e ∷ []) _ literals.2
        (unescape_all-cons e name [] [] h refl)))

-- Texts that are no name of a pair, and that escapes leave alone.
pub no_pair :
    (split_pair [] ≡ none)
    × (split_pair (text "/") ≡ none)
    × (split_pair (text ".") ≡ none)
    × (split_pair (text "..") ≡ none)
unfolding split_pair
no_pair = (refl, refl, refl, refl)

dots_plain :
    (path_unescape (text ".") ≡ some (text ".")) × (path_unescape (text "..") ≡ some (text ".."))
unfolding path_unescape
dots_plain = (refl, refl)

route_of :
    (m : Method) (path : Bytes) (parts plain : List Bytes)
    → split_slash path ≡ parts
    → unescape_all parts ≡ some plain
    → route m path ≡ route_clean m parts plain
unfolding route
route_of m path parts plain e e' = rw (e, e', route) (ap (λ l. route_clean m l plain) e)

remove_parts :
    (code name : Bytes)
    → is_empty name ≡ false
    → bytes_equal name (text "/") ≡ false
    → bytes_equal code (text ".") ≡ false
    → bytes_equal code (text "..") ≡ false
    → route_clean delete
        ([] ∷ text "v1" ∷ text "pair" ∷ code ∷ [])
        ([] ∷ text "v1" ∷ text "pair" ∷ name ∷ [])
      ≡ to_remove name
unfolding route_clean route_parts route_v1 on_remove is_dirty
remove_parts code name empty slash dot dots = rw (dot, dots, empty, slash)

-- A DELETE of the escaped name of a pair, one with two sides, is routed to the removal of that pair.
pub route-path_escape :
    (name : Bytes) {sides : Bytes × Bytes}
    → All IsByte name
    → split_pair name ≡ some sides
    → route delete (text "/v1/pair/" ++ path_escape name) ≡ to_remove name
route-path_escape name b e =
    let empty = not_empty name (ne_of_split name [] e no_pair.0) in
    let slash = not_equal name (text "/") (ne_of_split name (text "/") e no_pair.1) in
    let dot =
      not_equal (path_escape name) (text ".")
        (escape-ne name (text ".") b dots_plain.0 (ne_of_split name (text ".") e no_pair.2)) in
    let dots =
      not_equal (path_escape name) (text "..")
        (escape-ne name (text "..") b dots_plain.1 (ne_of_split name (text "..") e no_pair.3)) in
    route_of delete (text "/v1/pair/" ++ path_escape name) _ _
      (parts_of (path_escape name) (path_escape-NoSlash name b))
      (plain_of (path_escape name) name (path_unescape-path_escape name b))
    ∙ remove_parts (path_escape name) name empty slash dot dots
