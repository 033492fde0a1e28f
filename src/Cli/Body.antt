-- ===== src/Cli/Body.antt =====
-- The body of `pair add` and `pair update`, as the server decodes it.
use mathlib.Core.Option
use bancod.Prelude.{ℕ, ◌≡◌, refl, ap, ◌∙◌, [], Bool, none, some, Bytes, text, IsU64, arith}
use bancod.Interface.Handler.{PairInfo}
use bancod.Interface.Json.{
  Json, bool, number, string, Members, end, member, is_tag, into_string, into_u64, into_bool,
  into_info, info_members, empty_info, or_empty, into_pointer, request_members, decode_request,
}
use bancod.Cli.{PairFlags, number_of, pair_json, body_json}

-- The pair of the flags, without their decimals.
abbrev pub info_of : PairFlags → PairInfo
info_of f = record {
  pair = f.pair;
  min_amount = f.min;
  max_amount = f.max;
  price_feed = f.price_feed;
  invert_price = f.invert_price;
}

into_u64-number : (n old : ℕ) → IsU64 n → into_u64 (number n) old ≡ some n
unfolding into_u64
into_u64-number n old h = ground arith

info_members-member :
    (key : Bytes) (j : Json) (ms : Members) (p q : PairInfo)
    → into_info key j p ≡ some q
    → info_members (member key j ms) p ≡ info_members ms q
unfolding info_members
info_members-member key j ms p q e = rw (e, info_members)

-- The keys that are no fields, and the fields that take a value.
into_decimals :
    (j : Json) (p : PairInfo)
    → (into_info (text "base_decimals") j p ≡ some p)
      × (into_info (text "quote_decimals") j p ≡ some p)
unfolding into_info is_tag
into_decimals j p = (refl, refl)

into_texts :
    (s : Bytes) (i : Bool) (p : PairInfo)
    → (into_info (text "pair") (string s) p ≡ some (record p { pair = s }))
      × (into_info (text "price_feed") (string s) p ≡ some (record p { price_feed = s }))
      × (into_info (text "invert_price") (bool i) p ≡ some (record p { invert_price = i }))
unfolding into_info is_tag into_string into_bool
into_texts s i p = (refl, refl, refl)

into_amounts :
    (n : ℕ) (p : PairInfo)
    → IsU64 n
    → (into_info (text "min_amount") (number n) p ≡ some (record p { min_amount = n }))
      × (into_info (text "max_amount") (number n) p ≡ some (record p { max_amount = n }))
unfolding into_info is_tag
into_amounts n p h = (
  ap (Option.map (λ v. record p { min_amount = v })) (into_u64-number n p.min_amount h),
  ap (Option.map (λ v. record p { max_amount = v })) (into_u64-number n p.max_amount h),
)

info_members-end : (p : PairInfo) → info_members end p ≡ some p
unfolding info_members
info_members-end p = refl

into_pointer-pair_json :
    (f : PairFlags)
    → IsU64 f.min
    → IsU64 f.max
    → into_pointer (pair_json f) none ≡ some (some (info_of f))
unfolding into_pointer pair_json or_empty empty_info
into_pointer-pair_json f hmin hmax =
    let p₁ = record empty_info { invert_price = f.invert_price } in
    let p₂ = record p₁ { max_amount = f.max } in
    let p₃ = record p₂ { min_amount = f.min } in
    let p₄ = record p₃ { pair = f.pair } in
    ap (Option.map (λ p. some p)) (
      info_members-member (text "base_decimals") (number_of f.base_decimals) _ empty_info empty_info
        (into_decimals _ empty_info).0
      ∙ info_members-member (text "invert_price") (bool f.invert_price) _ empty_info p₁
          (into_texts [] f.invert_price empty_info).2
      ∙ info_members-member (text "max_amount") (number f.max) _ p₁ p₂
          (into_amounts f.max p₁ hmax).1
      ∙ info_members-member (text "min_amount") (number f.min) _ p₂ p₃
          (into_amounts f.min p₂ hmin).0
      ∙ info_members-member (text "pair") (string f.pair) _ p₃ p₄
          (into_texts f.pair f.invert_price p₃).0
      ∙ info_members-member (text "price_feed") (string f.price_feed) _ p₄ (info_of f)
          (into_texts f.price_feed f.invert_price p₄).1
      ∙ info_members-member (text "quote_decimals") (number_of f.quote_decimals) end (info_of f)
          (info_of f) (into_decimals _ (info_of f)).1
      ∙ info_members-end (info_of f))

-- The server reads the pair of the flags without their decimals.
pub decode_request-body_json :
    (f : PairFlags)
    → IsU64 f.min
    → IsU64 f.max
    → decode_request (body_json f) ≡ some (some (info_of f))
unfolding decode_request body_json request_members is_tag
decode_request-body_json f hmin hmax = rw (into_pointer-pair_json f hmin hmax, request_members)
