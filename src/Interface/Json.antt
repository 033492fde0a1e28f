-- ===== src/Interface/Json.antt =====
-- encoding/json as internal/interface/grpc/server.go uses it: a JSON value decoded into a request
-- by the tags of the generated messages. Letters outside ASCII that fold to ASCII ones are not
-- matched with a tag here.
use mathlib.Core.Option
use bancod.Prelude.{
  ℕ, ◌+◌, ◌^◌, Bool, false, ◌&&◌, [], Option, none, some, ltb, leb, if◌then◌else◌, map, Bytes, text,
  bytes_equal,
}
use bancod.Interface.Handler.{PairInfo}

-- A number is an integer literal without a sign, or any other literal.
mutual
  pub data Json : Type 0 where
    null other_number : Json
    bool : Bool → Json
    number : ℕ → Json
    string : Bytes → Json
    array : Items → Json
    object : Members → Json

  pub data Items : Type 0 where
    nil : Items
    cons : Json → Items → Items

  pub data Members : Type 0 where
    end : Members
    member : Bytes → Json → Members → Members

-- A key names a tag if it is the tag up to the case of its letters.
abbrev pub lower : ℕ → ℕ
lower c = if leb b'A' c && leb c b'Z' then c + 32 else c

unfoldable pub is_tag : Bytes → Bytes → Bool
is_tag tag key = bytes_equal (map lower key) tag

-- A value put into a field: null leaves it, and a value of another type is an error.
unfoldable pub into_string : Json → Bytes → Option Bytes
into_string null old = some old
into_string (string s) old = some s
into_string j old = none

unfoldable pub into_u64 : Json → ℕ → Option ℕ
into_u64 null old = some old
into_u64 (number n) old = if ltb n (2 ^ 64) then some n else none
into_u64 j old = none

unfoldable pub into_bool : Json → Bool → Option Bool
into_bool null old = some old
into_bool (bool b) old = some b
into_bool j old = none

unfoldable pub empty_info : PairInfo
empty_info = record {
  pair = [];
  min_amount = 0;
  max_amount = 0;
  price_feed = [];
  invert_price = false;
}

-- A member of the object of a PairInfo; a key that names no field is ignored.
unfoldable pub into_info : Bytes → Json → PairInfo → Option PairInfo
into_info key j p =
    if is_tag (text "pair") key
    then Option.map (λ v. record p { pair = v }) (into_string j p.pair)
    else if is_tag (text "min_amount") key
    then Option.map (λ v. record p { min_amount = v }) (into_u64 j p.min_amount)
    else if is_tag (text "max_amount") key
    then Option.map (λ v. record p { max_amount = v }) (into_u64 j p.max_amount)
    else if is_tag (text "price_feed") key
    then Option.map (λ v. record p { price_feed = v }) (into_string j p.price_feed)
    else if is_tag (text "invert_price") key
    then Option.map (λ v. record p { invert_price = v }) (into_bool j p.invert_price)
    else some p

-- The members in order; the last one of a field counts, and one error makes Decode fail.
unfoldable pub info_members : Members → PairInfo → Option PairInfo
info_members end p = some p
info_members (member key j ms) p = elim (into_info key j p) [
  | none ↦ none
  | some q ↦ info_members ms q
]

-- A value for the pointer `Pair`: null makes it nil, and an object goes into the message that is
-- there, or into a new one.
unfoldable pub or_empty : Option PairInfo → PairInfo
or_empty none = empty_info
or_empty (some p) = p

unfoldable pub into_pointer : Json → Option PairInfo → Option (Option PairInfo)
into_pointer null old = some none
into_pointer (object ms) old = Option.map (λ p. some p) (info_members ms (or_empty old))
into_pointer j old = none

unfoldable pub request_members : Members → Option PairInfo → Option (Option PairInfo)
request_members end old = some old
request_members (member key j ms) old =
    elim (if is_tag (text "pair") key then into_pointer j old else some old) [
      | none ↦ none
      | some new ↦ request_members ms new
    ]

-- Decode of an AddPairRequest or an UpdatePairRequest, which have the one field `pair`.
unfoldable pub decode_request : Json → Option (Option PairInfo)
decode_request null = some none
decode_request (object ms) = request_members ms none
decode_request j = none
