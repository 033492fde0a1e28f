-- ===== src/Cli/Tests.antt =====
-- The commands on the pair silver/gold.
use bancod.Prelude.{
  ◌≡◌, ◌↔◌, refl, false, [], ◌∷◌, Option, none, some, Bytes, text, ok, pos, negsuc, arith,
}
use bancod.Banco.Pair.{Pair}
use bancod.Database.Pairs.{BancoPair, has_row}
use bancod.Application.Pairs.{found, resolve_decimals, validate_pair}
use bancod.Interface.Handler.{proto_to_domain, handle_add_pair}
use bancod.Interface.Json.{Json}
use bancod.Interface.Gateway.{Backend, commit, serve}
use bancod.Cli.{PairFlags, pair_add, pair_update, body_json, request}
use bancod.Cli.Body.{info_of}
use bancod.Cli.Effects.{serve-pair_add, serve-pair_update_missing_iff}

abbrev flags : PairFlags
flags = record {
  pair = text "silver/gold";
  min = 1;
  max = 9;
  base_decimals = pos 8;
  quote_decimals = negsuc 0;
  price_feed = text "feed";
  invert_price = false;
}

-- A JSON library that writes and reads this body alone.
abbrev marshal : Json → Bytes
marshal j = text "body"

abbrev first_value : Bytes → Option Json
first_value s = some (body_json flags)

-- Every asset has two decimals.
abbrev backend : Backend
backend = record {
  indexer = some (λ id. found (record { key = text "decimals"; value = text "2" } ∷ []));
  wallet = none;
  new_offchain = none;
  new_boarding = none;
  trades = none;
  running = false;
  page_code = λ path. 200;
}

serve-pair_add_example :
    serve first_value backend (request marshal (pair_add flags)) []
    ≡ commit [] (handle_add_pair backend.indexer (some (info_of flags)) [])
serve-pair_add_example =
    serve-pair_add marshal first_value backend flags [] (omega arith) (omega arith) refl

serve-pair_update_missing_iff_example :
    ((serve first_value backend (request marshal (pair_update flags)) []).0.code ≡ 404) ↔ (
      (q : Pair) × (resolve_decimals backend.indexer (proto_to_domain (info_of flags)) ≡ ok q)
      × (validate_pair q ≡ ok tt)
      × (has_row flags.pair [] ≡ false))
serve-pair_update_missing_iff_example =
    serve-pair_update_missing_iff marshal first_value backend flags [] (omega arith) (omega arith)
      refl

abbrev stored : BancoPair
stored = record {
  pair = text "silver/gold";
  min_amount = pos 1;
  max_amount = pos 9;
  base_decimals = pos 2;
  quote_decimals = pos 2;
  price_feed = text "feed";
  invert_price = pos 0;
}
