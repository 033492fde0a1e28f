-- ===== src/Application/Pairs/Tests.antt =====
-- Requests served from an empty table on.
use bancod.Prelude.{◌≡◌, false, refl, List, [], ◌∷◌, Option, none, some, Bytes, text, All, arith}
use bancod.Examples.{TestAsset, TestKey, lib, btc_offer, silver}
use bancod.Banco.Pair.{Pair}
use bancod.Banco.Offer.{FundedOffer}
use bancod.Banco.Plugin.{find_matching_pair}
use bancod.Database.Pairs.{list}
use bancod.Application.Pairs.{
  AssetAnswer, found, Command, add_command, update_command, remove_command, run_commands,
}
use bancod.Application.Pairs.Valid.{IsValid}
use bancod.Application.Pairs.Spec.{view, spec_commands}
use bancod.Application.Pairs.Refines.{run_commands-refines}
use bancod.Application.Pairs.Stored.{IsCommand, run_commands-IsValid, run_commands-want_btc}

abbrev silver_btc : Pair
silver_btc = record {
  pair = text "silver/BTC";
  min_amount = 1;
  max_amount = 1000;
  base_decimals = 0;
  quote_decimals = 0;
  price_feed = text "feed";
  invert_price = false;
}

-- Every asset has two decimals.
abbrev indexer : Option (Bytes → AssetAnswer)
indexer = some (λ id. found (record { key = text "decimals"; value = text "2" } ∷ []))

abbrev requests : List Command
requests =
    add_command indexer silver_btc
    ∷ update_command indexer (record silver_btc { max_amount = 2000 })
    ∷ remove_command (text "gold/BTC")
    ∷ []

requests-IsCommand : All IsCommand requests
requests-IsCommand = (
  record { min_amount = omega arith; max_amount = omega arith },
  (record { min_amount = omega arith; max_amount = omega arith }, (tt, tt)),
)

run_commands-IsValid_example : All IsValid (list (run_commands requests []))
run_commands-IsValid_example = run_commands-IsValid requests requests-IsCommand

-- Silver, deposited for 700 sats.
abbrev funded : FundedOffer TestAsset TestKey
funded = record {
  offer = btc_offer;
  funding_txid = text "fund";
  deposit_asset = some silver;
  deposit_amount = 40;
}

run_commands-want_btc_example :
    find_matching_pair lib (list (run_commands requests [])) funded ≡ none
run_commands-want_btc_example = run_commands-want_btc lib requests funded requests-IsCommand refl

-- The pair that the offer names is stored all the same.
stored :
    list (run_commands (add_command indexer silver_btc ∷ []) [])
    ≡ record silver_btc { base_decimals = 2; quote_decimals = 8 } ∷ []
unfolding run_commands list bancod.Application.Pairs.run_command bancod.Application.Pairs.kept
    bancod.Application.Pairs.add_pair bancod.Application.Pairs.resolve_decimals
    bancod.Application.Pairs.asset_decimals bancod.Application.Pairs.answer_decimals
    bancod.Application.Pairs.find_decimals bancod.Application.Pairs.decimals_of
    bancod.Prelude.Numerals.atoi bancod.Prelude.Numerals.signed bancod.Prelude.Numerals.parse_number
    bancod.Prelude.Numerals.parse_digits bancod.Prelude.Numerals.in_range
    bancod.Application.Pairs.validate_pair bancod.Database.Pairs.add
    bancod.Database.Pairs.insert_pair bancod.Database.Pairs.has_row bancod.Database.Pairs.to_row
    bancod.Database.Pairs.to_domain_pair bancod.Database.Pairs.int_to_bool
    bancod.Database.Pairs.bool_to_int bancod.Banco.Pair.split_pair bancod.Banco.Pair.split_n2
stored = refl

run_commands-refines_example : view (run_commands requests []) ≡ spec_commands requests (view [])
run_commands-refines_example = run_commands-refines requests [] requests-IsCommand
