-- ===== src/Tests/Books.antt =====
-- Lookups, order books and the fetch of candles (src/markets.c, src/orderbook.c, src/ohlcv.c) at
-- concrete inputs.
use mathlib.Core.Path.{refl}
use mathlib.Core.Logic.{inr}
use hyperliquid_c.Prelude.{ℕ, ◌≡◌, refl, inr, true, none, some, [], ◌∷◌, if◌then◌else◌, get_elem?}
use hyperliquid_c.Prelude.Text.{str, str_eq, split_at_char}
use hyperliquid_c.Types.{success, lv3_success, is_success, is_lv3_success, pos, decimal}
use hyperliquid_c.Markets.{
  Market, swap, spot, is_swap, hl_get_asset_id, hl_get_market, find_swap, before_slash,
}
use hyperliquid_c.Markets.AssetIds.{coin_of}
use hyperliquid_c.Markets.Lookup.{Api, lookup, coin_text}
use hyperliquid_c.Markets.Lookup.Spots.{lookup_lem}
use hyperliquid_c.Orderbook.{
  Book, hl_fetch_order_book, hl_orderbook_get_spread, hl_orderbook_get_best_bid,
  hl_orderbook_get_best_ask, best_price,
}
use hyperliquid_c.Orderbook.Fetched.{IsWithin, hl_fetch_order_book-IsWithin}
use hyperliquid_c.Ohlcv.TimeFrames.{validate_timeframe, find_text}
use hyperliquid_c.Ohlcv.Fetch.{
  hl_fetch_ohlcv, candles_of, parse_candles, parse_ohlcv_candle, text_field, candle_count,
}
use hyperliquid_c.Ohlcv.Fetch.Bounds.{IsLimited, requested, hl_fetch_ohlcv-success}
use hyperliquid_c.Tests.Instances.{
  reals, cjson, added, negated, less, node_field, node_items, node_text,
}

abbrev purr_swap : Market reals
purr_swap = record {
  symbol = str "PURR/USDC:USDC";
  base = str "PURR";
  quote = str "USDC";
  settle = str "USDC";
  base_id = str "152";
  asset_id = 152;
  type = swap;
  active = true;
  amount_precision = 4;
  price_precision = 6;
  max_leverage = 50;
  min_cost = pos 10;
  mark_price = pos 0;
  oracle_price = pos 0;
  funding_rate = pos 0;
  day_volume = pos 0;
  open_interest = pos 0;
}

abbrev purr_spot : Market reals
purr_spot = record purr_swap {
  symbol = str "PURR/USDC";
  base_id = str "0";
  asset_id = 0;
  type = spot;
}

abbrev api_answers : Api reals
api_answers = record {
  markets = (success, purr_swap ∷ purr_spot ∷ []);
  http = true;
  testnet = true;
  now = 1700000000;
  calloc = true;
  post = λ url body. record { err = lv3_success; status_code = 200; body = some (str "[]") };
}

-- The spot market goes with the id of the swap market.
lookup_lem_example :
    (purr_spot.symbol ≡ str "PURR/USDC")
    × (coin_text reals (152, purr_spot)
        ≡ (if is_swap purr_spot.type then purr_spot.base else decimal 152))
    × ((i : ℕ) × (s : Market reals) × (get_elem? (purr_swap ∷ purr_spot ∷ []) i ≡ some s)
        × (is_swap s.type ≡ true)
        × (s.base ≡ coin_of (str "PURR/USDC"))
        × (s.asset_id ≡ 152))
unfolding lookup hl_get_asset_id hl_get_market find_swap before_slash split_at_char str_eq is_swap
lookup_lem_example =
    lookup_lem reals (purr_swap ∷ purr_spot ∷ []) (str "PURR/USDC") 152 purr_spot refl

abbrev book : Book reals
book = record {
  symbol = str "PURR/USDC";
  bids = some (
      record { price = pos 9; quantity = pos 4 } ∷ record { price = pos 8; quantity = pos 5 } ∷ []);
  asks = some (record { price = pos 11; quantity = pos 6 } ∷ []);
  timestamp_ms = 0;
}

spread : hl_orderbook_get_spread reals book ≡ pos 2
unfolding hl_orderbook_get_spread hl_orderbook_get_best_bid hl_orderbook_get_best_ask best_price
    added negated less
spread = refl

hl_fetch_order_book-IsWithin_example :
    IsWithin 1 (hl_fetch_order_book reals cjson 64 api_answers (str "PURR/USDC") 1).book.bids
    × IsWithin 1 (hl_fetch_order_book reals cjson 64 api_answers (str "PURR/USDC") 1).book.asks
hl_fetch_order_book-IsWithin_example =
    hl_fetch_order_book-IsWithin reals cjson 64 api_answers (str "PURR/USDC") 1

hl_fetch_ohlcv-success_example :
    (is_success (validate_timeframe (some (str "1h"))) ≡ true)
    × (is_success success ≡ true)
    × ((found : ℕ × Market reals) × (lookup reals (purr_swap ∷ purr_spot ∷ []) (str "PURR/USDC")
          ≡ inr found)
        × ((requested reals cjson api_answers (str "1h") none (some 1) none found).status_code
            ≡ 200))
    × IsLimited reals cjson 1
        (hl_fetch_ohlcv reals cjson api_answers
          (str "PURR/USDC")
          (str "1h")
          none
          (some 1)
          none).1.candles
unfolding hl_fetch_ohlcv candles_of parse_candles parse_ohlcv_candle text_field candle_count
    validate_timeframe find_text lookup hl_get_asset_id hl_get_market find_swap before_slash
    split_at_char str_eq is_swap is_success is_lv3_success node_field node_items node_text
hl_fetch_ohlcv-success_example =
    hl_fetch_ohlcv-success reals cjson api_answers (str "PURR/USDC") (str "1h") none none 1 refl
