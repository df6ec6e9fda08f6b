-- ===== src/Tests/Trades.antt =====
-- The fetches of src/trades.c at concrete inputs.
use mathlib.Core.Path.{refl}
use hyperliquid_c.Prelude.{ℕ, ◌≡◌, refl, true, none, some, [], ◌∷◌, length}
use hyperliquid_c.Prelude.Text.{str, str_eq}
use hyperliquid_c.Types.{lv3_success, is_lv3_success, CJson}
use hyperliquid_c.Trades.{
  TradesApi, trades_of, parse_trades, parse_trade_from_json, hl_fetch_trades, hl_fetch_my_trades,
}
use hyperliquid_c.Trades.Fetched.{Each, IsNamed, IsTrade, hl_fetch_trades-All}
use hyperliquid_c.Tests.Instances.{reals, cjson, node_items, node_field, node_text}

-- Every text is an array of two trades.
abbrev trades_json : CJson reals
trades_json = record cjson { parse_text = λ s. some 11 }

abbrev trades_api : TradesApi
trades_api = record {
  wallet_address = some (str "0x00");
  calloc = true;
  post = λ url body. (lv3_success, some (200, some (str "[]")));
}

abbrev two : ℕ
two = 2

two_trades :
    (elim (hl_fetch_my_trades reals trades_json trades_api).1 [ none ↦ 0 | some ts ↦ length ts ])
    ≡ two
unfolding hl_fetch_my_trades trades_of parse_trades parse_trade_from_json is_lv3_success node_items
    node_field node_text str_eq
two_trades = refl

hl_fetch_trades-All_example :
    Each reals
      (IsNamed reals)
      (hl_fetch_trades reals trades_json trades_api (66 ∷ 84 ∷ 67 ∷ []) 5).1
    × Each reals (IsTrade reals) (hl_fetch_my_trades reals trades_json trades_api).1
hl_fetch_trades-All_example = hl_fetch_trades-All reals trades_json trades_api 65 (84 ∷ 67 ∷ []) 5
