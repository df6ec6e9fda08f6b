-- ===== src/Exchange.antt =====
-- src/exchange.c with the structs of include/hl_exchange.h. The URLs and the endpoints, which are only
-- texts, are left out of the configuration.
pub mod Features
pub mod Supported
use hyperliquid_c.Prelude.{
  ℕ, zero, suc, ◌+◌, ◌-◌, ◌*◌, ◌/◌, ◌%◌, ◌^◌, ◌≤◌, ◌<◌, min, String, ◌≡◌, refl, sym, ap, ap₂, ◌∙◌,
  ◌≢◌, ◌↔◌, ◌⊎◌, inl, inr, Bool, true, false, not, ◌&&◌, ◌||◌, Option, none, some, List, [], ◌∷◌,
  ◌++◌, map, arith, ltb, leb, ◌==◌, if◌then◌else◌, ltb→lt, lt→ltb, leb→le, ==_iff, ==_refl,
  Bool-cases, Option-cases, Sum-cases, &&-eq-true, ◌>>=◌, ◌>>◌, guard, some-injective, >>=-eq-some,
  guard-eq-some, length, get_elem?, set, take, drop, replicate, length-append, length-set,
  length-take, length-drop, length-replicate, get_elem?-drop, get_elem?-lt, drop-head, All-append,
  All-map, All-get_elem?, take_all, take-append_le, take-append-drop, append_cancel, All,
}
use hyperliquid_c.Prelude.Text.{
  CString, str, str_eq, str_eq_refl, str_eq→eq, str_eq_iff, split_at_char, strncpy, c_str, snprintf,
}

-- `hl_capabilities_t`
pub record Capabilities : Type 0 where
  pub spot : Bool
  pub swap : Bool
  pub future : Bool
  pub option : Bool
  pub create_order : Bool
  pub cancel_order : Bool
  pub edit_order : Bool
  pub create_orders : Bool
  pub cancel_orders : Bool
  pub edit_orders : Bool
  pub cancel_all_orders : Bool
  pub create_market_buy_order_with_cost : Bool
  pub create_market_order_with_cost : Bool
  pub create_market_sell_order_with_cost : Bool
  pub create_stop_order : Bool
  pub create_trigger_order : Bool
  pub create_reduce_only_order : Bool
  pub create_order_with_take_profit_and_stop_loss : Bool
  pub fetch_markets : Bool
  pub fetch_ticker : Bool
  pub fetch_tickers : Bool
  pub fetch_order_book : Bool
  pub fetch_ohlcv : Bool
  pub fetch_trades : Bool
  pub fetch_open_interest : Bool
  pub fetch_open_interests : Bool
  pub fetch_balance : Bool
  pub fetch_positions : Bool
  pub fetch_position : Bool
  pub fetch_my_trades : Bool
  pub fetch_open_orders : Bool
  pub fetch_closed_orders : Bool
  pub fetch_canceled_orders : Bool
  pub fetch_order : Bool
  pub fetch_orders : Bool
  pub fetch_trading_fee : Bool
  pub fetch_trading_fees : Bool
  pub fetch_funding_rate : Bool
  pub fetch_funding_rates : Bool
  pub fetch_funding_history : Bool
  pub fetch_funding_rate_history : Bool
  pub fetch_deposits : Bool
  pub fetch_withdrawals : Bool
  pub fetch_ledger : Bool
  pub fetch_currencies : Bool
  pub set_leverage : Bool
  pub add_margin : Bool
  pub reduce_margin : Bool
  pub transfer : Bool
  pub withdraw : Bool
  pub ws : Bool
  pub watch_ticker : Bool
  pub watch_tickers : Bool
  pub watch_order_book : Bool
  pub watch_ohlcv : Bool
  pub watch_trades : Bool
  pub watch_trades_for_symbols : Bool
  pub watch_orders : Bool
  pub watch_my_trades : Bool
  pub create_order_ws : Bool
  pub cancel_order_ws : Bool
  pub create_orders_ws : Bool
  pub edit_order_ws : Bool

-- `hl_exchange_config_t`; the time frames are the texts of `hl_timeframes_t`, in order.
pub record ExchangeConfig : Type 0 where
  pub id : CString
  pub name : CString
  pub version : CString
  pub rate_limit : ℕ
  pub certified : Bool
  pub pro : Bool
  pub dex : Bool
  pub has : Capabilities
  pub timeframes : List CString

abbrev pub hl_capabilities : Capabilities
hl_capabilities = record {
  spot = true;
  swap = true;
  future = true;
  option = false;
  create_order = true;
  cancel_order = true;
  edit_order = true;
  create_orders = true;
  cancel_orders = true;
  edit_orders = true;
  cancel_all_orders = false;
  create_market_buy_order_with_cost = false;
  create_market_order_with_cost = false;
  create_market_sell_order_with_cost = false;
  create_stop_order = true;
  create_trigger_order = true;
  create_reduce_only_order = true;
  create_order_with_take_profit_and_stop_loss = true;
  fetch_markets = true;
  fetch_ticker = true;
  fetch_tickers = true;
  fetch_order_book = true;
  fetch_ohlcv = true;
  fetch_trades = true;
  fetch_open_interest = true;
  fetch_open_interests = true;
  fetch_balance = true;
  fetch_positions = true;
  fetch_position = true;
  fetch_my_trades = true;
  fetch_open_orders = true;
  fetch_closed_orders = true;
  fetch_canceled_orders = true;
  fetch_order = true;
  fetch_orders = true;
  fetch_trading_fee = true;
  fetch_trading_fees = false;
  fetch_funding_rate = false;
  fetch_funding_rates = true;
  fetch_funding_history = true;
  fetch_funding_rate_history = true;
  fetch_deposits = true;
  fetch_withdrawals = true;
  fetch_ledger = true;
  fetch_currencies = true;
  set_leverage = true;
  add_margin = true;
  reduce_margin = true;
  transfer = true;
  withdraw = true;
  ws = true;
  watch_ticker = true;
  watch_tickers = true;
  watch_order_book = true;
  watch_ohlcv = true;
  watch_trades = true;
  watch_trades_for_symbols = false;
  watch_orders = true;
  watch_my_trades = true;
  create_order_ws = true;
  cancel_order_ws = true;
  create_orders_ws = true;
  edit_order_ws = true;
}

abbrev pub hl_exchange_describe : ExchangeConfig
hl_exchange_describe = record {
  id = str "hyperliquid";
  name = str "Hyperliquid";
  version = str "v1";
  rate_limit = 50;
  certified = true;
  pro = true;
  dex = true;
  has = hl_capabilities;
  timeframes =
      str "1m"
      ∷ str "3m"
      ∷ str "5m"
      ∷ str "15m"
      ∷ str "30m"
      ∷ str "1h"
      ∷ str "2h"
      ∷ str "4h"
      ∷ str "8h"
      ∷ str "12h"
      ∷ str "1d"
      ∷ str "3d"
      ∷ str "1w"
      ∷ str "1M"
      ∷ [];
}

unfoldable pub hl_exchange_capabilities : Option ExchangeConfig → Option Capabilities
hl_exchange_capabilities none = none
hl_exchange_capabilities (some config) = some config.has

unfoldable pub hl_exchange_timeframes : Option ExchangeConfig → Option (List CString)
hl_exchange_timeframes none = none
hl_exchange_timeframes (some config) = some config.timeframes
