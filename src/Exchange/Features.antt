-- ===== src/Exchange/Features.antt =====
-- The question for a feature in src/exchange.c.
use hyperliquid_c.Prelude.{Bool, false, Option, none, some, if◌then◌else◌}
use hyperliquid_c.Prelude.Text.{CString, str, str_eq}
use hyperliquid_c.Exchange.{Capabilities, ExchangeConfig}

-- The chain of comparisons; the names that it has twice are met the first time.
unfoldable pub has_feature : Capabilities → CString → Bool
has_feature has feature =
    if str_eq feature (str "spot")
    then has.spot
    else if str_eq feature (str "swap")
    then has.swap
    else if str_eq feature (str "future")
    then has.future
    else if str_eq feature (str "option")
    then has.option
    else if str_eq feature (str "create_order")
    then has.create_order
    else if str_eq feature (str "cancel_order")
    then has.cancel_order
    else if str_eq feature (str "edit_order")
    then has.edit_order
    else if str_eq feature (str "create_orders")
    then has.create_orders
    else if str_eq feature (str "cancel_orders")
    then has.cancel_orders
    else if str_eq feature (str "edit_orders")
    then has.edit_orders
    else if str_eq feature (str "cancel_all_orders")
    then has.cancel_all_orders
    else if str_eq feature (str "create_stop_order")
    then has.create_stop_order
    else if str_eq feature (str "create_trigger_order")
    then has.create_trigger_order
    else if str_eq feature (str "create_reduce_only_order")
    then has.create_reduce_only_order
    else if str_eq feature (str "create_order_with_take_profit_and_stop_loss")
    then has.create_order_with_take_profit_and_stop_loss
    else if str_eq feature (str "fetch_markets")
    then has.fetch_markets
    else if str_eq feature (str "fetch_ticker")
    then has.fetch_ticker
    else if str_eq feature (str "fetch_tickers")
    then has.fetch_tickers
    else if str_eq feature (str "fetch_order_book")
    then has.fetch_order_book
    else if str_eq feature (str "fetch_ohlcv")
    then has.fetch_ohlcv
    else if str_eq feature (str "fetch_trades")
    then has.fetch_trades
    else if str_eq feature (str "fetch_open_interest")
    then has.fetch_open_interest
    else if str_eq feature (str "fetch_open_interests")
    then has.fetch_open_interests
    else if str_eq feature (str "fetch_balance")
    then has.fetch_balance
    else if str_eq feature (str "fetch_positions")
    then has.fetch_positions
    else if str_eq feature (str "fetch_position")
    then has.fetch_position
    else if str_eq feature (str "fetch_my_trades")
    then has.fetch_my_trades
    else if str_eq feature (str "fetch_open_orders")
    then has.fetch_open_orders
    else if str_eq feature (str "fetch_closed_orders")
    then has.fetch_closed_orders
    else if str_eq feature (str "fetch_canceled_orders")
    then has.fetch_canceled_orders
    else if str_eq feature (str "fetch_order")
    then has.fetch_order
    else if str_eq feature (str "fetch_orders")
    then has.fetch_orders
    else if str_eq feature (str "fetch_trading_fee")
    then has.fetch_trading_fee
    else if str_eq feature (str "fetch_trading_fees")
    then has.fetch_trading_fees
    else if str_eq feature (str "fetch_trades")
    then has.fetch_trades
    else if str_eq feature (str "fetch_tickers")
    then has.fetch_tickers
    else if str_eq feature (str "fetch_currencies")
    then has.fetch_currencies
    else if str_eq feature (str "set_leverage")
    then has.set_leverage
    else if str_eq feature (str "fetch_funding_rate")
    then has.fetch_funding_rate
    else if str_eq feature (str "fetch_funding_rates")
    then has.fetch_funding_rates
    else if str_eq feature (str "fetch_funding_history")
    then has.fetch_funding_history
    else if str_eq feature (str "fetch_funding_rate_history")
    then has.fetch_funding_rate_history
    else if str_eq feature (str "fetch_deposits")
    then has.fetch_deposits
    else if str_eq feature (str "fetch_withdrawals")
    then has.fetch_withdrawals
    else if str_eq feature (str "fetch_ledger")
    then has.fetch_ledger
    else if str_eq feature (str "set_leverage")
    then has.set_leverage
    else if str_eq feature (str "add_margin")
    then has.add_margin
    else if str_eq feature (str "reduce_margin")
    then has.reduce_margin
    else if str_eq feature (str "transfer")
    then has.transfer
    else if str_eq feature (str "withdraw")
    then has.withdraw
    else if str_eq feature (str "ws")
    then has.ws
    else if str_eq feature (str "watch_ticker")
    then has.watch_ticker
    else if str_eq feature (str "watch_tickers")
    then has.watch_tickers
    else if str_eq feature (str "watch_order_book")
    then has.watch_order_book
    else if str_eq feature (str "watch_ohlcv")
    then has.watch_ohlcv
    else if str_eq feature (str "watch_trades")
    then has.watch_trades
    else if str_eq feature (str "watch_trades_for_symbols")
    then has.watch_trades_for_symbols
    else if str_eq feature (str "watch_orders")
    then has.watch_orders
    else if str_eq feature (str "watch_my_trades")
    then has.watch_my_trades
    else if str_eq feature (str "create_order_ws")
    then has.create_order_ws
    else if str_eq feature (str "cancel_order_ws")
    then has.cancel_order_ws
    else if str_eq feature (str "create_orders_ws")
    then has.create_orders_ws
    else if str_eq feature (str "edit_order_ws")
    then has.edit_order_ws
    else false

unfoldable pub hl_exchange_has : Option ExchangeConfig → Option CString → Bool
hl_exchange_has none feature = false
hl_exchange_has (some config) none = false
hl_exchange_has (some config) (some feature) = has_feature config.has feature
