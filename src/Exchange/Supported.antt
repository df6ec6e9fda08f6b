-- ===== src/Exchange/Supported.antt =====
-- Which features src/exchange.c says the exchange has.
use hyperliquid_c.Prelude.{
  ◌≡◌, refl, sym, inl, inr, Bool, true, false, not, ◌&&◌, ◌||◌, none, some, List, [], ◌∷◌, arith,
  if◌then◌else◌, Bool-cases, &&-eq-true,
}
use hyperliquid_c.Prelude.Text.{CString, str, str_eq, str_eq→eq}
use mathlib.Core.Path.{subst}
use hyperliquid_c.Exchange.{hl_exchange_describe}
use hyperliquid_c.Exchange.Features.{has_feature, hl_exchange_has}

-- One of the names.
unfoldable pub is_named : List CString → CString → Bool
is_named [] feature = false
is_named (n ∷ names) feature = str_eq feature n || is_named names feature

-- A chain of comparisons, with what each returns.
unfoldable chain : List (CString × Bool) → CString → Bool
chain [] feature = false
chain ((n, b) ∷ rest) feature = if str_eq feature n then b else chain rest feature

unfoldable trues : List (CString × Bool) → List CString
trues [] = []
trues ((n, true) ∷ rest) = n ∷ trues rest
trues ((n, false) ∷ rest) = trues rest

-- No name whose comparison returns false comes again with true.
unfoldable is_settled : List (CString × Bool) → Bool
is_settled [] = true
is_settled ((n, true) ∷ rest) = is_settled rest
is_settled ((n, false) ∷ rest) = not (is_named (trues rest) n) && is_settled rest

chain_lem :
    (table : List (CString × Bool)) (feature : CString)
    → is_settled table ≡ true
    → chain table feature ≡ is_named (trues table) feature
unfolding chain trues is_settled is_named
chain_lem [] feature h = refl
chain_lem ((n, true) ∷ rest) feature h =
    let later = chain_lem rest feature h in ground (arith, later)
chain_lem ((n, false) ∷ rest) feature h =
    let (fresh, settled) = &&-eq-true (not (is_named (trues rest) n)) (is_settled rest) h in
    let later = chain_lem rest feature settled in
    elim (Bool-cases (str_eq feature n)) [
      | inr other ↦ simp (chain, other) later
      | inl same ↦
          let e = str_eq→eq feature n same in
          let absent : is_named (trues rest) n ≡ false = ground (arith, fresh) in
          simp (chain, same) (subst (λ x. false ≡ is_named (trues rest) x) (sym e) (sym absent))
    ]

abbrev table : List (CString × Bool)
table =
    (str "spot", true)
    ∷ (str "swap", true)
    ∷ (str "future", true)
    ∷ (str "option", false)
    ∷ (str "create_order", true)
    ∷ (str "cancel_order", true)
    ∷ (str "edit_order", true)
    ∷ (str "create_orders", true)
    ∷ (str "cancel_orders", true)
    ∷ (str "edit_orders", true)
    ∷ (str "cancel_all_orders", false)
    ∷ (str "create_stop_order", true)
    ∷ (str "create_trigger_order", true)
    ∷ (str "create_reduce_only_order", true)
    ∷ (str "create_order_with_take_profit_and_stop_loss", true)
    ∷ (str "fetch_markets", true)
    ∷ (str "fetch_ticker", true)
    ∷ (str "fetch_tickers", true)
    ∷ (str "fetch_order_book", true)
    ∷ (str "fetch_ohlcv", true)
    ∷ (str "fetch_trades", true)
    ∷ (str "fetch_open_interest", true)
    ∷ (str "fetch_open_interests", true)
    ∷ (str "fetch_balance", true)
    ∷ (str "fetch_positions", true)
    ∷ (str "fetch_position", true)
    ∷ (str "fetch_my_trades", true)
    ∷ (str "fetch_open_orders", true)
    ∷ (str "fetch_closed_orders", true)
    ∷ (str "fetch_canceled_orders", true)
    ∷ (str "fetch_order", true)
    ∷ (str "fetch_orders", true)
    ∷ (str "fetch_trading_fee", true)
    ∷ (str "fetch_trading_fees", false)
    ∷ (str "fetch_trades", true)
    ∷ (str "fetch_tickers", true)
    ∷ (str "fetch_currencies", true)
    ∷ (str "set_leverage", true)
    ∷ (str "fetch_funding_rate", false)
    ∷ (str "fetch_funding_rates", true)
    ∷ (str "fetch_funding_history", true)
    ∷ (str "fetch_funding_rate_history", true)
    ∷ (str "fetch_deposits", true)
    ∷ (str "fetch_withdrawals", true)
    ∷ (str "fetch_ledger", true)
    ∷ (str "set_leverage", true)
    ∷ (str "add_margin", true)
    ∷ (str "reduce_margin", true)
    ∷ (str "transfer", true)
    ∷ (str "withdraw", true)
    ∷ (str "ws", true)
    ∷ (str "watch_ticker", true)
    ∷ (str "watch_tickers", true)
    ∷ (str "watch_order_book", true)
    ∷ (str "watch_ohlcv", true)
    ∷ (str "watch_trades", true)
    ∷ (str "watch_trades_for_symbols", false)
    ∷ (str "watch_orders", true)
    ∷ (str "watch_my_trades", true)
    ∷ (str "create_order_ws", true)
    ∷ (str "cancel_order_ws", true)
    ∷ (str "create_orders_ws", true)
    ∷ (str "edit_order_ws", true)
    ∷ []

abbrev pub supported : List CString
supported =
    str "spot"
    ∷ str "swap"
    ∷ str "future"
    ∷ str "create_order"
    ∷ str "cancel_order"
    ∷ str "edit_order"
    ∷ str "create_orders"
    ∷ str "cancel_orders"
    ∷ str "edit_orders"
    ∷ str "create_stop_order"
    ∷ str "create_trigger_order"
    ∷ str "create_reduce_only_order"
    ∷ str "create_order_with_take_profit_and_stop_loss"
    ∷ str "fetch_markets"
    ∷ str "fetch_ticker"
    ∷ str "fetch_tickers"
    ∷ str "fetch_order_book"
    ∷ str "fetch_ohlcv"
    ∷ str "fetch_trades"
    ∷ str "fetch_open_interest"
    ∷ str "fetch_open_interests"
    ∷ str "fetch_balance"
    ∷ str "fetch_positions"
    ∷ str "fetch_position"
    ∷ str "fetch_my_trades"
    ∷ str "fetch_open_orders"
    ∷ str "fetch_closed_orders"
    ∷ str "fetch_canceled_orders"
    ∷ str "fetch_order"
    ∷ str "fetch_orders"
    ∷ str "fetch_trading_fee"
    ∷ str "fetch_trades"
    ∷ str "fetch_tickers"
    ∷ str "fetch_currencies"
    ∷ str "set_leverage"
    ∷ str "fetch_funding_rates"
    ∷ str "fetch_funding_history"
    ∷ str "fetch_funding_rate_history"
    ∷ str "fetch_deposits"
    ∷ str "fetch_withdrawals"
    ∷ str "fetch_ledger"
    ∷ str "set_leverage"
    ∷ str "add_margin"
    ∷ str "reduce_margin"
    ∷ str "transfer"
    ∷ str "withdraw"
    ∷ str "ws"
    ∷ str "watch_ticker"
    ∷ str "watch_tickers"
    ∷ str "watch_order_book"
    ∷ str "watch_ohlcv"
    ∷ str "watch_trades"
    ∷ str "watch_orders"
    ∷ str "watch_my_trades"
    ∷ str "create_order_ws"
    ∷ str "cancel_order_ws"
    ∷ str "create_orders_ws"
    ∷ str "edit_order_ws"
    ∷ []

-- The exchange that src/exchange.c describes has a feature exactly if it is one of the named ones:
-- no name is refused first and accepted by a later comparison. Without a configuration or a name
-- there is no feature.
pub hl_exchange_has_iff :
    (feature : CString)
    → (hl_exchange_has (some hl_exchange_describe) (some feature) ≡ is_named supported feature)
      × (hl_exchange_has none (some feature) ≡ false)
      × (hl_exchange_has (some hl_exchange_describe) none ≡ false)
unfolding hl_exchange_has has_feature chain trues is_settled is_named str_eq
hl_exchange_has_iff feature = (chain_lem table feature refl, refl, refl)
