-- ===== src/Trader/Calls/Unavailable.antt =====
-- Trades of src/trading.c on the books that src/orderbook.c reads.
use hyperliquid_c.Prelude.{◌≡◌, refl, false, some, [], get_elem?}
use hyperliquid_c.Prelude.Text.{CString, str}
use hyperliquid_c.Types.{Doubles, CJson, HttpResult}
use hyperliquid_c.Crypto.Keccak.{Sha3}
use hyperliquid_c.Crypto.Ecdsa.{Secp256k1}
use hyperliquid_c.Crypto.Eip712.{Locals}
use hyperliquid_c.Msgpack.{Packer}
use hyperliquid_c.Orderbook.{Level, book_parts, parse_orderbook_level}
use hyperliquid_c.Trader.{
  TraderData, trader_success, is_trader_success, price_body, hyperliquid_make_request, usable_body,
}
use hyperliquid_c.Trader.Price.{HasFieldlessArrays, hyperliquid_get_market_price-refused}
use hyperliquid_c.Trader.Signing.{TraderApi}
use hyperliquid_c.Trader.Calls.{hyperliquid_execute_trade}

module _ (d : Doubles) (pk : Packer) (sha : Sha3) (loc : Locals) (secp : Secp256k1)
    (j : CJson d) where
  -- Where the exchange answers with a book whose best bid src/orderbook.c reads, src/trading.c
  -- executes no trade: it returns LV3_SUCCESS and the text that the symbol is not available. For
  -- it wants levels that are arrays, and the other wants levels that have fields.
  pub hyperliquid_execute_trade-refused :
      (post post_again : CString → CString → HttpResult) (x : TraderApi d) (t : TraderData)
      (symbol direction text : CString) (usdt_amount leverage : d.Real) (n bids asks best : j.Node)
      (l : Level d)
      → HasFieldlessArrays d j
      → usable_body (hyperliquid_make_request post t (str "/info") (price_body symbol)) ≡ some text
      → book_parts d j (some text) ≡ some (n, bids, asks)
      → get_elem? (j.items bids) 0 ≡ some best
      → parse_orderbook_level d j best ≡ some l
      → let (result, trade) =
          hyperliquid_execute_trade d pk sha loc secp j post post_again x t symbol direction
            usdt_amount leverage in
        (result ≡ trader_success)
        × (trade.executed ≡ false)
        × (trade.order_id ≡ [])
        × (trade.error ≡ str "Symbol not available on Hyperliquid")
  unfolding hyperliquid_execute_trade is_trader_success
  hyperliquid_execute_trade-refused post post_again x t symbol direction text usdt_amount leverage n
        bids asks best l a u b f p =
      let e =
        hyperliquid_get_market_price-refused d j post t symbol text n bids asks best l a u b f p in
      simp (hyperliquid_execute_trade, e) (refl, refl, refl, refl)
