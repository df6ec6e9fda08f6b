-- ===== src/Trader/Calls.antt =====
-- src/trading.c: executing a trade, the texts of the account, and creating a trader. The function
-- pointers of a trader are not modelled, and the messages that are logged are not either.
pub mod Unavailable
use hyperliquid_c.Prelude.{
  ℕ, zero, suc, ◌+◌, ◌-◌, ◌*◌, ◌/◌, ◌%◌, ◌^◌, ◌≤◌, ◌<◌, min, String, ◌≡◌, refl, sym, ap, ap₂, ◌∙◌,
  ◌≢◌, ◌↔◌, ◌⊎◌, inl, inr, Bool, true, false, not, ◌&&◌, ◌||◌, Option, none, some, List, [], ◌∷◌,
  ◌++◌, map, arith, ltb, leb, ◌==◌, if◌then◌else◌, ltb→lt, lt→ltb, leb→le, ==_iff, ==_refl,
  Bool-cases, Option-cases, Sum-cases, &&-eq-true, ◌>>=◌, ◌>>◌, guard, some-injective, >>=-eq-some,
  guard-eq-some, length, get_elem?, set, take, drop, replicate, length-append, length-set,
  length-take, length-drop, length-replicate, get_elem?-drop, get_elem?-lt, drop-head, All-append,
  All-map, All-get_elem?, take_all, take-append_le, take-append-drop, append_cancel, All,
}
use hyperliquid_c.Prelude.Text.{
  CString, str, str_eq, str_eq_refl, str_eq→eq, str_eq_iff, split_at_char, strncpy, c_str, snprintf,
}
use hyperliquid_c.Types.{
  HlError, success, auth, memory, network, json, api, parse, invalid_params, not_found, is_success,
  is_lv3_success, Doubles, CJson, HttpResult, Lv3Error, lv3_success,
}
use mathlib.Core.Logic.{◌⊎◌, inl, inr}
use hyperliquid_c.Crypto.Keccak.{Sha3}
use hyperliquid_c.Crypto.Ecdsa.{Secp256k1}
use hyperliquid_c.Crypto.Eip712.{Locals}
use hyperliquid_c.Msgpack.{Packer}
use hyperliquid_c.Trades.{copied}
use hyperliquid_c.Trader.{
  TraderData, TraderError, trader_success, trader_params, trader_network, trader_json,
  trader_exchange, trader_memory, trader_not_found, is_trader_success, trading_symbol, account_body,
  hyperliquid_make_request, usable_body, hyperliquid_get_market_price,
  hyperliquid_calculate_quantity,
}
use hyperliquid_c.Trader.Signing.{TraderApi, hyperliquid_place_limit_order}

-- The texts of the file's own `order_result_t`, whose buffers no header declares: they hold what is
-- written.
pub record TradeResult : Type 0 where
  pub executed : Bool
  pub symbol : CString
  pub side : CString
  pub quantity : CString
  pub order_id : CString
  pub message : CString
  pub error : CString

abbrev pub no_trade : TradeResult
no_trade = record {
  executed = false;
  symbol = [];
  side = [];
  quantity = [];
  order_id = [];
  message = [];
  error = [];
}

-- A text that fits the caller's buffer, or an error.
unfoldable pub copy_out : ℕ → CString → TraderError × CString
copy_out json_size text =
    if ltb (length text) json_size then (trader_success, text) else (trader_params, [])

module _ (d : Doubles) (j : CJson d) where
  -- Whether the account's answer is JSON.
  unfoldable pub hyperliquid_test_connection : (CString → CString → HttpResult) → TraderData → Bool
  hyperliquid_test_connection post t =
      elim (usable_body (hyperliquid_make_request post t (str "/info") (account_body t))
        >>= j.parse_text) [ none ↦ false | some n ↦ true ]

  unfoldable pub hyperliquid_get_balance :
      (CString → CString → HttpResult) → TraderData → ℕ → TraderError × CString
  hyperliquid_get_balance post t json_size =
      elim (usable_body (hyperliquid_make_request post t (str "/info") (account_body t))) [
        | none ↦ (trader_network, [])
        | some body ↦ copy_out json_size body
      ]

  unfoldable pub hyperliquid_get_positions :
      (CString → CString → HttpResult) → TraderData → ℕ → TraderError × CString
  hyperliquid_get_positions post t json_size =
      elim (usable_body (hyperliquid_make_request post t (str "/info") (account_body t))) [
        | none ↦ (trader_network, [])
        | some body ↦ elim (j.parse_text body) [
          | none ↦ (trader_json, [])
          | some n ↦ elim (j.get_object_item n (str "assetPositions")) [
            | none ↦ (trader_success, copied json_size (str "[]"))
            | some positions ↦ elim (j.print_unformatted positions) [
              | none ↦ (trader_params, [])
              | some text ↦ copy_out json_size text
            ]
          ]
        ]
      ]

  unfoldable pub hyperliquid_get_trade_history :
      (CString → CString → HttpResult) → TraderData → ℕ → TraderError × CString
  hyperliquid_get_trade_history post t json_size =
      elim (usable_body (
        hyperliquid_make_request post t (str "/info") (
          snprintf 512
            (str "{\"type\":\"userFills\",\"user\":\"" ++ t.wallet_address ++ str "\"}")))) [
              | none ↦ (trader_network, [])
              | some body ↦ copy_out json_size body
            ]

-- The allocations of the trader and of its data, and the HTTP client. An error of the client is
-- returned as it is.
unfoldable pub hyperliquid_trader_create :
    Bool → Bool → Lv3Error → CString → CString → Bool → (TraderError ⊎ Lv3Error) × Option TraderData
hyperliquid_trader_create trader_calloc data_calloc client wallet_address private_key testnet =
    if not trader_calloc
    then (inl trader_memory, none)
    else if not data_calloc
    then (inl trader_memory, none)
    else if not (is_lv3_success client)
    then (inr client, none)
    else (
      inl trader_success,
      some (record {
        wallet_address = copied 256 wallet_address;
        private_key = copied 256 private_key;
        base_url = copied 256 (
            if testnet
            then str "https://api.hyperliquid-testnet.xyz"
            else str "https://api.hyperliquid.xyz");
        testnet = testnet;
      }),
    )

module _ (d : Doubles) (pk : Packer) (sha : Sha3) (loc : Locals) (secp : Secp256k1) where
  -- The price is asked for twice, first by this call and then for the quantity: `post` is what the
  -- exchange answers the first time, `post_again` the second. Every end is LV3_SUCCESS.
  unfoldable pub hyperliquid_execute_trade :
      CJson d
      → (CString → CString → HttpResult)
      → (CString → CString → HttpResult)
      → TraderApi d
      → TraderData
      → CString
      → CString
      → d.Real
      → d.Real
      → TraderError × TradeResult
  hyperliquid_execute_trade j post post_again x t symbol direction usdt_amount leverage =
      let (found, price) = hyperliquid_get_market_price d j post t symbol in
      let long_trade = str_eq direction (str "long") in
      let side : CString = if long_trade then str "Buy" else str "Sell" in
      let quantity =
        hyperliquid_calculate_quantity d j post_again t symbol usdt_amount leverage 32 in
      let order_price =
        d.mul price (if long_trade then d.atof (str "1.01") else d.atof (str "0.99")) in
      if not (is_trader_success found) || d.less_equal price d.zero_real
      then (
        trader_success,
        record no_trade {
          error = str "Symbol not available on Hyperliquid";
          message =
              str "New listing "
              ++ trading_symbol symbol
              ++ str " not yet supported on Hyperliquid";
        },
      )
      else (let (result, order_id) =
            hyperliquid_place_limit_order d pk sha loc secp j x t symbol side order_price
              (d.atof quantity) 128 in
          if not (is_trader_success result)
          then (
            trader_success,
            record no_trade {
              error = str "Failed to place order";
              message = str "Trade execution failed";
            },
          )
          else (
            trader_success,
            record {
              executed = true;
              symbol = trading_symbol symbol;
              side = side;
              quantity = quantity;
              order_id = order_id;
              message = str "Order executed successfully";
              error = [];
            },
          ))
