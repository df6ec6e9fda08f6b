-- ===== src/Trader.antt =====
-- src/trading.c, the older trading module: prices and quantities. It uses LV3_ERROR_NOT_FOUND, an
-- `order_result_t` and forms of http_client_post and of the function pointers that the headers do not
-- declare; here its errors are a type of their own, and the HTTP client is the argument `post` with the
-- URL and the body.
pub mod Signing
pub mod Calls
pub mod Quantity
pub mod Price
use hyperliquid_c.Prelude.{
  ℕ, zero, suc, ◌+◌, ◌-◌, ◌*◌, ◌/◌, ◌%◌, ◌^◌, ◌≤◌, ◌<◌, min, String, ◌≡◌, refl, sym, ap, ap₂, ◌∙◌,
  ◌≢◌, ◌↔◌, ◌⊎◌, inl, inr, Bool, true, false, not, ◌&&◌, ◌||◌, Option, none, some, List, [], ◌∷◌,
  ◌++◌, map, arith, ltb, leb, ◌==◌, if◌then◌else◌, ltb→lt, lt→ltb, leb→le, ==_iff, ==_refl,
  Bool-cases, Option-cases, Sum-cases, &&-eq-true, ◌>>=◌, ◌>>◌, guard, some-injective, >>=-eq-some,
  guard-eq-some, length, get_elem?, set, take, drop, replicate, length-append, length-set,
  length-take, length-drop, length-replicate, get_elem?-drop, get_elem?-lt, drop-head, All-append,
  All-map, All-get_elem?, take_all, take-append_le, take-append-drop, append_cancel, All,
}
use hyperliquid_c.Prelude.Text.{
  CString, str, str_eq, str_eq_refl, str_eq→eq, str_eq_iff, split_at_char, strncpy, c_str, snprintf,
}
use hyperliquid_c.Types.{
  HlError, success, auth, memory, network, json, api, parse, invalid_params, not_found, is_success,
  is_lv3_success, Doubles, CJson, HttpResult, decimal, strstr, after_prefix,
}
use mathlib.Core.Logic.{◌⊎◌, inl, inr}
use hyperliquid_c.Trades.{copied}

-- The values of `lv3_error_t` that the file names.
pub data TraderError : Type 0 where
  trader_success : TraderError
  trader_params : TraderError
  trader_network : TraderError
  trader_json : TraderError
  trader_exchange : TraderError
  trader_memory : TraderError
  trader_not_found : TraderError

unfoldable pub is_trader_success : TraderError → Bool
is_trader_success trader_success = true
is_trader_success _ = false

-- `hyperliquid_data_t`, without the HTTP client.
pub record TraderData : Type 0 where
  pub wallet_address : CString
  pub private_key : CString
  pub base_url : CString
  pub testnet : Bool

-- The ids of the testnet; 3 for all other symbols.
unfoldable pub hardcoded_asset_id : CString → ℕ
hardcoded_asset_id symbol =
    if str_eq symbol (str "BTC")
    then 3
    else if str_eq symbol (str "ETH")
    then 2
    else if str_eq symbol (str "SOL")
    then 0
    else if str_eq symbol (str "APT")
    then 1
    else if str_eq symbol (str "ATOM")
    then 2
    else 3

-- The text before the first "USDT", or all of it.
unfoldable pub cut_usdt : CString → CString
cut_usdt s = elim (strstr s (str "USDT")) [
  | none ↦ s
  | some rest ↦ take (length s - length rest - 4) s
]

unfoldable pub trading_symbol : CString → CString
trading_symbol symbol = cut_usdt (copied 32 symbol)

-- The answer of `endpoint`.
unfoldable pub hyperliquid_make_request :
    (CString → CString → HttpResult) → TraderData → CString → CString → HttpResult
hyperliquid_make_request post t endpoint body = post (snprintf 256 (t.base_url ++ endpoint)) body

unfoldable pub account_body : TraderData → CString
account_body t =
    snprintf 512
      (str "{\"type\":\"clearinghouseState\",\"user\":\"" ++ t.wallet_address ++ str "\"}")

unfoldable pub price_body : CString → CString
price_body symbol =
    snprintf 256 (str "{\"type\":\"l2Book\",\"coin\":\"" ++ trading_symbol symbol ++ str "\"}")

-- The body of an answer that succeeded with status 200.
unfoldable pub usable_body : HttpResult → Option CString
usable_body r = if not (is_lv3_success r.err) || not (r.status_code == 200) then none else r.body

-- `while (end > start && *end == '0')`: `end` is the place of the last character, and each round
-- ends the text before it.
unfoldable pub strip_zeros : ℕ → CString → ℕ × CString
strip_zeros zero s = (zero, s)
strip_zeros (suc end) s =
    let shorter = strip_zeros end (take (suc end) s) in
    elim (get_elem? s (suc end)) [
      | none ↦ (suc end, s)
      | some c ↦ if c == 48 then shorter else (suc end, s)
    ]

-- `if (*end == '.') *end = '\0'`
unfoldable pub strip_dot : ℕ × CString → CString
strip_dot (end, s) = elim (get_elem? s end) [
  | none ↦ s
  | some c ↦ if c == 46 then take end s else s
]

unfoldable pub trim_quantity : CString → CString
trim_quantity s = strip_dot (strip_zeros (length s - 1) s)

module _ (d : Doubles) (j : CJson d) where
  -- The first item of the first side and of the second, where the answer is a book of arrays.
  unfoldable pub best_prices : j.Node → Option (CString × CString)
  best_prices n = do
    levels ← j.get_object_item n (str "levels")
    guard (j.is_array levels)
    guard (leb 2 (length (j.items levels)))
    bids ← get_elem? (j.items levels) 0
    asks ← get_elem? (j.items levels) 1
    guard (j.is_array bids)
    best_bid ← get_elem? (j.items bids) 0
    guard (j.is_array asks)
    best_ask ← get_elem? (j.items asks) 0
    guard (j.is_array best_bid)
    guard (j.is_array best_ask)
    bid_price ← get_elem? (j.items best_bid) 0
    ask_price ← get_elem? (j.items best_ask) 0
    guard (j.is_string bid_price)
    guard (j.is_string ask_price)
    bid ← j.valuestring bid_price
    ask ← j.valuestring ask_price
    some (bid, ask)

  -- The error and the price.
  unfoldable pub hyperliquid_get_market_price :
      (CString → CString → HttpResult) → TraderData → CString → TraderError × d.Real
  hyperliquid_get_market_price post t symbol =
      elim (usable_body (hyperliquid_make_request post t (str "/info") (price_body symbol))) [
        | none ↦ (trader_network, d.zero_real)
        | some body ↦ elim (j.parse_text body) [
          | none ↦ (trader_json, d.zero_real)
          | some n ↦ elim (best_prices n) [
            | none ↦ (trader_not_found, d.zero_real)
            | some (bid, ask) ↦
                (trader_success, d.divide (d.add (d.atof bid) (d.atof ask)) (d.of_nat 2))
          ]
        ]
      ]

  -- `leverage` is an `int` as a double.
  unfoldable pub hyperliquid_calculate_quantity :
      (CString → CString → HttpResult) → TraderData → CString → d.Real → d.Real → ℕ → CString
  hyperliquid_calculate_quantity post t symbol usdt_amount leverage quantity_size =
      let (result, price) = hyperliquid_get_market_price post t symbol in
      if not (is_trader_success result) || d.less_equal price d.zero_real
      then copied quantity_size (str "0.001")
      else trim_quantity
          (snprintf quantity_size (d.fixed 6 (d.divide (d.mul usdt_amount leverage) price)))
