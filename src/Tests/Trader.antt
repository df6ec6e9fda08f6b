-- ===== src/Tests/Trader.antt =====
-- The older trading module, src/trading.c, at concrete inputs.
use hyperliquid_c.Prelude.{
  ℕ, ◌≡◌, refl, Bool, true, false, ◌&&◌, ◌||◌, Option, none, some, List, [], ◌∷◌, ◌++◌, arith, ◌==◌,
  if◌then◌else◌, length, replicate,
}
use hyperliquid_c.Prelude.Text.{CString, str, str_eq, snprintf}
use hyperliquid_c.Types.{is_lv3_success, CJson, HttpResult, lv3_success}
use hyperliquid_c.Trader.Signing.{
  TraderApi, resting_oid, order_text, placed, inner_object, has_status_ok, sign_action,
  hyperliquid_place_limit_order,
}
use hyperliquid_c.Trader.Signing.Bodies.{IsSigned, IsAsset, hyperliquid_place_limit_order-success}
use hyperliquid_c.Trader.{
  trading_symbol, TraderData, trader_success, hyperliquid_make_request, usable_body, trim_quantity,
  strip_zeros, strip_dot,
}
use hyperliquid_c.Crypto.Eip712.{
  eip712_sign_agent, agent_digest, eip712_domain_hash, eip712_agent_struct_hash,
  eip712_signing_hash, domain_bytes, agent_bytes,
}
use hyperliquid_c.Prelude.Words.{be_bytes}
use hyperliquid_c.Crypto.Hex.{
  hex_to_bytes, strip_prefix, hex_loop, hex_digit, bytes_to_hex, hex_chars, hex_char,
}
use hyperliquid_c.Crypto.Keccak.{keccak256}
use hyperliquid_c.Crypto.Ecdsa.{
  ecdsa_sign_secp256k1, sign_bytes, find_recid, recid_matches, address_of,
}
use hyperliquid_c.Msgpack.{
  hl_build_action_hash, hash_input, vault_bytes, pack_action, pack_order_action, pack_orders,
  pack_order, pack_limit, put_str, put_bool, hl_build_order_hash,
}
use mathlib.Core.Path.{refl}
use hyperliquid_c.Orderbook.{Level, book_parts, parse_orderbook_level, text_real}
use hyperliquid_c.Trader.Price.{HasFieldlessArrays}
use hyperliquid_c.Trader.Quantity.{EndsOther, trim_quantity_lem}
use hyperliquid_c.Trader.Calls.{hyperliquid_execute_trade}
use hyperliquid_c.Trader.Calls.Unavailable.{hyperliquid_execute_trade-refused}
use hyperliquid_c.Tests.Instances.{reals, cjson, packer, sha, locals, secp}
use hyperliquid_c.Tests.Trading.{handles}

trimmed : trim_quantity (str "1.250000") ≡ str "1.25"
unfolding trim_quantity strip_zeros strip_dot
trimmed = refl

trimmed_whole : trim_quantity (str "100.000000") ≡ str "100"
unfolding trim_quantity strip_zeros strip_dot
trimmed_whole = refl

trim_quantity_lem_example :
    (kept : CString) × (k : ℕ) × (str "2500" ≡ kept ++ replicate k 48)
    × EndsOther kept
    × (trim_quantity (str "1.2500") ≡ (if length kept == 0 then str "1" else str "1" ++ 46 ∷ kept))
trim_quantity_lem_example = trim_quantity_lem (str "1") (str "2500") (omega arith) (omega arith)

-- Node 0 has the levels 1, the sides 2 and 3 and the level 4 with texts 5, and is an answer to an order
-- with the status 6, its response 7, the data 8, the statuses 9 and the first of them, 10, with the
-- resting order 11 and its id 12.
unfoldable trader_field : ℕ → CString → Option ℕ
trader_field n key =
    if n == 0 && str_eq key (str "levels")
    then some 1
    else if n == 4 && (str_eq key (str "px") || str_eq key (str "sz"))
    then some 5
    else if n == 0 && str_eq key (str "status")
    then some 6
    else if n == 0 && str_eq key (str "response")
    then some 7
    else if n == 7 && str_eq key (str "data")
    then some 8
    else if n == 8 && str_eq key (str "statuses")
    then some 9
    else if n == 10 && str_eq key (str "resting")
    then some 11
    else if n == 11 && str_eq key (str "oid")
    then some 12
    else none

unfoldable trader_array : ℕ → Bool
trader_array n = n == 1 || n == 2 || n == 3 || n == 9

unfoldable trader_items : ℕ → List ℕ
trader_items n =
    if n == 1
    then 2 ∷ 3 ∷ []
    else if n == 2 || n == 3
    then 4 ∷ []
    else if n == 9
    then 10 ∷ []
    else []

abbrev book_json : CJson reals
book_json = record cjson {
  parse_text = λ s. some 0;
  get_object_item = trader_field;
  is_string = λ n. n == 5 || n == 6;
  is_number = λ n. n == 12;
  is_array = trader_array;
  is_object = λ n. n == 7 || n == 8 || n == 10 || n == 11;
  valuestring = λ n. if n == 5 then some (str "9.5") else if n == 6 then some (str "ok") else none;
  items = trader_items;
}

trader_fieldless : (n : ℕ) (key : CString) → trader_array n ≡ true → trader_field n key ≡ none
unfolding trader_array trader_field
trader_fieldless n key h = ground arith

book_json-HasFieldlessArrays : HasFieldlessArrays reals book_json
book_json-HasFieldlessArrays = record { fieldless = trader_fieldless }

abbrev trader_post : CString → CString → HttpResult
trader_post url body = record { err = lv3_success; status_code = 200; body = some (str "{}") }

abbrev trader_api : TraderApi reals
trader_api = record {
  now = 9;
  allocated = true;
  print_tree = λ tree. some (str "{}");
  post = trader_post;
}

abbrev trader_data : TraderData
trader_data = record {
  wallet_address = str "0x00";
  private_key = elim handles.key [ none ↦ [] | some key ↦ key ];
  base_url = str "https://api.hyperliquid.xyz";
  testnet = false;
}

abbrev level : Level reals
level = record { price = reals.atof (str "9.5"); quantity = reals.atof (str "9.5") }

hyperliquid_execute_trade-refused_example :
    let (result, trade) =
      hyperliquid_execute_trade reals packer sha locals secp book_json trader_post trader_post
        trader_api trader_data
        (str "DOGEUSDT")
        (str "long")
        (reals.of_nat 100)
        (reals.of_nat 3) in
    (result ≡ trader_success)
    × (trade.executed ≡ false)
    × (trade.order_id ≡ [])
    × (trade.error ≡ str "Symbol not available on Hyperliquid")
unfolding usable_body hyperliquid_make_request book_parts parse_orderbook_level text_real
    trader_field trader_array trader_items str_eq is_lv3_success
hyperliquid_execute_trade-refused_example =
    hyperliquid_execute_trade-refused reals packer sha locals secp book_json trader_post trader_post
      trader_api trader_data (str "DOGEUSDT") (str "long") (str "{}") (reals.of_nat 100)
      (reals.of_nat 3) 0 2 3 4 level book_json-HasFieldlessArrays refl refl refl refl

abbrev btc : CString
btc = str "DOGEUSDT"

-- A symbol that is not known is traded as asset 3.
hyperliquid_place_limit_order-success_example :
    (asset : ℕ) × (body : CString) × IsAsset (trading_symbol btc) asset
    × IsSigned reals packer sha locals secp trader_api trader_data asset
        (str "Buy")
        (reals.of_nat 100)
        (reals.of_nat 2)
        body
    × ((text : CString) × (n : ℕ) × (id : CString) × (usable_body
            (hyperliquid_make_request trader_post trader_data (str "/exchange") body)
          ≡ some text)
        × (book_json.parse_text text ≡ some n)
        × (resting_oid reals book_json n ≡ some id)
        × ((hyperliquid_place_limit_order reals packer sha locals secp book_json trader_api
              trader_data btc
              (str "Buy")
              (reals.of_nat 100)
              (reals.of_nat 2)
              64).1
            ≡ snprintf 64 id))
unfolding hyperliquid_place_limit_order order_text sign_action placed resting_oid inner_object
    has_status_ok usable_body hyperliquid_make_request trader_field trader_array trader_items str_eq
    is_lv3_success eip712_sign_agent agent_digest eip712_domain_hash eip712_agent_struct_hash
    eip712_signing_hash domain_bytes agent_bytes keccak256 be_bytes ecdsa_sign_secp256k1 sign_bytes
    find_recid recid_matches address_of hex_to_bytes strip_prefix hex_loop hex_digit bytes_to_hex
    hex_chars hex_char hl_build_order_hash hl_build_action_hash hash_input vault_bytes pack_action
    pack_order_action pack_orders pack_order pack_limit put_str put_bool
hyperliquid_place_limit_order-success_example =
    hyperliquid_place_limit_order-success reals packer sha locals secp book_json trader_api
      trader_data btc (str "Buy") (reals.of_nat 100) (reals.of_nat 2) 64 refl
