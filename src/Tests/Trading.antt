-- ===== src/Tests/Trading.antt =====
-- Markets, orders, leverage and margin (src/markets.c, src/trading_api.c, src/leverage.c,
-- src/margin.c) at concrete inputs.
use hyperliquid_c.Prelude.{
  ℕ, ◌≡◌, refl, ◌≢◌, ◌⊎◌, inl, inr, true, false, none, some, List, [], ◌∷◌, ◌++◌, arith, get_elem?,
  replicate,
}
use hyperliquid_c.Prelude.Text.{CString, str, str_eq, split_at_char, strncpy, c_str, snprintf}
use hyperliquid_c.Types.{
  HlError, success, is_success, is_lv3_success, strstr, after_prefix, invalid_symbol, HttpResult,
  lv3_success, pos,
}
use mathlib.Core.Path.{refl}
use mathlib.Core.Logic.{◌⊎◌, inl, inr}
use hyperliquid_c.Crypto.Eip712.{
  eip712_sign_agent, agent_digest, eip712_domain_hash, eip712_agent_struct_hash,
  eip712_signing_hash, domain_bytes, agent_bytes,
}
use hyperliquid_c.Prelude.Words.{be_bytes}
use hyperliquid_c.Crypto.Hex.{
  hex_to_bytes, strip_prefix, hex_loop, hex_digit, bytes_to_hex, hex_chars, hex_char,
}
use hyperliquid_c.Crypto.Keccak.{keccak256}
use hyperliquid_c.Crypto.Ecdsa.{
  ecdsa_sign_secp256k1, sign_bytes, find_recid, recid_matches, address_of,
}
use hyperliquid_c.Msgpack.{
  hl_build_action_hash, hash_input, vault_bytes, pack_action, pack_order_action, pack_orders,
  pack_order, pack_limit, put_str, put_bool, pack_cancel_action, pack_cancels, hl_build_order_hash,
  hl_build_cancel_hash,
}
use hyperliquid_c.Markets.{Market, swap, hl_get_asset_id, find_swap, is_swap, before_slash}
use hyperliquid_c.Markets.Parse.{
  parse_spots, parse_spot_market, hl_fetch_markets, swap_content, name_of, fetch_swap_markets,
  fetch_spot_markets, check_response, parse_swaps, parse_swap_market, response_parts, universe_of,
  spot_content,
}
use hyperliquid_c.Markets.AssetIds.{hl_get_asset_id-IsItem, coin_of}
use hyperliquid_c.Trading.{
  Handles, OrderRequest, System, limit, gtc, ready_key, get_asset_id, is_unknown, prepare_order,
  prepare_cancel, hl_place_order, hl_cancel_order, exchange_url, order_answer, cancel_answer,
  sign_connection,
}
use hyperliquid_c.Trading.Texts.{cancel_request_text}
use hyperliquid_c.Trading.Signed.Cancels.{cancel_hash, prepare_cancel-signed}
use hyperliquid_c.Trading.Signed.{endpoint, IsRefused, IsSignature}
use hyperliquid_c.Markets.First.{IsListedFirst}
use hyperliquid_c.Trading.First.{hl_place_order-first}
use hyperliquid_c.Trading.Results.{hl_place_order-success}
use hyperliquid_c.Trading.Cancels.{hl_cancel_order-success}
use hyperliquid_c.Tests.Instances.{
  reals, cjson, sha, locals, secp, packer, node_field, node_items, node_text,
}

abbrev pub answer : HttpResult
answer = record { err = lv3_success; status_code = 200; body = some (str "[]") }

abbrev pub fetched : List (Market reals)
fetched = (hl_fetch_markets reals cjson true none (some answer) (some answer)).1

abbrev old_memory : ℕ → Market reals
old_memory k = record {
  symbol = [];
  base = [];
  quote = [];
  settle = [];
  base_id = [];
  asset_id = 0;
  type = swap;
  active = false;
  amount_precision = 0;
  price_precision = 0;
  max_leverage = 0;
  min_cost = pos 0;
  mark_price = pos 0;
  oracle_price = pos 0;
  funding_rate = pos 0;
  day_volume = pos 0;
  open_interest = pos 0;
}

hl_get_asset_id-IsItem_example :
    (universe : List ℕ) × (contexts : List ℕ) × (item : ℕ) × (name : CString) × (swap_content reals
        cjson
        (some answer)
      ≡ some (universe, contexts))
    × (get_elem? universe 1 ≡ some item)
    × (name_of reals cjson item ≡ some name)
    × (c_str (strncpy (replicate 32 0) name 31) ≡ coin_of (str "ETH/USDC:USDC"))
unfolding hl_get_asset_id find_swap is_swap hl_fetch_markets fetch_swap_markets fetch_spot_markets
    check_response parse_swaps parse_swap_market response_parts universe_of swap_content
    spot_content name_of is_lv3_success is_success node_field node_items node_text before_slash
    split_at_char str_eq parse_spots parse_spot_market c_str strncpy
hl_get_asset_id-IsItem_example =
    hl_get_asset_id-IsItem reals cjson true (some old_memory) (some answer) (some answer)
      (str "ETH/USDC:USDC") 1 refl

abbrev pub handles : Handles
handles = record {
  wallet = some (str "0x01");
  key = some (bytes_to_hex (replicate 32 7) true);
  testnet = true;
  http = true;
  mutex = true;
}

abbrev pub request : OrderRequest reals
request = record {
  symbol = str "ETH";
  buy = true;
  price = pos 100;
  quantity = pos 2;
  order_type = limit;
  time_in_force = gtc;
  reduce_only = false;
  slippage_bps = 0;
}

abbrev pub btc_request : OrderRequest reals
btc_request = record request { symbol = str "BTC" }

-- An exchange that lists ETH with id 1 and BTC with id 0, and answers with an order id.
abbrev pub system : System reals
system = record {
  markets = (
    success,
    record (old_memory 0) { base = str "BTC" }
        ∷ record (old_memory 0) { base = str "ETH"; asset_id = 1 }
        ∷ [],
  );
  now = 9;
  allocated = true;
  post = λ url body. record {
    err = lv3_success;
    status_code = 200;
    body = some (str "{\"status\":\"ok\",\"oid\":5}");
  };
}

prepare_cancel-signed_example :
    ((code : HlError) × (error : CString) × (prepare_cancel reals packer sha locals secp system
          handles
          (str "ETH")
          (str "77")
        ≡ inl (record { code = code; error = error }))
      × IsRefused reals packer sha locals secp handles
          (get_asset_id reals system (str "ETH"))
          (str "ETH")
          (cancel_hash reals packer sha locals secp system (str "ETH") (str "77"))
          code)
    ⊎ ((sig : List ℕ) × IsSignature reals packer sha locals secp handles
          (get_asset_id reals system (str "ETH"))
          (str "ETH")
          (cancel_hash reals packer sha locals secp system (str "ETH") (str "77"))
          sig
        × ((text : CString) × (prepare_cancel reals packer sha locals secp system handles
                (str "ETH")
                (str "77")
              ≡ inr text)
            × (hl_cancel_order reals packer sha locals secp system handles (str "ETH") (str "77")
                ≡ cancel_answer reals
                    (system.post (endpoint reals packer sha locals secp handles) text))
            × (text
                ≡ snprintf 2048
                    (cancel_request_text (get_asset_id reals system (str "ETH")) 2 9 sig))))
prepare_cancel-signed_example =
    prepare_cancel-signed reals packer sha locals secp system handles (str "ETH") (str "77")

hl_place_order-success_example :
    (body : CString) × (prepare_order reals packer sha locals secp system handles request
      ≡ inr body)
    × ((system.post (exchange_url true) body).err ≡ lv3_success)
    × (((id : CString) × ((hl_place_order reals packer sha locals secp system handles
              request).1.order_id
            ≡ some id)
          × ((system.post (exchange_url true) body).status_code ≡ 200))
        ⊎ (((hl_place_order reals packer sha locals secp system handles request).1.order_id ≡ none)
            × ((system.post (exchange_url true) body).status_code ≢ 200)))
unfolding hl_place_order order_answer strstr after_prefix is_lv3_success prepare_order ready_key
    get_asset_id is_unknown hl_get_asset_id find_swap before_slash split_at_char str_eq is_swap
    is_success sign_connection eip712_sign_agent agent_digest eip712_domain_hash
    eip712_agent_struct_hash eip712_signing_hash domain_bytes agent_bytes keccak256 be_bytes
    ecdsa_sign_secp256k1 sign_bytes find_recid recid_matches address_of hex_to_bytes strip_prefix
    hex_loop hex_digit bytes_to_hex hex_chars hex_char hl_build_order_hash hl_build_action_hash
    hash_input vault_bytes pack_action pack_order_action pack_orders pack_order pack_limit put_str
    put_bool
hl_place_order-success_example =
    hl_place_order-success reals packer sha locals secp system handles request refl

hl_cancel_order-success_example :
    (body : CString) × (prepare_cancel reals packer sha locals secp system handles
        (str "ETH")
        (str "77")
      ≡ inr body)
    × ((system.post (exchange_url true) body).err ≡ lv3_success)
    × ((((hl_cancel_order reals packer sha locals secp system handles
              (str "ETH")
              (str "77")).1.cancelled
            ≡ true)
          × ((system.post (exchange_url true) body).status_code ≡ 200))
        ⊎ (((hl_cancel_order reals packer sha locals secp system handles
                (str "ETH")
                (str "77")).1.cancelled
              ≡ false)
            × ((system.post (exchange_url true) body).status_code ≢ 200)))
unfolding hl_cancel_order cancel_answer strstr after_prefix is_lv3_success prepare_cancel ready_key
    get_asset_id is_unknown hl_get_asset_id find_swap before_slash split_at_char str_eq is_swap
    is_success sign_connection eip712_sign_agent agent_digest eip712_domain_hash
    eip712_agent_struct_hash eip712_signing_hash domain_bytes agent_bytes keccak256 be_bytes
    ecdsa_sign_secp256k1 sign_bytes find_recid recid_matches address_of hex_to_bytes strip_prefix
    hex_loop hex_digit bytes_to_hex hex_chars hex_char hl_build_cancel_hash hl_build_action_hash
    hash_input vault_bytes pack_action pack_cancel_action pack_cancels put_str
hl_cancel_order-success_example =
    hl_cancel_order-success reals packer sha locals secp system handles (str "ETH") (str "77") refl

-- The same exchange, with the markets that its answers give.
abbrev fetched_system : System reals
fetched_system = record system {
  markets = hl_fetch_markets reals cjson true (some old_memory) (some answer) (some answer);
}

btc_first : IsListedFirst reals cjson (some answer) (str "BTC")
unfolding swap_content response_parts universe_of name_of node_field node_items node_text str_eq
btc_first = record {
  item = 4;
  context = 8;
  items = 5 ∷ [];
  contexts = 8 ∷ [];
  content = refl;
  named = refl;
  text = omega arith;
  no_slash = omega arith;
  short = omega arith;
}

hl_place_order-first_example :
    (hl_get_asset_id reals fetched_system.markets.1 (snprintf 64 (str "BTC" ++ str "/USDC:USDC"))
      ≡ (success, some 0))
    × (prepare_order reals packer sha locals secp fetched_system handles btc_request
        ≡ inl (record {
          code = invalid_symbol;
          error = snprintf 256 (str "Unknown symbol: " ++ str "BTC");
        }))
    × ((hl_place_order reals packer sha locals secp fetched_system handles btc_request).0
        ≡ invalid_symbol)
    × ((hl_place_order reals packer sha locals secp fetched_system handles btc_request).1.order_id
        ≡ none)
unfolding ready_key str_eq is_success hl_fetch_markets fetch_swap_markets fetch_spot_markets
    check_response swap_content spot_content response_parts universe_of is_lv3_success node_field
    node_items node_text
hl_place_order-first_example =
    hl_place_order-first reals cjson packer sha locals secp fetched_system handles btc_request
      (bytes_to_hex (replicate 32 7) true) true (some old_memory) (some answer) (some answer) refl
      refl refl btc_first refl
