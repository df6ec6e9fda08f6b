-- ===== src/Tests/Orders.antt =====
-- The queries and batches of src/orders.c at concrete inputs.
use hyperliquid_c.Tests.Trading.{handles, system, request, btc_request}
use hyperliquid_c.Orders.Batches.{
  batch, batch_loop, IsLastError, place, hl_create_orders, hl_cancel_orders, hl_create_orders_lem,
}
use hyperliquid_c.Prelude.{
  ℕ, ◌≡◌, refl, true, false, ◌&&◌, ◌||◌, Option, none, some, [], ◌∷◌, map, arith, leb, ◌==◌,
  if◌then◌else◌,
}
use hyperliquid_c.Prelude.Text.{CString, str, str_eq, strncpy, c_str}
use hyperliquid_c.Types.{HlError, success, network, is_success, is_lv3_success, CJson, lv3_success}
use mathlib.Core.Path.{refl}
use hyperliquid_c.Trading.{CancelResult}
use hyperliquid_c.Orders.{
  OrdersApi, Orders, listed, is_closed, is_canceled, set_open, count_kept, copy_kept, copy_orders,
  kept_orders, combine_orders,
}
use hyperliquid_c.Orders.Parse.{
  parse_orders, parse_order_from_json, order_status, reply_items, reply_json,
}
use hyperliquid_c.Orders.Fetches.{
  fetch_history, hl_fetch_open_orders, hl_fetch_orders, hl_fetch_canceled_and_closed_orders,
  hl_fetch_closed_orders, hl_fetch_canceled_orders,
}
use hyperliquid_c.Orders.Copies.{keep}
use hyperliquid_c.Orders.History.{IsCounted, history, hl_fetch_canceled_orders_lem}
use hyperliquid_c.Orders.Combined.{combined, hl_fetch_orders_lem}
use hyperliquid_c.Tests.Instances.{reals, cjson, packer, sha, locals, secp}

-- Node 0 is an array of an open order 1, a canceled order 2 and a filled order 3; 4 is no order. The
-- other fields are texts: 5 is the side, 6 and 7 are the statuses of 2 and 3.
unfoldable orders_field : ℕ → CString → Option ℕ
orders_field n key =
    if leb 1 n
      && leb n 3
      && (str_eq key (str "coin") || str_eq key (str "oid") || str_eq key (str "side"))
    then some 5
    else if n == 2 && str_eq key (str "status")
    then some 6
    else if n == 3 && str_eq key (str "status")
    then some 7
    else none

unfoldable orders_text : ℕ → Option CString
orders_text n =
    if n == 5
    then some (str "B")
    else if n == 6
    then some (str "canceled")
    else if n == 7
    then some (str "filled")
    else none

abbrev orders_json : CJson reals
orders_json = record cjson {
  parse_text = λ s. some 0;
  get_object_item = orders_field;
  is_string = λ n. leb 5 n;
  is_number = λ n. false;
  is_array = λ n. n == 0;
  valuestring = orders_text;
  items = λ n. if n == 0 then 1 ∷ 2 ∷ 4 ∷ 3 ∷ [] else [];
}

abbrev orders_api : OrdersApi
orders_api = record {
  wallet_address = some (str "0x00");
  calloc_parsed = true;
  calloc_kept = true;
  post = λ url body. (lv3_success, some (200, some (str "[]")));
}

-- Three open orders of the first query, and two of the history.
abbrev five : ℕ
five = 5

all_five :
    (elim (hl_fetch_orders reals orders_json true orders_api) [ none ↦ 0 | some r ↦ r.1.count ])
    ≡ five
unfolding hl_fetch_orders hl_fetch_open_orders hl_fetch_canceled_and_closed_orders fetch_history
    kept_orders combine_orders count_kept copy_kept copy_orders parse_orders parse_order_from_json
    order_status set_open reply_items reply_json is_closed orders_field orders_text str_eq
    is_lv3_success is_success strncpy c_str
all_five = refl

hl_fetch_canceled_orders_lem_example :
    (code : HlError) × (closed : Orders reals) × (canceled : Orders reals) × (hl_fetch_closed_orders
        reals orders_json orders_api
      ≡ some (code, closed))
    × (hl_fetch_canceled_and_closed_orders reals orders_json orders_api ≡ some (code, closed))
    × (hl_fetch_canceled_orders reals orders_json orders_api ≡ some (code, canceled))
    × (listed reals closed ≡ keep (is_closed reals) (history reals orders_json orders_api).1)
    × (listed reals canceled ≡ keep (is_canceled reals) (listed reals closed))
    × IsCounted reals closed
    × IsCounted reals canceled
hl_fetch_canceled_orders_lem_example =
    hl_fetch_canceled_orders_lem reals orders_json orders_api refl

hl_fetch_orders_lem_example :
    (r : HlError × Orders reals) × (hl_fetch_canceled_and_closed_orders reals orders_json orders_api
      ≡ some r)
    × (hl_fetch_orders reals orders_json true orders_api
        ≡ some (combined reals true (hl_fetch_open_orders reals orders_json orders_api) r))
hl_fetch_orders_lem_example = hl_fetch_orders_lem reals orders_json true orders_api refl

-- A cancellation fails where its number is 0.
abbrev cancelling : ℕ → HlError × CancelResult
cancelling n =
    if n == 0
    then (network, record { cancelled = false; error = [] })
    else (success, record { cancelled = true; error = [] })

abbrev cancel_code : HlError
cancel_code = network

middle_fails : (hl_cancel_orders cancelling (1 ∷ 0 ∷ 2 ∷ [])).0 ≡ cancel_code
unfolding hl_cancel_orders batch batch_loop is_success
middle_fails = refl

hl_create_orders_lem_example :
    ((hl_create_orders reals packer sha locals secp handles
        ((system, request) ∷ (system, btc_request) ∷ [])).1
      ≡ map
          (λ c. (place reals packer sha locals secp handles c).1)
          ((system, request) ∷ (system, btc_request) ∷ []))
    × IsLastError
        (place reals packer sha locals secp handles)
        (hl_create_orders reals packer sha locals secp handles
          ((system, request) ∷ (system, btc_request) ∷ [])).0
        ((system, request) ∷ (system, btc_request) ∷ [])
    × ((hl_cancel_orders cancelling (1 ∷ 0 ∷ 2 ∷ [])).1
        ≡ map (λ c. (cancelling c).1) (1 ∷ 0 ∷ 2 ∷ []))
    × IsLastError cancelling (hl_cancel_orders cancelling (1 ∷ 0 ∷ 2 ∷ [])).0 (1 ∷ 0 ∷ 2 ∷ [])
hl_create_orders_lem_example =
    hl_create_orders_lem reals packer sha locals secp cancelling handles
      ((system, request) ∷ (system, btc_request) ∷ []) (1 ∷ 0 ∷ 2 ∷ []) (omega arith) (omega arith)
