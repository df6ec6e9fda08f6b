-- ===== src/Orders/Fetches.antt =====
-- The fetches of orders in src/orders.c.
use hyperliquid_c.Prelude.{
  inl, inr, Bool, not, ◌&&◌, Option, none, some, ◌==◌, if◌then◌else◌, ◌>>=◌, length,
}
use hyperliquid_c.Prelude.Text.{CString, str}
use mathlib.Core.Logic.{inl, inr}
use hyperliquid_c.Types.{HlError, success, auth, json, memory, Doubles, CJson, is_success}
use hyperliquid_c.Orders.{
  OrdersApi, user_request, order_request, HlOrder, zero_order, Orders, no_orders, set_open,
  is_closed, is_canceled, kept_orders, combine_orders,
}
use hyperliquid_c.Orders.Parse.{parse_order_from_json, parse_orders, reply_json, reply_items}

module _ (d : Doubles) (j : CJson d) where
  unfoldable pub hl_fetch_open_orders : OrdersApi → HlError × Orders d
  hl_fetch_open_orders x = elim x.wallet_address [
    | none ↦ (auth, no_orders d)
    | some user ↦
        elim (reply_items d j
          (x.post (str "/info") (user_request (str "frontendOpenOrders") user))) [
            | inl e ↦ (e, no_orders d)
            | inr items ↦
                if length items == 0
                then (success, no_orders d)
                else if not x.calloc_parsed
                then (memory, no_orders d)
                else (let os = parse_orders d j (set_open d) (length items) items in
                    (success, record { orders = some os; count = length os }))
          ]
  ]

  -- The body that the three functions below share, with their tests of the status. `none` is a
  -- write out of bounds.
  unfoldable pub fetch_history : (HlOrder d → Bool) → OrdersApi → Option (HlError × Orders d)
  fetch_history p x = elim x.wallet_address [
    | none ↦ some (auth, no_orders d)
    | some user ↦
        elim (reply_items d j (x.post (str "/info") (user_request (str "historicalOrders") user))) [
          | inl e ↦ some (e, no_orders d)
          | inr items ↦
              if length items == 0
              then some (success, no_orders d)
              else if not x.calloc_parsed
              then some (memory, no_orders d)
              else kept_orders d x.calloc_kept p (parse_orders d j (λ o. o) (length items) items)
        ]
  ]

  unfoldable pub hl_fetch_closed_orders : OrdersApi → Option (HlError × Orders d)
  hl_fetch_closed_orders x = fetch_history (is_closed d) x

  unfoldable pub hl_fetch_canceled_orders : OrdersApi → Option (HlError × Orders d)
  hl_fetch_canceled_orders x = fetch_history (is_canceled d) x

  unfoldable pub hl_fetch_canceled_and_closed_orders : OrdersApi → Option (HlError × Orders d)
  hl_fetch_canceled_and_closed_orders x = fetch_history (is_closed d) x

  unfoldable pub hl_fetch_orders : Bool → OrdersApi → Option (HlError × Orders d)
  hl_fetch_orders calloc x = do
    let (open_err, open_orders) = hl_fetch_open_orders x
    (hist_err, historical_orders) ← hl_fetch_canceled_and_closed_orders x
    if not (is_success open_err) && not (is_success hist_err)
        then some (open_err, no_orders d)
        else combine_orders d calloc open_orders historical_orders

  unfoldable pub hl_fetch_order : OrdersApi → CString → HlError × HlOrder d
  hl_fetch_order x order_id = elim x.wallet_address [
    | none ↦ (auth, zero_order d)
    | some user ↦ elim (reply_json d j (x.post (str "/info") (order_request user order_id))) [
      | inl e ↦ (e, zero_order d)
      | inr n ↦
          if not (j.is_object n) then (json, zero_order d) else elim (parse_order_from_json d j n) [
            | none ↦ (json, zero_order d)
            | some o ↦ (success, o)
          ]
    ]
  ]
