-- ===== src/Orders/Parse.antt =====
-- The JSON of src/orders.c: an order, and the answers of the server.
use hyperliquid_c.Prelude.{
  ℕ, zero, suc, ◌⊎◌, inl, inr, not, ◌||◌, Option, none, some, List, [], ◌∷◌, ◌==◌, if◌then◌else◌,
  ◌>>=◌, ◌>>◌, guard,
}
use hyperliquid_c.Prelude.Text.{CString, str, snprintf}
use mathlib.Core.Logic.{◌⊎◌, inl, inr}
use hyperliquid_c.Types.{HlError, network, json, Lv3Error, Doubles, CJson, is_lv3_success, decimal}
use hyperliquid_c.Trades.{copied}
use hyperliquid_c.Orders.{order_side, HlOrder}

module _ (d : Doubles) (j : CJson d) where
  unfoldable pub order_id : j.Node → CString
  order_id n =
      if j.is_number n
      then snprintf 64 (decimal (d.to_u64 (j.valuedouble n)))
      else if j.is_string n
      then elim (j.valuestring n) [ none ↦ [] | some s ↦ copied 64 s ]
      else []

  -- A number from a text; 0 where it is missing or something else.
  unfoldable pub string_real : Option j.Node → d.Real
  string_real none = d.zero_real
  string_real (some n) =
      if j.is_string n
      then elim (j.valuestring n) [ none ↦ d.zero_real | some s ↦ d.atof s ]
      else d.zero_real

  unfoldable pub number_time : Option j.Node → CString
  number_time none = []
  number_time (some n) =
      if j.is_number n then snprintf 32 (decimal (d.to_u64 (j.valuedouble n))) else []

  unfoldable pub order_status : Option j.Node → CString
  order_status none = str "open"
  order_status (some n) =
      if j.is_string n
      then elim (j.valuestring n) [ none ↦ [] | some s ↦ copied 16 s ]
      else str "open"

  -- `none` is HL_ERROR_JSON.
  unfoldable pub parse_order_from_json : j.Node → Option (HlOrder d)
  parse_order_from_json item = do
    coin ← j.get_object_item item (str "coin")
    guard (j.is_string coin)
    oid ← j.get_object_item item (str "oid")
    side ← j.get_object_item item (str "side")
    guard (j.is_string side)
    coin_string ← j.valuestring coin
    side_string ← j.valuestring side
    some (
        let amount = string_real (j.get_object_item item (str "sz")) in
        let time = number_time (j.get_object_item item (str "timestamp")) in
        record {
          id = order_id oid;
          timestamp = time;
          datetime = time;
          symbol = copied 32 coin_string;
          type = str "limit";
          side = order_side side_string;
          time_in_force = str "GTC";
          status = order_status (j.get_object_item item (str "status"));
          price = string_real (j.get_object_item item (str "limitPx"));
          amount = amount;
          filled = d.zero_real;
          remaining = amount;
          leverage = d.of_nat 1;
        })

  -- The loop over the items, with room for `n` more orders; `finish` is done to each that is kept.
  unfoldable pub parse_orders : (HlOrder d → HlOrder d) → ℕ → List j.Node → List (HlOrder d)
  parse_orders finish zero items = []
  parse_orders finish (suc n) [] = []
  parse_orders finish (suc n) (item ∷ items) =
      let kept = parse_orders finish n items in
      let skipped = parse_orders finish (suc n) items in
      elim (parse_order_from_json item) [ none ↦ skipped | some o ↦ finish o ∷ kept ]

  -- The JSON of an answer that was successful, or the error.
  unfoldable pub reply_json : Lv3Error × Option (ℕ × Option CString) → HlError ⊎ j.Node
  reply_json (err, none) = inl network
  reply_json (err, some (status_code, body)) =
      if not (is_lv3_success err) || not (status_code == 200)
      then inl network
      else elim (body >>= j.parse_text) [ none ↦ inl json | some n ↦ inr n ]

  unfoldable pub reply_items : Lv3Error × Option (ℕ × Option CString) → HlError ⊎ List j.Node
  reply_items reply = elim (reply_json reply) [
    | inl e ↦ inl e
    | inr n ↦ if j.is_array n then inr (j.items n) else inl json
  ]
