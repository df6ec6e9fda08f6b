-- ===== src/Orders.antt =====
-- src/orders.c: fetching orders, with hl_order_t and hl_orders_t of include/hl_types.h. The fields that
-- this file never writes stay zero and are left out; so are the arguments that it never reads
-- (`symbol`, `since` and `limit`). A node that is a text is taken to have one, as in cJSON.
pub mod Parse
pub mod Fetches
pub mod Copies
pub mod History
pub mod Combined
pub mod Batches
use mathlib.Core.Logic.{◌⊎◌, inl, inr}
use hyperliquid_c.Prelude.{
  ℕ, zero, suc, ◌+◌, ◌-◌, ◌*◌, ◌/◌, ◌%◌, ◌^◌, ◌≤◌, ◌<◌, min, String, ◌≡◌, refl, sym, ap, ap₂, ◌∙◌,
  ◌≢◌, ◌↔◌, ◌⊎◌, inl, inr, Bool, true, false, not, ◌&&◌, ◌||◌, Option, none, some, List, [], ◌∷◌,
  ◌++◌, map, arith, ltb, leb, ◌==◌, if◌then◌else◌, ltb→lt, lt→ltb, leb→le, ==_iff, ==_refl,
  Bool-cases, Option-cases, Sum-cases, &&-eq-true, ◌>>=◌, ◌>>◌, guard, some-injective, >>=-eq-some,
  guard-eq-some, length, get_elem?, set, take, drop, replicate, length-append, length-set,
  length-take, length-drop, length-replicate, get_elem?-drop, get_elem?-lt, drop-head, All-append,
  All-map, All-get_elem?, take_all, take-append_le, take-append-drop, append_cancel, All,
}
use hyperliquid_c.Prelude.Text.{
  CString, str, str_eq, str_eq_refl, str_eq→eq, str_eq_iff, split_at_char, strncpy, c_str, snprintf,
}
use hyperliquid_c.Types.{
  HlError, success, network, auth, json, memory, Lv3Error, Doubles, CJson, is_success,
  is_lv3_success, decimal,
}
use hyperliquid_c.Trades.{copied}

-- What the rest of the system answers: the wallet's address, whether there is memory for the parsed
-- orders and for the orders that are kept, and the HTTP request, as in src/trades.c.
pub record OrdersApi : Type 0 where
  pub wallet_address : Option CString
  pub calloc_parsed : Bool
  pub calloc_kept : Bool
  pub post : CString → CString → Lv3Error × Option (ℕ × Option CString)

unfoldable pub user_request : CString → CString → CString
user_request type user =
    snprintf 1024 (str "{\"type\":\"" ++ type ++ str "\",\"user\":\"" ++ user ++ str "\"}")

unfoldable pub order_request : CString → CString → CString
order_request user order_id = snprintf 1024 (
    str "{\"type\":\"orderStatus\",\"user\":\"" ++ user ++ str "\",\"oid\":" ++ order_id ++ str "}")

unfoldable pub order_side : CString → CString
order_side s =
    if str_eq s (str "B") then str "buy" else if str_eq s (str "A") then str "sell" else []

module _ (d : Doubles) where
  pub record HlOrder : Type 0 where
    pub id : CString
    pub timestamp : CString
    pub datetime : CString
    pub symbol : CString
    pub type : CString
    pub side : CString
    pub time_in_force : CString
    pub status : CString
    pub price : d.Real
    pub amount : d.Real
    pub filled : d.Real
    pub remaining : d.Real
    pub leverage : d.Real

  abbrev pub zero_order : HlOrder
  zero_order = record {
    id = [];
    timestamp = [];
    datetime = [];
    symbol = [];
    type = [];
    side = [];
    time_in_force = [];
    status = [];
    price = d.zero_real;
    amount = d.zero_real;
    filled = d.zero_real;
    remaining = d.zero_real;
    leverage = d.zero_real;
  }

  -- `hl_orders_t`; `orders` is `none` for the null pointer.
  pub record Orders : Type 0 where
    pub orders : Option (List HlOrder)
    pub count : ℕ

  abbrev pub no_orders : Orders
  no_orders = record { orders = none; count = 0 }

  -- Status "open" if not specified.
  unfoldable pub set_open : HlOrder → HlOrder
  set_open o = if length o.status == 0 then record o { status = str "open" } else o

  unfoldable pub is_closed : HlOrder → Bool
  is_closed o = not (str_eq o.status (str "open"))

  unfoldable pub is_canceled : HlOrder → Bool
  is_canceled o = str_eq o.status (str "canceled")

  -- The first loop over the parsed orders: how many are to be kept.
  unfoldable pub count_kept : (HlOrder → Bool) → List HlOrder → ℕ
  count_kept p [] = 0
  count_kept p (o ∷ os) = if p o then suc (count_kept p os) else count_kept p os

  -- The second loop: `result` is written from index `result_idx` on. A write past the end is
  -- undefined in C, and gives `none`.
  unfoldable pub copy_kept :
      (HlOrder → Bool) → List HlOrder → ℕ → List HlOrder → Option (List HlOrder)
  copy_kept p [] result_idx result = some result
  copy_kept p (o ∷ os) result_idx result =
      let kept = copy_kept p os (suc result_idx) (set result result_idx o) in
      let skipped = copy_kept p os result_idx result in
      if p o then (if ltb result_idx (length result) then kept else none) else skipped

  -- A loop that copies `n` orders of `source` from index `i` on, `offset` places further.
  unfoldable pub copy_orders : List HlOrder → ℕ → ℕ → ℕ → List HlOrder → Option (List HlOrder)
  copy_orders source zero i offset target = some target
  copy_orders source (suc n) i offset target = elim (get_elem? source i) [
    | none ↦ none
    | some o ↦
        let rest = copy_orders source n (suc i) offset (set target (offset + i) o) in
        if ltb (offset + i) (length target) then rest else none
  ]

  -- The orders that are kept, in an array of their own.
  unfoldable pub kept_orders : Bool → (HlOrder → Bool) → List (HlOrder) → Option (HlError × Orders)
  kept_orders calloc p all_orders =
      let n = count_kept p all_orders in
      if not (ltb 0 n)
      then some (success, no_orders)
      else if not calloc
      then some (memory, no_orders)
      else elim (copy_kept p all_orders 0 (replicate n (zero_order))) [
        | none ↦ none
        | some os ↦ some (success, record { orders = some os; count = n })
      ]

  abbrev pub listed : Orders → List (HlOrder)
  listed os = elim os.orders [ none ↦ [] | some l ↦ l ]

  -- Both arrays in a new one; `calloc` says whether there is memory for it.
  unfoldable pub combine_orders : Bool → Orders → Orders → Option (HlError × Orders)
  combine_orders calloc open_orders historical_orders =
      let total_count = open_orders.count + historical_orders.count in
      if total_count == 0
      then some (success, no_orders)
      else if not calloc
      then some (memory, no_orders)
      else do
        copied_open ←
            copy_orders (listed open_orders) open_orders.count 0 0
              (replicate total_count (zero_order))
        os ←
            copy_orders (listed historical_orders) historical_orders.count 0 open_orders.count
              copied_open
        some (success, record { orders = some os; count = total_count })
