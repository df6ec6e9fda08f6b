-- ===== src/Trader/Signing.antt =====
-- src/trading.c: placing and cancelling an order. The JSON that is built with cJSON is a tree, and its
-- text is what `print_unformatted` gives.
pub mod Bodies
use hyperliquid_c.Prelude.{
  ℕ, zero, suc, ◌+◌, ◌-◌, ◌*◌, ◌/◌, ◌%◌, ◌^◌, ◌≤◌, ◌<◌, min, String, ◌≡◌, refl, sym, ap, ap₂, ◌∙◌,
  ◌≢◌, ◌↔◌, ◌⊎◌, inl, inr, Bool, true, false, not, ◌&&◌, ◌||◌, Option, none, some, List, [], ◌∷◌,
  ◌++◌, map, arith, ltb, leb, ◌==◌, if◌then◌else◌, ltb→lt, lt→ltb, leb→le, ==_iff, ==_refl,
  Bool-cases, Option-cases, Sum-cases, &&-eq-true, ◌>>=◌, ◌>>◌, guard, some-injective, >>=-eq-some,
  guard-eq-some, length, get_elem?, set, take, drop, replicate, length-append, length-set,
  length-take, length-drop, length-replicate, get_elem?-drop, get_elem?-lt, drop-head, All-append,
  All-map, All-get_elem?, take_all, take-append_le, take-append-drop, append_cancel, All,
}
use hyperliquid_c.Prelude.Text.{
  CString, str, str_eq, str_eq_refl, str_eq→eq, str_eq_iff, split_at_char, strncpy, c_str, snprintf,
}
use hyperliquid_c.Types.{
  HlError, success, auth, memory, network, json, api, parse, invalid_params, not_found, is_success,
  is_lv3_success, Doubles, CJson, HttpResult, decimal, strstr,
}
use mathlib.Core.Logic.{◌⊎◌, inl, inr}
use hyperliquid_c.Crypto.Hex.{bytes_to_hex}
use hyperliquid_c.Crypto.Keccak.{Sha3}
use hyperliquid_c.Crypto.Ecdsa.{Secp256k1}
use hyperliquid_c.Crypto.Eip712.{Locals, eip712_sign_agent}
use hyperliquid_c.Msgpack.{Packer, Order, Cancel, hl_build_order_hash, hl_build_cancel_hash}
use hyperliquid_c.Trader.{
  TraderData, TraderError, trader_success, trader_params, trader_network, trader_json,
  trader_exchange, trader_memory, trader_not_found, hardcoded_asset_id, trading_symbol,
  hyperliquid_make_request, usable_body,
}

module _ (d : Doubles) where
  -- What the calls of cJSON build: every number is a double.
  mutual
    pub data JsonTree : Type 0 where
      number : d.Real → JsonTree
      bool : Bool → JsonTree
      string : CString → JsonTree
      array : JsonItems → JsonTree
      object : JsonFields → JsonTree

    pub data JsonItems : Type 0 where
      no_items : JsonItems
      item : JsonTree → JsonItems → JsonItems

    pub data JsonFields : Type 0 where
      no_fields : JsonFields
      field : CString → JsonTree → JsonFields → JsonFields

  abbrev pub one_item : JsonTree → JsonTree
  one_item t = array (item t no_items)

  -- cJSON_AddNumberToObject of an integer.
  abbrev pub whole : ℕ → JsonTree
  whole n = number (d.of_nat n)

  unfoldable pub order_tree : Order → JsonTree
  order_tree o = object (
      field (str "a") (whole o.a) (
        field (str "b") (bool o.b) (
          field (str "p") (string o.p) (
            field (str "s") (string o.s) (
              field (str "r") (bool o.r) (
                field (str "t")
                  (object (
                    field (str "limit") (object (field (str "tif") (string o.limit.tif) no_fields))
                      no_fields))
                  no_fields))))))

  unfoldable pub order_action_tree : Order → JsonTree
  order_action_tree o = object (
      field (str "type") (string (str "order")) (
        field (str "orders") (one_item (order_tree o))
          (field (str "grouping") (string (str "na")) no_fields)))

  unfoldable pub cancel_action_tree : Cancel → JsonTree
  cancel_action_tree c = object (
      field (str "type") (string (str "cancel")) (
        field (str "cancels")
          (one_item (object (field (str "a") (whole c.a) (field (str "o") (whole c.o) no_fields))))
          no_fields))

  unfoldable pub signature_tree : List ℕ → JsonTree
  signature_tree sig = object (
      field (str "r") (string (bytes_to_hex (take 32 sig) true)) (
        field (str "s") (string (bytes_to_hex (take 32 (drop 32 sig)) true))
          (field (str "v") (whole (elim (get_elem? sig 64) [ none ↦ 0 | some v ↦ v ])) no_fields)))

  unfoldable pub request_tree : JsonTree → ℕ → List ℕ → JsonTree
  request_tree action nonce sig = object (
      field (str "action") action (
        field (str "nonce") (whole nonce) (field (str "signature") (signature_tree sig) no_fields)))

-- The text of `%d` for the bits of an `int`.
unfoldable pub int_text : ℕ → CString
int_text n = if ltb n (2 ^ 31) then decimal n else b'-' ∷ decimal (2 ^ 32 - n)

module _ (d : Doubles) where
  -- What the rest of the system answers in one call: the clock in milliseconds, the allocation in the
  -- hash, the text of a tree, and the HTTP request.
  pub record TraderApi : Type 0 where
    pub now : ℕ
    pub allocated : Bool
    pub print_tree : JsonTree d → Option CString
    pub post : CString → CString → HttpResult

  -- The order for the asset of a symbol, "Buy" or not; prices and sizes have eight digits.
  unfoldable pub limit_order : CString → CString → d.Real → d.Real → Order
  limit_order symbol side price quantity = record {
    a = hardcoded_asset_id (trading_symbol symbol);
    b = str_eq side (str "Buy");
    p = snprintf 32 (d.general 8 price);
    s = snprintf 32 (d.general 8 quantity);
    r = false;
    limit = record { tif = str "Gtc" };
  }

module _ (d : Doubles) (j : CJson d) where
  -- A field that must be an object.
  unfoldable pub inner_object : j.Node → CString → Option j.Node
  inner_object n key = do m ← j.get_object_item n key; guard (j.is_object m); some m

  unfoldable pub has_status_ok : j.Node → Bool
  has_status_ok n =
      elim (do s ← j.get_object_item n (str "status"); guard (j.is_string s); j.valuestring s) [
        | none ↦ false
        | some text ↦ str_eq text (str "ok")
      ]

  -- The order's id in an answer.
  unfoldable pub resting_oid : j.Node → Option CString
  resting_oid n = do
    guard (has_status_ok n)
    response ← inner_object n (str "response")
    content ← inner_object response (str "data")
    statuses ← j.get_object_item content (str "statuses")
    guard (j.is_array statuses)
    first_status ← get_elem? (j.items statuses) 0
    guard (j.is_object first_status)
    resting ← inner_object first_status (str "resting")
    oid ← j.get_object_item resting (str "oid")
    guard (j.is_number oid)
    some (int_text (j.valueint oid))

  -- The result and what the caller's buffer holds.
  unfoldable pub placed : ℕ → HttpResult → TraderError × CString
  placed order_id_size r = elim (usable_body r) [
    | none ↦ (trader_exchange, [])
    | some body ↦ elim (j.parse_text body) [
      | none ↦ (trader_json, [])
      | some n ↦ elim (resting_oid n) [
        | none ↦ (trader_exchange, [])
        | some id ↦ (trader_success, snprintf order_id_size id)
      ]
    ]
  ]

  unfoldable pub cancelled : HttpResult → TraderError
  cancelled r = elim (usable_body r >>= j.parse_text) [
    | none ↦ trader_exchange
    | some n ↦ if has_status_ok n then trader_success else trader_exchange
  ]

module _ (d : Doubles) (pk : Packer) (sha : Sha3) (loc : Locals) (secp : Secp256k1) where
  unfoldable pub sign_action : TraderData → List ℕ → Option (List ℕ)
  sign_action t connection_id =
      eip712_sign_agent sha loc secp (str "Exchange") 1337 (if t.testnet then str "b" else str "a")
        connection_id t.private_key

  -- The text that is posted for an order, or the error.
  unfoldable pub order_text :
      TraderApi d → TraderData → CString → CString → d.Real → d.Real → TraderError ⊎ CString
  order_text x t symbol side price quantity =
      let o = limit_order d symbol side price quantity in
      elim (do
        connection_id ← hl_build_order_hash pk sha x.allocated (o ∷ []) (str "na") x.now none
        sign_action t connection_id) [
          | none ↦ inl trader_exchange
          | some sig ↦ elim (x.print_tree (request_tree d (order_action_tree d o) x.now sig)) [
            | none ↦ inl trader_json
            | some body ↦ inr body
          ]
        ]

  unfoldable pub cancel_text : TraderApi d → TraderData → CString → CString → TraderError ⊎ CString
  cancel_text x t symbol order_id =
      let c : Cancel = record {
        a = hardcoded_asset_id (trading_symbol symbol);
        o = d.strtoull order_id;
      } in
      elim (do
        connection_id ← hl_build_cancel_hash pk sha x.allocated (c ∷ []) x.now none
        sign_action t connection_id) [
          | none ↦ inl trader_exchange
          | some sig ↦ elim (x.print_tree (request_tree d (cancel_action_tree d c) x.now sig)) [
            | none ↦ inl trader_json
            | some body ↦ inr body
          ]
        ]

  unfoldable pub hyperliquid_place_limit_order :
      CJson d
      → TraderApi d
      → TraderData
      → CString
      → CString
      → d.Real
      → d.Real
      → ℕ
      → TraderError × CString
  hyperliquid_place_limit_order j x t symbol side price quantity order_id_size =
      elim (order_text x t symbol side price quantity) [
        | inl e ↦ (e, [])
        | inr body ↦
            placed d j order_id_size (hyperliquid_make_request x.post t (str "/exchange") body)
      ]

  unfoldable pub hyperliquid_cancel_order :
      CJson d → TraderApi d → TraderData → CString → CString → TraderError
  hyperliquid_cancel_order j x t symbol order_id = elim (cancel_text x t symbol order_id) [
    | inl e ↦ e
    | inr body ↦ cancelled d j (hyperliquid_make_request x.post t (str "/exchange") body)
  ]
