-- ===== src/Trading.antt =====
-- src/trading_api.c: placing and cancelling one order. The mutex of the client is not modelled: a
-- call is one step. Pointers that the callers must pass are taken as given.
pub mod Texts
pub mod Signed
pub mod Results
pub mod Cancels
pub mod First
use mathlib.Core.Logic.{◌⊎◌, inl, inr}
use hyperliquid_c.Prelude.{
  ℕ, zero, suc, ◌+◌, ◌-◌, ◌*◌, ◌/◌, ◌%◌, ◌^◌, ◌≤◌, ◌<◌, min, String, ◌≡◌, refl, sym, ap, ap₂, ◌∙◌,
  ◌≢◌, ◌↔◌, ◌⊎◌, inl, inr, Bool, true, false, not, ◌&&◌, ◌||◌, Option, none, some, List, [], ◌∷◌,
  ◌++◌, map, arith, ltb, leb, ◌==◌, if◌then◌else◌, ltb→lt, lt→ltb, leb→le, ==_iff, ==_refl,
  Bool-cases, Option-cases, &&-eq-true, ◌>>=◌, ◌>>◌, guard, some-injective, >>=-eq-some,
  guard-eq-some, length, get_elem?, set, take, drop, replicate, length-append, length-set,
  length-take, length-drop, length-replicate, get_elem?-drop, get_elem?-lt, drop-head, All-append,
  All-map, take_all, take-append_le, take-append-drop, append_cancel, All,
}
use hyperliquid_c.Prelude.Text.{
  CString, str, str_eq, str_eq_refl, str_eq→eq, str_eq_iff, split_at_char, strncpy, c_str, snprintf,
}
use hyperliquid_c.Types.{
  HlError, success, invalid_params, network, api, json, memory, timeout, invalid_symbol, signature,
  Lv3Error, lv3_success, lv3_invalid_params, lv3_network, lv3_http, lv3_json, lv3_exchange,
  lv3_memory, lv3_timeout, is_lv3_success, HttpResult, strstr, Doubles, decimal, is_success,
}
use hyperliquid_c.Crypto.Hex.{bytes_to_hex}
use hyperliquid_c.Crypto.Keccak.{Sha3}
use hyperliquid_c.Crypto.Ecdsa.{Secp256k1}
use hyperliquid_c.Crypto.Eip712.{Locals, eip712_sign_agent}
use hyperliquid_c.Msgpack.{Packer, Order, Cancel, hl_build_order_hash, hl_build_cancel_hash}
use hyperliquid_c.Markets.{Market, hl_get_asset_id}

unfoldable pub lv3_to_hl_error : Lv3Error → HlError
lv3_to_hl_error lv3_success = success
lv3_to_hl_error lv3_invalid_params = invalid_params
lv3_to_hl_error lv3_network = network
lv3_to_hl_error lv3_exchange = api
lv3_to_hl_error lv3_json = json
lv3_to_hl_error lv3_memory = memory
lv3_to_hl_error lv3_timeout = timeout
lv3_to_hl_error lv3_http = api

-- What the accessors of the client return.
pub record Handles : Type 0 where
  pub wallet : Option CString
  pub key : Option CString
  pub testnet : Bool
  pub http : Bool
  pub mutex : Bool

-- The secret key, where all that is needed is there.
unfoldable pub ready_key : Handles → Option CString
ready_key h = do h.wallet; key ← h.key; guard h.http; guard h.mutex; some key

abbrev pub bool_text : Bool → CString
bool_text b = if b then str "true" else str "false"

unfoldable pub exchange_url : Bool → CString
exchange_url testnet =
    (if testnet
      then str "https://api.hyperliquid-testnet.xyz"
      else str "https://api.hyperliquid.xyz")
    ++ str "/exchange"

-- The end of both bodies: the nonce, the signature and no vault.
unfoldable pub signature_text : ℕ → List ℕ → CString
signature_text nonce sig =
    str "\"nonce\":"
    ++ decimal nonce
    ++ str ",\"signature\":{\"r\":\""
    ++ bytes_to_hex (take 32 sig) true
    ++ str "\",\"s\":\""
    ++ bytes_to_hex (take 32 (drop 32 sig)) true
    ++ str "\",\"v\":"
    ++ decimal (elim (get_elem? sig 64) [ none ↦ 0 | some v ↦ v ])
    ++ str "},\"vaultAddress\":null}"

unfoldable pub order_body : Order → ℕ → List ℕ → CString
order_body o nonce sig =
    str "{\"action\":{\"type\":\"order\",\"orders\":[{\"a\":"
    ++ decimal o.a
    ++ str ",\"b\":"
    ++ bool_text o.b
    ++ str ",\"p\":\""
    ++ o.p
    ++ str "\",\"s\":\""
    ++ o.s
    ++ str "\",\"r\":"
    ++ bool_text o.r
    ++ str ",\"t\":{\"limit\":{\"tif\":\"Gtc\"}}}],\"grouping\":\"na\"},"
    ++ signature_text nonce sig

unfoldable pub cancel_body : Cancel → ℕ → List ℕ → CString
cancel_body c nonce sig =
    str "{\"action\":{\"type\":\"cancel\",\"cancels\":[{\"a\":"
    ++ decimal c.a
    ++ str ",\"o\":"
    ++ decimal c.o
    ++ str "}]},"
    ++ signature_text nonce sig

-- An early return, with the text for the caller.
pub record Refusal : Type 0 where
  pub code : HlError
  pub error : CString

-- `hl_order_status_t`
pub data OrderStatus : Type 0 where
  open_status : OrderStatus
  filled : OrderStatus
  partially_filled : OrderStatus
  cancelled_status : OrderStatus
  rejected : OrderStatus

-- The order id and the error text of `hl_order_result_t`; its other fields stay zero.
pub record OrderResult : Type 0 where
  pub order_id : Option CString
  pub status : OrderStatus
  pub error : CString

-- `hl_cancel_result_t`
pub record CancelResult : Type 0 where
  pub cancelled : Bool
  pub error : CString

-- `hl_order_type_t`
pub data OrderType : Type 0 where
  limit : OrderType
  market : OrderType

-- `hl_time_in_force_t`
pub data TimeInForce : Type 0 where
  gtc : TimeInForce
  ioc : TimeInForce
  alo : TimeInForce

module _ (d : Doubles) where
  -- `hl_order_request_api_t`
  pub record OrderRequest : Type 0 where
    pub symbol : CString
    pub buy : Bool
    pub price : d.Real
    pub quantity : d.Real
    pub order_type : OrderType
    pub time_in_force : TimeInForce
    pub reduce_only : Bool
    pub slippage_bps : ℕ

  -- What the rest of the system answers in one call: `hl_fetch_markets`, the clock, the allocation
  -- in the hash, and the HTTP request.
  pub record System : Type 0 where
    pub markets : HlError × List (Market d)
    pub now : ℕ
    pub allocated : Bool
    pub post : CString → CString → HttpResult

  -- The id of `symbol`, 0 where there is none.
  unfoldable pub get_asset_id : System → CString → ℕ
  get_asset_id sys symbol =
      if is_success sys.markets.0
      then elim (hl_get_asset_id d sys.markets.1 (snprintf 64 (symbol ++ str "/USDC:USDC"))).1 [
        | none ↦ 0
        | some id ↦ id
      ]
      else 0

  unfoldable pub is_unknown : ℕ → CString → Bool
  is_unknown asset_id symbol = asset_id == 0 && not (str_eq symbol (str "SOL"))

  unfoldable pub order_of : OrderRequest → ℕ → Order
  order_of request asset_id = record {
    a = asset_id;
    b = request.buy;
    p = snprintf 64 (d.general 6 request.price);
    s = snprintf 64 (d.general 6 request.quantity);
    r = request.reduce_only;
    limit = record { tif = str "Gtc" };
  }

  -- What the caller gets once the server has answered.
  unfoldable pub order_answer : HttpResult → HlError × OrderResult
  order_answer r =
      if not (is_lv3_success r.err) || not (r.status_code == 200)
      then (
        lv3_to_hl_error r.err,
        record {
          order_id = none;
          status = open_status;
          error = snprintf 256 (str "HTTP request failed: " ++ decimal r.status_code);
        },
      )
      else elim r.body [
        | none ↦
            (api, record { order_id = none; status = open_status; error = str "Empty response" })
        | some text ↦ elim (do rest ← strstr text (str "\"oid\":"); d.scan_int rest) [
          | none ↦ (
            api,
            record {
              order_id = none;
              status = open_status;
              error = str "Failed to parse order ID from response";
            },
          )
          | some id ↦ (success, record { order_id = some id; status = open_status; error = [] })
        ]
      ]

  unfoldable pub cancel_answer : HttpResult → HlError × CancelResult
  cancel_answer r =
      if not (is_lv3_success r.err) || not (r.status_code == 200)
      then (
        lv3_to_hl_error r.err,
        record {
          cancelled = false;
          error = snprintf 256 (str "HTTP request failed: " ++ decimal r.status_code);
        },
      )
      else let text : CString = elim r.body [ none ↦ str "unknown error" | some t ↦ t ] in
        elim (do t ← r.body; strstr t (str "\"status\":\"ok\"")) [
          | none ↦ (
            api,
            record { cancelled = false; error = snprintf 256 (str "Cancel failed: " ++ text) },
          )
          | some _ ↦ (success, record { cancelled = true; error = [] })
        ]

module _ (d : Doubles) (pk : Packer) (sha : Sha3) (loc : Locals) (secp : Secp256k1) where
  -- Signs a connection id for the exchange; `none` is -1.
  unfoldable pub sign_connection : Bool → List ℕ → CString → Option (List ℕ)
  sign_connection testnet connection_id key =
      eip712_sign_agent sha loc secp (str "Exchange") 1337 (if testnet then str "b" else str "a")
        connection_id key

  -- The checks and the signature of an order: the body that is posted, or an early return.
  unfoldable pub prepare_order : System d → Handles → OrderRequest d → Refusal ⊎ CString
  prepare_order sys h request = elim (ready_key h) [
    | none ↦ inl (record { code = invalid_params; error = str "Invalid client state" })
    | some key ↦
        let asset_id = get_asset_id d sys request.symbol in
        let o = order_of d request asset_id in
        if is_unknown d asset_id request.symbol
        then inl (record {
          code = invalid_symbol;
          error = snprintf 256 (str "Unknown symbol: " ++ request.symbol);
        })
        else elim (hl_build_order_hash pk sha sys.allocated (o ∷ []) (str "na") sys.now none) [
          | none ↦ inl (record { code = signature; error = str "Failed to build order hash" })
          | some connection_id ↦ elim (sign_connection h.testnet connection_id key) [
            | none ↦ inl (record { code = signature; error = str "Failed to sign order" })
            | some sig ↦ inr (snprintf 4096 (order_body o sys.now sig))
          ]
        ]
  ]

  unfoldable pub hl_place_order : System d → Handles → OrderRequest d → HlError × OrderResult
  hl_place_order sys h request = elim (prepare_order sys h request) [
    | inl r ↦ (r.code, record { order_id = none; status = open_status; error = r.error })
    | inr body ↦ order_answer d (sys.post (exchange_url h.testnet) body)
  ]

  unfoldable pub prepare_cancel : System d → Handles → CString → CString → Refusal ⊎ CString
  prepare_cancel sys h symbol order_id = elim (ready_key h) [
    | none ↦ inl (record { code = invalid_params; error = str "Invalid client state" })
    | some key ↦
        let asset_id = get_asset_id d sys symbol in
        let c : Cancel = record { a = asset_id; o = d.strtoull order_id } in
        if is_unknown d asset_id symbol
        then inl (record {
          code = invalid_symbol;
          error = snprintf 256 (str "Unknown symbol: " ++ symbol);
        })
        else elim (hl_build_cancel_hash pk sha sys.allocated (c ∷ []) sys.now none) [
          | none ↦ inl (record { code = signature; error = str "Failed to build cancel hash" })
          | some connection_id ↦ elim (sign_connection h.testnet connection_id key) [
            | none ↦ inl (record { code = signature; error = str "Failed to sign cancel" })
            | some sig ↦ inr (snprintf 2048 (cancel_body c sys.now sig))
          ]
        ]
  ]

  unfoldable pub hl_cancel_order : System d → Handles → CString → CString → HlError × CancelResult
  hl_cancel_order sys h symbol order_id = elim (prepare_cancel sys h symbol order_id) [
    | inl r ↦ (r.code, record { cancelled = false; error = r.error })
    | inr body ↦ cancel_answer d (sys.post (exchange_url h.testnet) body)
  ]
