-- ===== src/Positions.antt =====
-- src/leverage.c and src/margin.c. `hl_build_exchange_signature` is defined nowhere in the
-- repository: it is the argument `sign`, from a request and a key to a text.
pub mod Signed
pub mod Margin
pub mod Leverage
pub mod Braces
use mathlib.Core.Logic.{◌⊎◌, inl, inr}
use hyperliquid_c.Prelude.{
  ℕ, zero, suc, ◌+◌, ◌-◌, ◌*◌, ◌/◌, ◌%◌, ◌^◌, ◌≤◌, ◌<◌, min, String, ◌≡◌, refl, sym, ap, ap₂, ◌∙◌,
  ◌≢◌, ◌↔◌, ◌⊎◌, inl, inr, Bool, true, false, not, ◌&&◌, ◌||◌, Option, none, some, List, [], ◌∷◌,
  ◌++◌, map, arith, ltb, leb, ◌==◌, if◌then◌else◌, ltb→lt, lt→ltb, leb→le, ==_iff, ==_refl,
  Bool-cases, Option-cases, Sum-cases, &&-eq-true, ◌>>=◌, ◌>>◌, guard, some-injective, >>=-eq-some,
  guard-eq-some, length, get_elem?, set, take, drop, replicate, length-append, length-set,
  length-take, length-drop, length-replicate, get_elem?-drop, get_elem?-lt, drop-head, All-append,
  All-map, take_all, take-append_le, take-append-drop, append_cancel, All,
}
use hyperliquid_c.Prelude.Text.{
  CString, str, str_eq, str_eq_refl, str_eq→eq, str_eq_iff, split_at_char, strncpy, c_str, snprintf,
}
use hyperliquid_c.Types.{
  HlError, success, invalid_params, network, api, auth, signature, is_lv3_success, HttpResult,
  strstr, Doubles, decimal, is_success, ℤ, pos, negsuc,
}
use hyperliquid_c.Markets.{Market}

-- The bytes of the buffer `coin`: the part before the slash, or the symbol, where they fit.
unfoldable pub coin_buffer : CString → CString
coin_buffer symbol = elim (split_at_char 47 symbol) [
  | none ↦ take 31 symbol
  | some (coin, _) ↦ if ltb (length coin) 32 then coin else []
]

-- The keys of the client, and what the system answers in one call.
pub record Exchange (d : Doubles) : Type 0 where
  pub wallet : Option CString
  pub key : Option CString
  pub markets : HlError × List (Market d)
  pub now : ℕ
  pub sign : CString → CString → Option CString
  pub post : CString → Option HttpResult

unfoldable pub exchange_request : ℕ → CString → CString
exchange_request nonce action =
    str "{\"action\":{\"type\":\"batchModify\",\"modifies\":"
    ++ action
    ++ str "},\"nonce\":"
    ++ decimal nonce
    ++ str "}"

unfoldable pub with_signature : CString → CString → CString
with_signature request sig = request ++ str ",\"signature\":\"" ++ sig ++ str "\"}"

module _ (d : Doubles) where
  -- The loop over the fetched markets; 0 where none has that base.
  unfoldable pub base_id : CString → List (Market d) → ℕ
  base_id coin [] = 0
  base_id coin (m ∷ ms) =
      let rest = base_id coin ms in if str_eq m.base coin then m.asset_id else rest

  unfoldable pub fetched_id : Exchange d → CString → ℕ
  fetched_id x coin = if is_success x.markets.0 then base_id coin x.markets.1 else 0

  -- The table of src/leverage.c.
  unfoldable pub leverage_asset : Exchange d → CString → ℕ
  leverage_asset x coin =
      if str_eq coin (str "BTC")
      then 1
      else if str_eq coin (str "ETH")
      then 2
      else if str_eq coin (str "SOL")
      then 3
      else if str_eq coin (str "USDC")
      then 0
      else fetched_id x coin

  -- The table of src/margin.c.
  unfoldable pub margin_asset : Exchange d → CString → ℕ
  margin_asset x coin =
      if str_eq coin (str "BTC")
      then 1
      else if str_eq coin (str "ETH")
      then 2
      else if str_eq coin (str "SOL")
      then 3
      else fetched_id x coin

  -- Both keys, where they are there.
  unfoldable pub both_keys : Exchange d → Option CString
  both_keys x = do x.wallet; x.key

  -- Signs a request of one action in a buffer of `size` bytes, and adds the signature: the text that
  -- is posted, of which `request_body` holds 2047 bytes.
  unfoldable pub signed_body : ℕ → Exchange d → CString → CString → Option CString
  signed_body size x key action =
      let request = snprintf size (exchange_request x.now action) in
      elim (x.sign request key) [ none ↦ none | some sig ↦ some (with_signature request sig) ]

  unfoldable pub leverage_action : ℕ → Option ℕ → CString
  leverage_action leverage none =
      snprintf 1024
        (str "[{\"type\":\"updateLeverage\",\"leverage\":" ++ decimal leverage ++ str "}]")
  leverage_action leverage (some asset_id) = snprintf 1024 (
      str "[{\"type\":\"updateLeverage\",\"leverage\":"
      ++ decimal leverage
      ++ str ",\"asset\":"
      ++ decimal asset_id
      ++ str "}]")

  -- The asset in the action: none without a symbol or with the id 0.
  unfoldable pub leverage_target : Exchange d → Option CString → Option ℕ
  leverage_target x none = none
  leverage_target x (some symbol) =
      let id = leverage_asset x (coin_buffer symbol) in if ltb 0 id then some id else none

  -- The result for an answer.
  unfoldable pub leverage_answer : Option HttpResult → HlError
  leverage_answer none = network
  leverage_answer (some r) =
      let text : CString = elim r.body [ none ↦ [] | some t ↦ t ] in
      if not (is_lv3_success r.err)
      then network
      else if not (r.status_code == 200)
      then elim (strstr text (str "error")) [ none ↦ network | some _ ↦ api ]
      else elim (strstr text (str "\"status\":\"ok\"")) [ none ↦ api | some _ ↦ success ]

  unfoldable pub margin_answer : Option HttpResult → HlError
  margin_answer none = network
  margin_answer (some r) =
      let text : CString = elim r.body [ none ↦ [] | some t ↦ t ] in
      if not (is_lv3_success r.err)
      then network
      else if not (r.status_code == 200)
      then api
      else elim (strstr text (str "\"status\":\"ok\"")) [ none ↦ api | some _ ↦ success ]

  -- The text that is posted, or the early return.
  unfoldable pub prepare_leverage : Exchange d → ℤ → Option CString → HlError ⊎ CString
  prepare_leverage x (negsuc n) symbol = inl invalid_params
  prepare_leverage x (pos leverage) symbol =
      if ltb leverage 1 || ltb 50 leverage then inl invalid_params else elim (both_keys x) [
        | none ↦ inl auth
        | some key ↦
            elim (signed_body 1536 x key (leverage_action leverage (leverage_target x symbol))) [
              | none ↦ inl signature
              | some body ↦ inr (snprintf 2048 body)
            ]
      ]

  unfoldable pub hl_set_leverage : Exchange d → ℤ → Option CString → HlError
  hl_set_leverage x leverage symbol = elim (prepare_leverage x leverage symbol) [
    | inl e ↦ e
    | inr body ↦ leverage_answer (x.post body)
  ]

  unfoldable pub margin_action : ℕ → d.Real → CString
  margin_action asset_id amount = snprintf 256 (
      str "[{\"type\":\"updateMargin\",\"asset\":"
      ++ decimal asset_id
      ++ str ",\"margin\":"
      ++ d.fixed 8 amount
      ++ str "}]")

  unfoldable pub prepare_margin : Exchange d → CString → d.Real → HlError ⊎ CString
  prepare_margin x symbol amount =
      if d.less_equal amount d.zero_real then inl invalid_params else elim (both_keys x) [
        | none ↦ inl auth
        | some key ↦
            let id = margin_asset x (coin_buffer symbol) in
            if id == 0
            then inl invalid_params
            else elim (signed_body 1024 x key (margin_action id amount)) [
              | none ↦ inl signature
              | some body ↦ inr (snprintf 2048 body)
            ]
      ]

  unfoldable pub hl_add_margin : Exchange d → CString → d.Real → HlError
  hl_add_margin x symbol amount = elim (prepare_margin x symbol amount) [
    | inl e ↦ e
    | inr body ↦ margin_answer (x.post body)
  ]

  unfoldable pub hl_reduce_margin : Exchange d → CString → d.Real → HlError
  hl_reduce_margin x symbol amount =
      if d.less_equal amount d.zero_real
      then invalid_params
      else hl_add_margin x symbol (d.negate amount)
