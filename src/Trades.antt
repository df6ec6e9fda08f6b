-- ===== src/Trades.antt =====
-- src/trades.c: fetching trades, with hl_trade_t and hl_trades_t of include/hl_types.h. The fields that
-- this file never writes (order_id, fee, info) stay zero and are left out; so are the arguments that
-- it never reads: `since`, and for the user's own trades `symbol` and `limit`. A node that is a text
-- is taken to have one, as in cJSON.
pub mod Fetched
use mathlib.Core.Logic.{◌⊎◌, inl, inr}
use hyperliquid_c.Prelude.{
  ℕ, zero, suc, ◌+◌, ◌-◌, ◌*◌, ◌/◌, ◌%◌, ◌^◌, ◌≤◌, ◌<◌, min, String, ◌≡◌, refl, sym, ap, ap₂, ◌∙◌,
  ◌≢◌, ◌↔◌, ◌⊎◌, inl, inr, Bool, true, false, not, ◌&&◌, ◌||◌, Option, none, some, List, [], ◌∷◌,
  ◌++◌, map, arith, ltb, leb, ◌==◌, if◌then◌else◌, ltb→lt, lt→ltb, leb→le, ==_iff, ==_refl,
  Bool-cases, Option-cases, Sum-cases, &&-eq-true, ◌>>=◌, ◌>>◌, guard, some-injective, >>=-eq-some,
  guard-eq-some, length, get_elem?, set, take, drop, replicate, length-append, length-set,
  length-take, length-drop, length-replicate, get_elem?-drop, get_elem?-lt, drop-head, All-append,
  All-map, All-get_elem?, take_all, take-append_le, take-append-drop, append_cancel, All,
}
use hyperliquid_c.Prelude.Text.{
  CString, str, str_eq, str_eq_refl, str_eq→eq, str_eq_iff, split_at_char, strncpy, c_str, snprintf,
}
use hyperliquid_c.Types.{
  HlError, success, network, auth, json, memory, Lv3Error, Doubles, CJson, is_lv3_success, decimal,
}

-- What the rest of the system answers: the wallet's address, whether memory is there, and the HTTP
-- request with its result and, where the response is not null, its status and body.
pub record TradesApi : Type 0 where
  pub wallet_address : Option CString
  pub calloc : Bool
  pub post : CString → CString → Lv3Error × Option (ℕ × Option CString)

-- The string in a zeroed buffer of the size after strncpy with one byte less.
abbrev pub copied : ℕ → CString → CString
copied size s = c_str (strncpy (replicate size 0) s (size - 1))

unfoldable pub side_text : CString → CString
side_text s =
    if str_eq s (str "B")
    then str "buy"
    else if str_eq s (str "A") || str_eq s (str "Sell")
    then str "sell"
    else []

unfoldable pub user_fills_request : CString → CString
user_fills_request user =
    snprintf 1024 (str "{\"type\":\"userFills\",\"user\":\"" ++ user ++ str "\"}")

unfoldable pub recent_trades_request : CString → ℕ → CString
recent_trades_request symbol limit =
    if ltb 0 limit
    then snprintf 1024 (
        str "{\"type\":\"recentTrades\",\"coin\":\""
        ++ symbol
        ++ str "\",\"limit\":"
        ++ decimal limit
        ++ str "}")
    else snprintf 1024 (str "{\"type\":\"recentTrades\",\"coin\":\"" ++ symbol ++ str "\"}")

module _ (d : Doubles) where
  pub record Trade : Type 0 where
    pub id : CString
    pub timestamp : CString
    pub datetime : CString
    pub symbol : CString
    pub side : CString
    pub type : CString
    pub price : d.Real
    pub amount : d.Real
    pub cost : d.Real

  -- A trade without a symbol gets the one that was asked for.
  unfoldable pub set_symbol : CString → Trade → Trade
  set_symbol symbol t = if length t.symbol == 0 then record t { symbol = copied 32 symbol } else t

module _ (d : Doubles) (j : CJson d) where
  -- A field by its name, or by the second name where the first is missing.
  unfoldable pub either_field : j.Node → CString → CString → Option j.Node
  either_field item key other = elim (j.get_object_item item key) [
    | none ↦ j.get_object_item item other
    | some n ↦ some n
  ]

  -- A text or a number; 0 where it is missing or something else.
  unfoldable pub real_of : Option j.Node → d.Real
  real_of none = d.zero_real
  real_of (some n) =
      if j.is_string n
      then elim (j.valuestring n) [ none ↦ d.zero_real | some s ↦ d.atof s ]
      else if j.is_number n
      then j.valuedouble n
      else d.zero_real

  -- What both time fields hold.
  unfoldable pub time_of : Option j.Node → CString
  time_of none = []
  time_of (some n) =
      if j.is_number n
      then snprintf 32 (decimal (d.to_u64 (j.valuedouble n)))
      else if j.is_string n
      then elim (j.valuestring n) [ none ↦ [] | some s ↦ copied 32 s ]
      else []

  unfoldable pub trade_id : Option j.Node → CString
  trade_id none = []
  trade_id (some n) =
      if j.is_string n then elim (j.valuestring n) [ none ↦ [] | some s ↦ copied 64 s ] else []

  -- `none` is HL_ERROR_JSON.
  unfoldable pub parse_trade_from_json : j.Node → Option (Trade d)
  parse_trade_from_json item = do
    coin ← j.get_object_item item (str "coin")
    guard (j.is_string coin)
    side ← j.get_object_item item (str "side")
    guard (j.is_string side)
    coin_string ← j.valuestring coin
    side_string ← j.valuestring side
    some (
        let price = real_of (either_field item (str "px") (str "price")) in
        let amount = real_of (either_field item (str "sz") (str "size")) in
        let time = time_of (either_field item (str "time") (str "timestamp")) in
        record {
          id = trade_id (j.get_object_item item (str "hash"));
          timestamp = time;
          datetime = time;
          symbol = copied 32 coin_string;
          side = side_text side_string;
          type = str "limit";
          price = price;
          amount = amount;
          cost = d.mul price amount;
        })

  -- The loop, with room for `n` more trades; `finish` is done to each that is kept.
  unfoldable pub parse_trades : (Trade d → Trade d) → ℕ → List j.Node → List (Trade d)
  parse_trades finish zero items = []
  parse_trades finish (suc n) [] = []
  parse_trades finish (suc n) (item ∷ items) =
      let kept = parse_trades finish n items in
      let skipped = parse_trades finish (suc n) items in
      elim (parse_trade_from_json item) [ none ↦ skipped | some t ↦ finish t ∷ kept ]

  -- From the answer of the server on; no trades are the null pointer with the count 0.
  unfoldable pub trades_of :
      Bool
      → (Trade d → Trade d)
      → Lv3Error × Option (ℕ × Option CString)
      → HlError × Option (List (Trade d))
  trades_of calloc finish (err, none) = (network, none)
  trades_of calloc finish (err, some (status_code, body)) =
      if not (is_lv3_success err) || not (status_code == 200)
      then (network, none)
      else elim (do text ← body; n ← j.parse_text text; guard (j.is_array n); some n) [
        | none ↦ (json, none)
        | some n ↦
            if length (j.items n) == 0
            then (success, none)
            else if not calloc
            then (memory, none)
            else (success, some (parse_trades finish (length (j.items n)) (j.items n)))
      ]

  unfoldable pub hl_fetch_my_trades : TradesApi → HlError × Option (List (Trade d))
  hl_fetch_my_trades x = elim x.wallet_address [
    | none ↦ (auth, none)
    | some user ↦ trades_of x.calloc (λ t. t) (x.post (str "/info") (user_fills_request user))
  ]

  unfoldable pub hl_fetch_trades : TradesApi → CString → ℕ → HlError × Option (List (Trade d))
  hl_fetch_trades x symbol limit =
      trades_of x.calloc (set_symbol d symbol)
        (x.post (str "/info") (recent_trades_request symbol limit))
