-- ===== src/Account/Positions.antt =====
-- src/account.c: open positions. The file defines hl_fetch_position twice, which no C compiler
-- accepts: here they are `first_fetch_position` and `hl_fetch_position`, in the order of the file.
-- The second keeps a pointer to the text in a block that has ended; here the text stays.
pub mod Names
pub mod Lookup
use hyperliquid_c.Prelude.{
  ℕ, zero, suc, ◌+◌, ◌-◌, ◌*◌, ◌/◌, ◌%◌, ◌^◌, ◌≤◌, ◌<◌, min, String, ◌≡◌, refl, sym, ap, ap₂, ◌∙◌,
  ◌≢◌, ◌↔◌, ◌⊎◌, inl, inr, Bool, true, false, not, ◌&&◌, ◌||◌, Option, none, some, List, [], ◌∷◌,
  ◌++◌, map, arith, ltb, leb, ◌==◌, if◌then◌else◌, ltb→lt, lt→ltb, leb→le, ==_iff, ==_refl,
  Bool-cases, Option-cases, Sum-cases, &&-eq-true, ◌>>=◌, ◌>>◌, guard, some-injective, >>=-eq-some,
  guard-eq-some, length, get_elem?, set, take, drop, replicate, length-append, length-set,
  length-take, length-drop, length-replicate, get_elem?-drop, get_elem?-lt, drop-head, All-append,
  All-map, All-get_elem?, take_all, take-append_le, take-append-drop, append_cancel, All,
}
use hyperliquid_c.Prelude.Text.{
  CString, str, str_eq, str_eq_refl, str_eq→eq, str_eq_iff, split_at_char, strncpy, c_str, snprintf,
}
use hyperliquid_c.Types.{
  HlError, success, auth, memory, network, json, api, parse, invalid_params, not_found, is_success,
  is_lv3_success, Doubles, CJson,
}
use mathlib.Core.Logic.{◌⊎◌, inl, inr}
use hyperliquid_c.Account.{AccountApi, real_value, number_field, account_json}
use hyperliquid_c.Markets.{before_slash}
use hyperliquid_c.Trades.{copied}

-- `hl_position_side_t`
pub data PositionSide : Type 0 where
  long : PositionSide
  short : PositionSide

module _ (d : Doubles) where
  -- `hl_position_t`; `mark_price` is never written and left out.
  pub record Position : Type 0 where
    pub coin : CString
    pub symbol : CString
    pub side : PositionSide
    pub size : d.Real
    pub entry_price : d.Real
    pub liquidation_price : d.Real
    pub unrealized_pnl : d.Real
    pub margin_used : d.Real
    pub position_value : d.Real
    pub return_on_equity : d.Real
    pub leverage : ℕ
    pub max_leverage : ℕ
    pub is_isolated : Bool
    pub cum_funding_all_time : d.Real
    pub cum_funding_since_open : d.Real
    pub cum_funding_since_change : d.Real

  abbrev pub zero_position : Position
  zero_position = record {
    coin = [];
    symbol = [];
    side = long;
    size = d.zero_real;
    entry_price = d.zero_real;
    liquidation_price = d.zero_real;
    unrealized_pnl = d.zero_real;
    margin_used = d.zero_real;
    position_value = d.zero_real;
    return_on_equity = d.zero_real;
    leverage = 0;
    max_leverage = 0;
    is_isolated = false;
    cum_funding_all_time = d.zero_real;
    cum_funding_since_open = d.zero_real;
    cum_funding_since_change = d.zero_real;
  }

  -- The two searches, by the name and by the coin.
  unfoldable pub find_by_symbol : CString → List Position → Option Position
  find_by_symbol coin [] = none
  find_by_symbol coin (p ∷ ps) = if str_eq p.symbol coin then some p else find_by_symbol coin ps

  unfoldable pub find_by_coin : CString → List Position → Option Position
  find_by_coin coin [] = none
  find_by_coin coin (p ∷ ps) = if str_eq p.coin coin then some p else find_by_coin coin ps

-- The buffer `coin` of the first hl_fetch_position: it stays empty where the text is too long.
unfoldable pub first_coin : CString → CString
first_coin symbol = elim (before_slash symbol) [
  | none ↦ copied 32 symbol
  | some coin ↦ if ltb (length coin) 32 then coin else []
]

module _ (d : Doubles) (j : CJson d) where
  -- The signed size, 0 where there is none, and the side of it; a missing size leaves the side LONG.
  unfoldable pub size_and_side : j.Node → d.Real × PositionSide
  size_and_side pos = elim (j.get_object_item pos (str "szi")) [
    | none ↦ (d.zero_real, long)
    | some szi ↦
        (let size = real_value d j szi in
          (d.fabs size, if d.less d.zero_real size then long else short))
  ]

  unfoldable pub int_value : Option j.Node → ℕ
  int_value none = 0
  int_value (some n) =
      if j.is_string n
      then elim (j.valuestring n) [ none ↦ 0 | some s ↦ d.atoi s ]
      else j.valueint n

  -- A field that counts only where it is an object.
  unfoldable pub object_field : j.Node → CString → Option j.Node
  object_field pos key = do n ← j.get_object_item pos key; guard (j.is_object n); some n

  unfoldable pub isolated : j.Node → Bool
  isolated leverage_obj =
      elim (do
        n ← j.get_object_item leverage_obj (str "type")
        guard (j.is_string n)
        j.valuestring n) [ none ↦ false | some s ↦ str_eq s (str "isolated") ]

  -- `none` is HL_ERROR_PARSE.
  unfoldable pub parse_position : j.Node → Option (Position d)
  parse_position position_data = do
    pos ← j.get_object_item position_data (str "position")
    coin ← j.get_object_item pos (str "coin")
    guard (j.is_string coin)
    name ← j.valuestring coin
    let leverage_obj = object_field pos (str "leverage")
    let cum_funding = object_field pos (str "cumFunding")
    some (record {
      coin = copied 32 name;
      symbol = copied 64 (snprintf 64 (name ++ str "/USDC:USDC"));
      side = (size_and_side pos).1;
      size = (size_and_side pos).0;
      entry_price = number_field d j (some pos) (str "entryPx");
      liquidation_price = number_field d j (some pos) (str "liquidationPx");
      unrealized_pnl = number_field d j (some pos) (str "unrealizedPnl");
      margin_used = number_field d j (some pos) (str "marginUsed");
      position_value = number_field d j (some pos) (str "positionValue");
      return_on_equity = number_field d j (some pos) (str "returnOnEquity");
      leverage = int_value (leverage_obj >>= λ l. j.get_object_item l (str "value"));
      max_leverage = int_value (j.get_object_item pos (str "maxLeverage"));
      is_isolated = elim leverage_obj [ none ↦ false | some l ↦ isolated l ];
      cum_funding_all_time = number_field d j cum_funding (str "allTime");
      cum_funding_since_open = number_field d j cum_funding (str "sinceOpen");
      cum_funding_since_change = number_field d j cum_funding (str "sinceChange");
    })

  -- The loop over the items; one that is no position is left out.
  unfoldable pub parse_positions : List j.Node → List (Position d)
  parse_positions [] = []
  parse_positions (item ∷ items) =
      let rest = parse_positions items in
      elim (parse_position item) [ none ↦ rest | some p ↦ p ∷ rest ]

  -- No positions are the null pointer with the count 0.
  unfoldable pub hl_fetch_positions : AccountApi → HlError × Option (List (Position d))
  hl_fetch_positions x = elim (account_json d j x (str "clearinghouseState")) [
    | inl e ↦ (e, none)
    | inr n ↦
        elim (do
          a ← j.get_object_item n (str "assetPositions")
          guard (j.is_array a)
          some (j.items a)) [
            | none ↦ (success, none)
            | some items ↦
                if length items == 0
                then (success, none)
                else if not x.calloc
                then (memory, none)
                else (success, some (parse_positions items))
          ]
  ]

  abbrev pub listed_positions : Option (List (Position d)) → List (Position d)
  listed_positions none = []
  listed_positions (some ps) = ps

  unfoldable pub first_fetch_position : AccountApi → CString → HlError × Position d
  first_fetch_position x symbol =
      let (err, all_positions) = hl_fetch_positions x in
      if not (is_success err)
      then (err, zero_position d)
      else elim (find_by_symbol d (first_coin symbol) (listed_positions all_positions)) [
        | none ↦ (not_found, zero_position d)
        | some p ↦ (success, p)
      ]

  -- `none` where the caller's position is left as it was.
  unfoldable pub hl_fetch_position : AccountApi → CString → HlError × Option (Position d)
  hl_fetch_position x symbol =
      let coin : CString = elim (before_slash symbol) [ none ↦ symbol | some c ↦ c ] in
      let too_long : Bool = elim (before_slash symbol) [
        | none ↦ false
        | some c ↦ leb 32 (length c)
      ] in
      let (err, all_positions) = hl_fetch_positions x in
      if too_long
      then (invalid_params, none)
      else if not (is_success err)
      then (err, none)
      else elim (find_by_coin d coin (listed_positions all_positions)) [
        | none ↦ (not_found, none)
        | some p ↦ (success, some p)
      ]
