-- ===== src/Markets/Parse.antt =====
-- src/markets.c: markets from JSON and from the two requests.
use hyperliquid_c.Prelude.{
  ℕ, suc, Bool, true, not, Option, none, some, List, [], ◌∷◌, ◌++◌, ltb, leb, ◌==◌, if◌then◌else◌,
  ◌>>=◌, ◌>>◌, guard, length, get_elem?, drop, replicate,
}
use hyperliquid_c.Prelude.Text.{CString, str, split_at_char, strncpy, c_str, snprintf}
use hyperliquid_c.Types.{
  HlError, success, invalid_params, network, api, parse, memory, Doubles, CJson, HttpResult,
  is_lv3_success, decimal, is_success,
}
use hyperliquid_c.Markets.{Market, swap, spot}

module _ (d : Doubles) (j : CJson d) where
  -- A field that is a number or a text of one; a field that is missing keeps what was there.
  unfoldable pub real_field : j.Node → CString → d.Real → d.Real
  real_field item key old = elim (j.get_object_item item key) [
    | none ↦ old
    | some n ↦
        if j.is_string n
        then elim (j.valuestring n) [ none ↦ old | some s ↦ d.atof s ]
        else j.valuedouble n
  ]

  -- The text of a field where it has one, as an `int`.
  unfoldable pub int_field : j.Node → CString → ℕ → ℕ
  int_field item key default = elim (j.get_object_item item key) [
    | none ↦ default
    | some n ↦ elim (j.valuestring n) [ none ↦ default | some s ↦ d.atoi s ]
  ]

  -- The name of an item where it is a text.
  unfoldable pub name_of : j.Node → Option CString
  name_of item = do n ← j.get_object_item item (str "name"); guard (j.is_string n); j.valuestring n

  -- `none` is HL_ERROR_PARSE. The memory of the market is zeroed by `calloc`.
  unfoldable pub parse_swap_market : j.Node → j.Node → ℕ → Option (Market d)
  parse_swap_market universe_item context_item base_id =
      let z = d.zero_real in
      elim (name_of universe_item) [
        | none ↦ none
        | some name ↦
            let base = c_str (strncpy (replicate 32 0) name 31) in
            some (record {
              symbol = snprintf 64 (base ++ str "/USDC:USDC");
              base = base;
              quote = str "USDC";
              settle = str "USDC";
              base_id = snprintf 16 (decimal base_id);
              asset_id = base_id;
              type = swap;
              active = true;
              amount_precision = int_field universe_item (str "szDecimals") 4;
              price_precision = 6;
              max_leverage = int_field universe_item (str "maxLeverage") 50;
              min_cost = d.of_nat 10;
              mark_price = real_field context_item (str "markPx") z;
              oracle_price = real_field context_item (str "oraclePx") z;
              funding_rate = real_field context_item (str "funding") z;
              day_volume = real_field context_item (str "dayNtlVlm") z;
              open_interest = real_field context_item (str "openInterest") z;
            })
      ]

  -- The loop over the universe from index `i` on; a missing context skips the item.
  unfoldable pub parse_swaps : List j.Node → List j.Node → ℕ → List (Market d)
  parse_swaps [] contexts i = []
  parse_swaps (u ∷ us) contexts i =
      let rest = parse_swaps us contexts (suc i) in
      elim (get_elem? contexts i) [
        | none ↦ rest
        | some c ↦ elim (parse_swap_market u c i) [ none ↦ rest | some m ↦ m ∷ rest ]
      ]

  -- The parts of a response: the meta object, and the contexts.
  unfoldable pub response_parts : Option CString → Option (j.Node × List j.Node)
  response_parts body = do
    text ← body
    json ← j.parse_text text
    guard (j.is_array json)
    guard (leb 2 (length (j.items json)))
    meta ← get_elem? (j.items json) 0
    contexts ← get_elem? (j.items json) 1
    guard (j.is_array contexts)
    some (meta, j.items contexts)

  unfoldable pub universe_of : j.Node → Option (List j.Node)
  universe_of meta = do
    universe ← j.get_object_item meta (str "universe")
    guard (j.is_array universe)
    some (j.items universe)

  -- The checks of an answer, of which none is there where the client has no HTTP handle.
  unfoldable pub check_response : Option HttpResult → HlError
  check_response none = invalid_params
  check_response (some r) =
      if not (is_lv3_success r.err)
      then network
      else if not (r.status_code == 200)
      then api
      else success

  -- The universe and the contexts of the answer for swaps; `none` is HL_ERROR_PARSE.
  unfoldable pub swap_content : Option HttpResult → Option (List j.Node × List j.Node)
  swap_content response = do
    r ← response
    (meta, contexts) ← response_parts r.body
    universe ← universe_of meta
    some (universe, contexts)

  -- The universe, the tokens and the contexts of the answer for spots.
  unfoldable pub spot_content : Option HttpResult → Option (List j.Node × List j.Node × List j.Node)
  spot_content response = do
    r ← response
    (meta, contexts) ← response_parts r.body
    universe ← j.get_object_item meta (str "universe")
    tokens ← j.get_object_item meta (str "tokens")
    guard (j.is_array universe)
    guard (j.is_array tokens)
    some (j.items universe, j.items tokens, contexts)

  -- Whether the array could be allocated is `calloc`.
  unfoldable pub fetch_swap_markets : Bool → Option HttpResult → HlError × List (Market d)
  fetch_swap_markets calloc response =
      let err = check_response response in
      if not (is_success err) then (err, []) else elim (swap_content response) [
        | none ↦ (parse, [])
        | some (universe, contexts) ↦
            if length universe == 0
            then (success, [])
            else if not calloc
            then (memory, [])
            else (success, parse_swaps universe contexts 0)
      ]

  -- `none` is HL_ERROR_PARSE. The memory of the market is not zeroed: `old` is what it held. A quote
  -- of 32 bytes or more overflows its buffer in C; here the text is kept whole.
  unfoldable pub parse_spot_market : j.Node → j.Node → List j.Node → Market d → Option (Market d)
  parse_spot_market universe_item context_item tokens old = do
    name ← j.get_object_item universe_item (str "name")
    positions ← j.get_object_item universe_item (str "tokens")
    guard (j.is_array positions)
    guard (leb 2 (length (j.items positions)))
    base_position ← get_elem? (j.items positions) 0
    market_name ← (if j.is_string name then j.valuestring name else none)
    (base, rest) ← split_at_char 47 market_name
    guard (ltb (length base) 32)
    let quote = drop 1 rest in
        let index = j.get_object_item universe_item (str "index") in
        let asset_id : ℕ = elim index [
          | none ↦ old.asset_id
          | some n ↦ d.to_u32 (j.get_number_value n)
        ] in
        let decimals : Option j.Node = elim (get_elem? tokens (j.valueint base_position)) [
          | none ↦ none
          | some token ↦ j.get_object_item token (str "szDecimals")
        ] in
        some (record old {
          symbol = snprintf 64 (base ++ str "/" ++ quote);
          base = base;
          quote = quote;
          settle = quote;
          base_id = elim index [ none ↦ old.base_id | some n ↦ snprintf 16 (decimal asset_id) ];
          asset_id = asset_id;
          type = spot;
          active = true;
          amount_precision = elim decimals [
            | none ↦ old.amount_precision
            | some n ↦ d.to_int (j.get_number_value n)
          ];
          price_precision = 8;
          max_leverage = 1;
          min_cost = d.of_nat 1;
          mark_price = real_field context_item (str "markPx") old.mark_price;
          day_volume = real_field context_item (str "dayNtlVlm") old.day_volume;
        })

  -- The loop from item `i` on; the next market goes to slot `k` of the new memory.
  unfoldable pub parse_spots :
      (ℕ → Market d) → List j.Node → List j.Node → List j.Node → ℕ → ℕ → List (Market d)
  parse_spots old tokens [] contexts i k = []
  parse_spots old tokens (u ∷ us) contexts i k = elim (get_elem? contexts i) [
    | none ↦ parse_spots old tokens us contexts (suc i) k
    | some c ↦ elim (parse_spot_market u c tokens (old k)) [
      | none ↦ parse_spots old tokens us contexts (suc i) k
      | some m ↦ m ∷ parse_spots old tokens us contexts (suc i) (suc k)
    ]
  ]

  -- What `realloc` returns is the old markets, and the memory that it adds.
  unfoldable pub fetch_spot_markets :
      Option (ℕ → Market d) → Option HttpResult → List (Market d) → HlError × List (Market d)
  fetch_spot_markets realloc response existing =
      let err = check_response response in
      if not (is_success err) then (err, existing) else elim (spot_content response) [
        | none ↦ (parse, existing)
        | some (universe, tokens, contexts) ↦
            if length universe == 0 then (success, existing) else elim realloc [
              | none ↦ (memory, existing)
              | some old ↦ (success, existing ++ parse_spots old tokens universe contexts 0 0)
            ]
      ]

  -- Both requests; an error of one frees what the other brought.
  unfoldable pub hl_fetch_markets :
      Bool
      → Option (ℕ → Market d)
      → Option HttpResult
      → Option HttpResult
      → HlError × List (Market d)
  hl_fetch_markets calloc realloc swap_response spot_response =
      let (err, swaps) = fetch_swap_markets calloc swap_response in
      if not (is_success err)
      then (err, [])
      else let (err2, all) = fetch_spot_markets realloc spot_response swaps in
        if not (is_success err2) then (err2, []) else (success, all)
