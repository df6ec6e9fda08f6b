-- ===== src/Orderbook.antt =====
-- src/orderbook.c: fetching an order book, and what is computed from one. A read past the end of an
-- array is undefined in C, so the functions that read return `none` there. `hl_orderbook_t` and
-- `hl_book_level_t` are declared nowhere in the repository: their fields are the ones that the code
-- uses, and the size of the symbol's buffer is an argument.
pub mod Volumes
pub mod Fetched
use mathlib.Core.Logic.{◌⊎◌, inl, inr}
use hyperliquid_c.Prelude.{
  ℕ, zero, suc, ◌+◌, ◌-◌, ◌*◌, ◌/◌, ◌%◌, ◌^◌, ◌≤◌, ◌<◌, min, String, ◌≡◌, refl, sym, ap, ap₂, ◌∙◌,
  ◌≢◌, ◌↔◌, ◌⊎◌, inl, inr, Bool, true, false, not, ◌&&◌, ◌||◌, Option, none, some, List, [], ◌∷◌,
  ◌++◌, map, arith, ltb, leb, ◌==◌, if◌then◌else◌, ltb→lt, lt→ltb, leb→le, ==_iff, ==_refl,
  Bool-cases, Option-cases, Sum-cases, &&-eq-true, ◌>>=◌, ◌>>◌, guard, some-injective, >>=-eq-some,
  guard-eq-some, length, get_elem?, set, take, drop, replicate, length-append, length-set,
  length-take, length-drop, length-replicate, get_elem?-drop, get_elem?-lt, drop-head, All-append,
  All-map, take_all, take-append_le, take-append-drop, append_cancel, All,
}
use hyperliquid_c.Prelude.Text.{
  CString, str, str_eq, str_eq_refl, str_eq→eq, str_eq_iff, split_at_char, strncpy, c_str, snprintf,
}
use hyperliquid_c.Types.{
  HlError, success, invalid_params, network, api, parse, memory, HttpResult, Doubles, CJson,
  is_success, is_lv3_success,
}
use hyperliquid_c.Markets.Lookup.{Api, info_url, lookup, coin_text}

unfoldable pub book_request : CString → CString
book_request coin = snprintf 256 (str "{\"type\":\"l2Book\",\"coin\":\"" ++ coin ++ str "\"}")

module _ (d : Doubles) where
  -- `hl_book_level_t`
  pub record Level : Type 0 where
    pub price : d.Real
    pub quantity : d.Real

  -- `hl_orderbook_t`; a side that is `none` is the null pointer with the count 0.
  pub record Book : Type 0 where
    pub symbol : CString
    pub bids : Option (List Level)
    pub asks : Option (List Level)
    pub timestamp_ms : ℕ

  abbrev pub empty_book : Book
  empty_book = record { symbol = []; bids = none; asks = none; timestamp_ms = 0 }

  unfoldable pub best_price : Option (List Level) → d.Real
  best_price none = d.zero_real
  best_price (some []) = d.zero_real
  best_price (some (l ∷ ls)) = l.price

  unfoldable pub hl_orderbook_get_best_bid : Book → d.Real
  hl_orderbook_get_best_bid b = best_price b.bids

  unfoldable pub hl_orderbook_get_best_ask : Book → d.Real
  hl_orderbook_get_best_ask b = best_price b.asks

  unfoldable pub hl_orderbook_get_spread : Book → d.Real
  hl_orderbook_get_spread b =
      let bid = hl_orderbook_get_best_bid b in
      let ask = hl_orderbook_get_best_ask b in
      if d.less d.zero_real bid && d.less d.zero_real ask then d.sub ask bid else d.zero_real

  -- The loop: `n` levels from index `i` on are added to `total`.
  unfoldable pub volume_loop : List Level → ℕ → ℕ → d.Real → Option d.Real
  volume_loop ls zero i total = some total
  volume_loop ls (suc n) i total = elim (get_elem? ls i) [
    | none ↦ none
    | some l ↦ volume_loop ls n (suc i) (d.add total l.quantity)
  ]

  unfoldable pub side_volume : Option (List Level) → ℕ → Option d.Real
  side_volume none depth = some d.zero_real
  side_volume (some ls) depth =
      let levels = if depth == 0 then length ls else depth in
      volume_loop ls (if ltb (length ls) levels then length ls else levels) 0 d.zero_real

  unfoldable pub hl_orderbook_get_bid_volume : Book → ℕ → Option d.Real
  hl_orderbook_get_bid_volume b depth = side_volume b.bids depth

  unfoldable pub hl_orderbook_get_ask_volume : Book → ℕ → Option d.Real
  hl_orderbook_get_ask_volume b depth = side_volume b.asks depth

module _ (d : Doubles) (j : CJson d) where
  -- A field that must be a text, as a number.
  unfoldable pub text_real : j.Node → CString → Option d.Real
  text_real item key = do
    n ← j.get_object_item item key
    guard (j.is_string n)
    s ← j.valuestring n
    some (d.atof s)

  -- `none` is HL_ERROR_PARSE.
  unfoldable pub parse_orderbook_level : j.Node → Option (Level d)
  parse_orderbook_level item = do
    price ← text_real item (str "px")
    quantity ← text_real item (str "sz")
    some (record { price = price; quantity = quantity })

  -- The loop over the first `n` items; one that is not a level is left out.
  unfoldable pub parse_levels : ℕ → List j.Node → List (Level d)
  parse_levels zero items = []
  parse_levels (suc n) [] = []
  parse_levels (suc n) (item ∷ items) =
      let rest = parse_levels n items in
      elim (parse_orderbook_level item) [ none ↦ rest | some l ↦ l ∷ rest ]

  unfoldable pub parse_orderbook_levels : Bool → j.Node → ℕ → HlError × Option (List (Level d))
  parse_orderbook_levels calloc levels max_depth =
      let size = length (j.items levels) in
      let num = if ltb 0 max_depth && ltb max_depth size then max_depth else size in
      if not (j.is_array levels)
      then (parse, none)
      else if size == 0
      then (success, none)
      else if not calloc
      then (memory, none)
      else (success, some (parse_levels num (j.items levels)))

  -- The two arrays of levels and the object, where the text has them.
  unfoldable pub book_parts : Option CString → Option (j.Node × j.Node × j.Node)
  book_parts body = do
    text ← body
    json ← j.parse_text text
    levels ← j.get_object_item json (str "levels")
    guard (j.is_array levels)
    guard (leb 2 (length (j.items levels)))
    bids ← get_elem? (j.items levels) 0
    asks ← get_elem? (j.items levels) 1
    some (json, bids, asks)

  unfoldable pub book_time : Api d → j.Node → ℕ
  book_time x json =
      elim (do n ← j.get_object_item json (str "time"); guard (j.is_string n); j.valuestring n) [
        | none ↦ x.now * 1000 % 2 ^ 64
        | some s ↦ d.strtoull s
      ]

  -- The result, the book, and whether the fetched markets are still allocated.
  pub record Fetch : Type 0 where
    pub code : HlError
    pub book : Book d
    pub markets_left : Bool

  -- From the answer of the server on.
  unfoldable pub book_of : ℕ → Api d → CString → ℕ → HttpResult → Fetch
  book_of symbol_size x symbol depth r =
      if not (is_lv3_success r.err)
      then record { code = network; book = empty_book d; markets_left = true }
      else if not (r.status_code == 200)
      then record { code = api; book = empty_book d; markets_left = true }
      else elim (book_parts r.body) [
        | none ↦ record { code = parse; book = empty_book d; markets_left = true }
        | some (json, bids_json, asks_json) ↦
            let (bid_err, bids) = parse_orderbook_levels x.calloc bids_json depth in
            let (ask_err, asks) = parse_orderbook_levels x.calloc asks_json depth in
            if not (is_success bid_err)
            then record { code = bid_err; book = empty_book d; markets_left = false }
            else if not (is_success ask_err)
            then record { code = ask_err; book = empty_book d; markets_left = false }
            else record {
              code = success;
              book = record {
                symbol = c_str (strncpy (replicate symbol_size 0) symbol (symbol_size - 1));
                bids = bids;
                asks = asks;
                timestamp_ms = book_time x json;
              };
              markets_left = false;
            }
      ]

  unfoldable pub hl_fetch_order_book : ℕ → Api d → CString → ℕ → Fetch
  hl_fetch_order_book symbol_size x symbol depth =
      if not (is_success x.markets.0)
      then record { code = x.markets.0; book = empty_book d; markets_left = false }
      else elim (lookup d x.markets.1 symbol) [
        | inl e ↦ record { code = e; book = empty_book d; markets_left = false }
        | inr found ↦
            if not x.http
            then record { code = invalid_params; book = empty_book d; markets_left = true }
            else book_of symbol_size x symbol depth
                (x.post (info_url x.testnet) (book_request (coin_text d found)))
      ]
