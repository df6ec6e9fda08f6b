-- ===== src/Tickers.antt =====
-- Tickers: src/ticker.c, which makes one from the market list, and src/market_extended.c, which reads
-- the mid prices of all coins. The fields are those that each file writes, which are not all declared
-- in include/hl_ticker.h.
pub mod Found
pub mod Mids
use hyperliquid_c.Prelude.{
  ℕ, zero, suc, ◌+◌, ◌-◌, ◌*◌, ◌/◌, ◌%◌, ◌^◌, ◌≤◌, ◌<◌, min, String, ◌≡◌, refl, sym, ap, ap₂, ◌∙◌,
  ◌≢◌, ◌↔◌, ◌⊎◌, inl, inr, Bool, true, false, not, ◌&&◌, ◌||◌, Option, none, some, List, [], ◌∷◌,
  ◌++◌, map, arith, ltb, leb, ◌==◌, if◌then◌else◌, ltb→lt, lt→ltb, leb→le, ==_iff, ==_refl,
  Bool-cases, Option-cases, Sum-cases, &&-eq-true, ◌>>=◌, ◌>>◌, guard, some-injective, >>=-eq-some,
  guard-eq-some, length, get_elem?, set, take, drop, replicate, length-append, length-set,
  length-take, length-drop, length-replicate, get_elem?-drop, get_elem?-lt, drop-head, All-append,
  All-map, All-get_elem?, take_all, take-append_le, take-append-drop, append_cancel, All,
}
use hyperliquid_c.Prelude.Text.{
  CString, str, str_eq, str_eq_refl, str_eq→eq, str_eq_iff, split_at_char, strncpy, c_str, snprintf,
}
use hyperliquid_c.Types.{
  HlError, success, memory, not_found, parse, json, is_success, Doubles, CJson, HttpResult,
}
use mathlib.Core.Logic.{◌⊎◌, inl, inr}
use hyperliquid_c.Trades.{TradesApi, copied}
use hyperliquid_c.Orders.Parse.{reply_items}
use hyperliquid_c.Markets.{Market}
use hyperliquid_c.Markets.Parse.{parse_swaps, check_response, swap_content}
use hyperliquid_c.Contexts.{usdc_symbol, updated_real}

module _ (d : Doubles) where
  -- The ticker of src/ticker.c.
  pub record Ticker : Type 0 where
    pub symbol : CString
    pub last_price : d.Real
    pub close : d.Real
    pub bid : d.Real
    pub ask : d.Real
    pub previous_close : d.Real
    pub volume_24h : d.Real
    pub quote_volume : d.Real
    pub high_24h : d.Real
    pub low_24h : d.Real
    pub change_24h : d.Real
    pub timestamp : ℕ
    pub datetime : CString
    pub mark_price : d.Real
    pub oracle_price : d.Real
    pub funding_rate : d.Real
    pub open_interest : d.Real

  -- The bid and the ask, which stay 0 where the mark price is not positive.
  unfoldable pub bid_and_ask : d.Real → d.Real × d.Real
  bid_and_ask mark_price =
      let spread = d.mul mark_price (d.atof (str "0.0001")) in
      if d.less d.zero_real mark_price
      then (d.sub mark_price spread, d.add mark_price spread)
      else (d.zero_real, d.zero_real)

  -- `time` is time(NULL), and `datetime` gives the text that strftime writes, or none where gmtime
  -- fails.
  unfoldable pub parse_ticker_from_market : (ℕ → CString) → ℕ → Market d → Ticker
  parse_ticker_from_market datetime time m =
      let timestamp = time * 1000 % 2 ^ 64 in
      record {
        symbol = copied 64 m.symbol;
        last_price = m.mark_price;
        close = m.mark_price;
        bid = (bid_and_ask m.mark_price).0;
        ask = (bid_and_ask m.mark_price).1;
        previous_close = d.zero_real;
        volume_24h = m.day_volume;
        quote_volume = m.day_volume;
        high_24h = d.zero_real;
        low_24h = d.zero_real;
        change_24h = d.zero_real;
        timestamp = timestamp;
        datetime = datetime (timestamp / 1000);
        mark_price = m.mark_price;
        oracle_price = m.oracle_price;
        funding_rate = m.funding_rate;
        open_interest = m.open_interest;
      }

  -- The loop over the markets: the ticker of the first that has the symbol.
  unfoldable pub find_ticker :
      (ℕ → CString) → ℕ → CString → List (Market d) → HlError × Option Ticker
  find_ticker datetime time symbol [] = (not_found, none)
  find_ticker datetime time symbol (m ∷ ms) =
      let rest = find_ticker datetime time symbol ms in
      if str_eq m.symbol symbol
      then (success, some (parse_ticker_from_market datetime time m))
      else rest

  -- The ticker of src/market_extended.c.
  pub record MidTicker : Type 0 where
    pub symbol : CString
    pub last : d.Real
    pub bid : d.Real
    pub ask : d.Real
    pub close : d.Real
    pub timestamp : CString
    pub datetime : CString

-- Whether a coin is wanted: any is, where no symbols are given.
unfoldable pub has_symbol : List CString → CString → Bool
has_symbol [] coin = false
has_symbol (s ∷ symbols) coin = str_eq s coin || has_symbol symbols coin

unfoldable pub want_symbol : List CString → CString → Bool
want_symbol symbols coin = length symbols == 0 || has_symbol symbols coin

module _ (d : Doubles) (j : CJson d) where
  -- The same steps as for the swap markets of src/markets.c.
  unfoldable pub fetch_fresh_market_data : Bool → Option HttpResult → HlError × List (Market d)
  fetch_fresh_market_data calloc response =
      let err = check_response d j response in
      if not (is_success err) then (err, []) else elim (swap_content d j response) [
        | none ↦ (parse, [])
        | some (universe, contexts) ↦
            if length universe == 0
            then (success, [])
            else if not calloc
            then (memory, [])
            else (success, parse_swaps d j universe contexts 0)
      ]

  unfoldable pub hl_get_ticker :
      Bool → Option HttpResult → (ℕ → CString) → ℕ → CString → HlError × Option (Ticker d)
  hl_get_ticker calloc response datetime time symbol =
      let (err, markets) = fetch_fresh_market_data calloc response in
      if not (is_success err) then (err, none) else find_ticker d datetime time symbol markets

  -- The coin and the price of an item that is a pair.
  unfoldable pub mid_pair : j.Node → Option (CString × j.Node)
  mid_pair item = do
    guard (j.is_array item)
    guard (length (j.items item) == 2)
    coin ← get_elem? (j.items item) 0
    mid_price ← get_elem? (j.items item) 1
    guard (j.is_string coin)
    text ← j.valuestring coin
    some (text, mid_price)

  unfoldable pub mid_ticker : CString → CString → j.Node → MidTicker d
  mid_ticker now coin mid_price =
      let last = updated_real d j (some mid_price) d.zero_real in
      record {
        symbol = usdc_symbol 64 coin;
        last = last;
        bid = last;
        ask = last;
        close = last;
        timestamp = now;
        datetime = now;
      }

  -- What an item adds, if its coin is wanted; `now` is what hl_current_timestamp writes.
  unfoldable pub wanted_mid : CString → List CString → j.Node → Option (MidTicker d)
  wanted_mid now symbols item = do
    (coin, mid_price) ← mid_pair item
    guard (want_symbol symbols coin)
    some (mid_ticker now coin mid_price)

  -- The loop over the items, with room for so many tickers.
  unfoldable pub mids_loop : CString → List CString → ℕ → List j.Node → List (MidTicker d)
  mids_loop now symbols zero items = []
  mids_loop now symbols (suc room) [] = []
  mids_loop now symbols (suc room) (item ∷ items) =
      let skipped = mids_loop now symbols (suc room) items in
      let rest = mids_loop now symbols room items in
      elim (wanted_mid now symbols item) [ none ↦ skipped | some t ↦ t ∷ rest ]

  unfoldable pub hl_fetch_tickers :
      TradesApi → CString → List CString → HlError × Option (List (MidTicker d))
  hl_fetch_tickers x now symbols =
      elim (reply_items d j (x.post (str "/info") (str "{\"type\":\"allMids\"}"))) [
        | inl e ↦ (e, none)
        | inr items ↦
            let max_tickers = if ltb 0 (length symbols) then length symbols else length items in
            if length items == 0
            then (success, none)
            else if not x.calloc
            then (memory, none)
            else (success, some (mids_loop now symbols max_tickers items))
      ]
