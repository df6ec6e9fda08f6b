-- ===== src/Ohlcv/Fetch.antt =====
-- src/ohlcv.c: candles from JSON, and the request for them.
pub mod Bounds
use mathlib.Core.Logic.{◌⊎◌, inl, inr}
use hyperliquid_c.Prelude.{
  ℕ, zero, suc, ◌+◌, ◌-◌, ◌*◌, ◌/◌, ◌%◌, ◌^◌, ◌≤◌, ◌<◌, min, String, ◌≡◌, refl, sym, ap, ap₂, ◌∙◌,
  ◌≢◌, ◌↔◌, ◌⊎◌, inl, inr, Bool, true, false, not, ◌&&◌, ◌||◌, Option, none, some, List, [], ◌∷◌,
  ◌++◌, map, arith, ltb, leb, ◌==◌, if◌then◌else◌, ltb→lt, lt→ltb, leb→le, ==_iff, ==_refl,
  Bool-cases, Option-cases, Sum-cases, &&-eq-true, ◌>>=◌, ◌>>◌, guard, some-injective, >>=-eq-some,
  guard-eq-some, length, get_elem?, set, take, drop, replicate, length-append, length-set,
  length-take, length-drop, length-replicate, get_elem?-drop, get_elem?-lt, drop-head, All-append,
  All-map, All-get_elem?, take_all, take-append_le, take-append-drop, append_cancel, All,
}
use hyperliquid_c.Prelude.Text.{
  CString, str, str_eq, str_eq_refl, str_eq→eq, str_eq_iff, split_at_char, strncpy, c_str, snprintf,
}
use hyperliquid_c.Types.{
  HlError, success, invalid_params, network, api, parse, memory, HttpResult, Doubles, CJson,
  is_success, is_lv3_success, decimal,
}
use hyperliquid_c.Markets.Lookup.{Api, info_url, lookup, coin_text}
use hyperliquid_c.Ohlcv.TimeFrames.{validate_timeframe, request_start}
use hyperliquid_c.Ohlcv.Candles.{Candle}

-- The body of the request.
unfoldable pub candle_request : CString → CString → ℕ → ℕ → CString
candle_request coin timeframe start_time end_time = snprintf 512 (
    str "{\"type\":\"candleSnapshot\",\"req\":{\"coin\":\""
    ++ coin
    ++ str "\",\"interval\":\""
    ++ timeframe
    ++ str "\",\"startTime\":"
    ++ decimal start_time
    ++ str ",\"endTime\":"
    ++ decimal end_time
    ++ str "}}")

module _ (d : Doubles) where
  -- `struct hl_ohlcvs`; no candles are the null pointer with the count 0.
  pub record Candles : Type 0 where
    pub candles : Option (List (Candle d))
    pub symbol : CString
    pub timeframe : CString

  abbrev pub no_candles : Candles
  no_candles = record { candles = none; symbol = []; timeframe = [] }

  -- Where the structure is not null, freeing it leaves it empty.
  unfoldable pub hl_ohlcvs_free : Candles → Candles
  hl_ohlcvs_free c = no_candles

module _ (d : Doubles) (j : CJson d) where
  -- A field that must be a text.
  unfoldable pub text_field : j.Node → CString → Option CString
  text_field item key = do n ← j.get_object_item item key; guard (j.is_string n); j.valuestring n

  -- `none` is HL_ERROR_PARSE.
  unfoldable pub parse_ohlcv_candle : j.Node → Option (Candle d)
  parse_ohlcv_candle item = do
    t ← text_field item (str "t")
    o ← text_field item (str "o")
    h ← text_field item (str "h")
    l ← text_field item (str "l")
    c ← text_field item (str "c")
    v ← text_field item (str "v")
    some (record {
      timestamp = d.strtoull t;
      open_price = d.atof o;
      high = d.atof h;
      low = d.atof l;
      close_price = d.atof c;
      volume = d.atof v;
    })

  -- The loop over the first `n` items; one that is no candle is left out.
  unfoldable pub parse_candles : ℕ → List j.Node → List (Candle d)
  parse_candles zero items = []
  parse_candles (suc n) [] = []
  parse_candles (suc n) (item ∷ items) =
      let rest = parse_candles n items in
      elim (parse_ohlcv_candle item) [ none ↦ rest | some c ↦ c ∷ rest ]

  -- The number of items that are looked at.
  unfoldable pub candle_count : Option ℕ → ℕ → ℕ
  candle_count none size = size
  candle_count (some limit) size = if ltb 0 limit && ltb limit size then limit else size

  -- From the answer of the server on.
  unfoldable pub candles_of :
      Api d → CString → CString → Option ℕ → HttpResult → HlError × Candles d
  candles_of x symbol timeframe limit r =
      if not (is_lv3_success r.err)
      then (network, no_candles d)
      else if not (r.status_code == 200)
      then (api, no_candles d)
      else elim (do text ← r.body; json ← j.parse_text text; guard (j.is_array json); some json) [
        | none ↦ (parse, no_candles d)
        | some json ↦
            if length (j.items json) == 0
            then (success, no_candles d)
            else if not x.calloc
            then (memory, no_candles d)
            else (
              success,
              record {
                candles =
                    some
                      (parse_candles (candle_count limit (length (j.items json))) (j.items json));
                symbol = c_str (strncpy (replicate 64 0) symbol 63);
                timeframe = c_str (strncpy (replicate 16 0) timeframe 15);
              },
            )
      ]

  unfoldable pub end_time_of : Api d → Option ℕ → ℕ
  end_time_of x none = x.now * 1000 % 2 ^ 64
  end_time_of x (some until) = until

  unfoldable pub hl_fetch_ohlcv :
      Api d → CString → CString → Option ℕ → Option ℕ → Option ℕ → HlError × Candles d
  hl_fetch_ohlcv x symbol timeframe since limit until =
      let end_time = end_time_of x until in
      if not (is_success (validate_timeframe (some timeframe)))
      then (invalid_params, no_candles d)
      else if not (is_success x.markets.0)
      then (x.markets.0, no_candles d)
      else elim (lookup d x.markets.1 symbol) [
        | inl e ↦ (e, no_candles d)
        | inr found ↦
            if not x.http
            then (invalid_params, no_candles d)
            else candles_of x symbol timeframe limit (
                x.post (info_url x.testnet) (
                  candle_request (coin_text d found) timeframe
                    (request_start since limit end_time timeframe) end_time))
      ]
