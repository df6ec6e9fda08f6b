-- ===== src/Ohlcv/Fetch/Bounds.antt =====
-- What a fetch of src/ohlcv.c returns, whatever the exchange answers.
use mathlib.Core.Logic.{inl, inr}
use hyperliquid_c.Prelude.{
  ℕ, zero, suc, ◌≤◌, ◌≡◌, inl, inr, true, false, Option, none, some, List, [], ◌∷◌, arith, ◌==◌,
  if◌then◌else◌, ==_iff, Bool-cases, Option-cases, Sum-cases, ◌>>=◌, ◌>>◌, guard, length,
}
use hyperliquid_c.Prelude.Text.{CString}
use hyperliquid_c.Types.{HlError, success, HttpResult, Doubles, CJson, is_success, is_lv3_success}
use hyperliquid_c.Markets.{Market}
use hyperliquid_c.Markets.Lookup.Spots.{lookup-code}
use hyperliquid_c.Markets.Lookup.{Api, info_url, lookup, coin_text}
use hyperliquid_c.Ohlcv.TimeFrames.{validate_timeframe, request_start}
use hyperliquid_c.Ohlcv.Candles.{Candle}
use hyperliquid_c.Ohlcv.Fetch.{
  parse_candles, parse_ohlcv_candle, candle_count, candles_of, end_time_of, hl_fetch_ohlcv,
  candle_request,
}

success_is : (e : HlError) → e ≡ success → is_success e ≡ false → ⊥
unfolding is_success
success_is e h k = ground arith

module _ (d : Doubles) (j : CJson d) where
  parse_candles-length : (n : ℕ) (items : List j.Node) → length (parse_candles d j n items) ≤ n
  unfolding parse_candles
  parse_candles-length zero items = omega arith
  parse_candles-length (suc n) [] = omega arith
  parse_candles-length (suc n) (item ∷ items) =
      let rest = parse_candles-length n items in
      elim (Option-cases (parse_ohlcv_candle d j item)) [
        | inl x ↦ rw (parse_candles, x) (omega arith)
        | inr (l, x) ↦ rw (parse_candles, x) (omega arith)
      ]

  -- At most `limit` candles, where that is not 0.
  abbrev pub IsLimited : ℕ → Option (List (Candle d)) → Type 0
  IsLimited limit none = Unit
  IsLimited limit (some cs) = length cs ≤ (if limit == 0 then length cs else limit)

  -- The request that a fetch of the given range makes.
  abbrev pub requested :
      Api d → CString → Option ℕ → Option ℕ → Option ℕ → ℕ × Market d → HttpResult
  requested x timeframe since limit until found = x.post (info_url x.testnet) (
      candle_request (coin_text d found) timeframe
        (request_start since limit (end_time_of d j x until) timeframe) (end_time_of d j x until))

  candles_of-success :
      (x : Api d) (symbol timeframe : CString) (limit : ℕ) (r : HttpResult)
      → (candles_of d j x symbol timeframe (some limit) r).0 ≡ success
      → (is_lv3_success r.err ≡ true)
        × (r.status_code ≡ 200)
        × IsLimited limit (candles_of d j x symbol timeframe (some limit) r).1.candles
  unfolding candles_of candle_count
  candles_of-success x symbol timeframe limit r h = elim (Bool-cases (is_lv3_success r.err)) [
    | inr p ↦ cc (rw (candles_of, p) at h)
    | inl p ↦ elim (Bool-cases (r.status_code == 200)) [
      | inr q ↦ cc (rw (candles_of, p, q) at h)
      | inl q ↦
          let ok = (==_iff r.status_code 200).0 q in
          elim (Option-cases (
            r.body >>= λ text.
            j.parse_text text >>= λ json. guard (j.is_array json) >> some json)) [
              | inl y ↦ cc (rw (candles_of, p, q, y) at h)
              | inr (json, y) ↦ elim (Bool-cases (length (j.items json) == 0)) [
                | inl u ↦ (p, ok, rw (candles_of, p, q, y, u) tt)
                | inr u ↦ elim (Bool-cases x.calloc) [
                  | inr v ↦ cc (rw (candles_of, p, q, y, u, v) at h)
                  | inl v ↦
                      let short =
                        parse_candles-length (candle_count d j (some limit) (length (j.items json)))
                          (j.items json) in
                      (p, ok, rw (candles_of, p, q, y, u, v) (ground (arith, short)))
                ]
              ]
            ]
    ]
  ]

  -- A fetch with a limit returns success only for an accepted time frame, with fetched markets that
  -- have the symbol, after the request for the chosen range was answered with status 200; and then
  -- there are at most `limit` candles, where the limit is not 0.
  pub hl_fetch_ohlcv-success :
      (x : Api d) (symbol timeframe : CString) (since until : Option ℕ) (limit : ℕ)
      → (hl_fetch_ohlcv d j x symbol timeframe since (some limit) until).0 ≡ success
      → (is_success (validate_timeframe (some timeframe)) ≡ true)
        × (is_success x.markets.0 ≡ true)
        × ((found : ℕ × Market d) × (lookup d x.markets.1 symbol ≡ inr found)
            × ((requested x timeframe since (some limit) until found).status_code ≡ 200))
        × IsLimited limit (hl_fetch_ohlcv d j x symbol timeframe since (some limit) until).1.candles
  unfolding hl_fetch_ohlcv
  hl_fetch_ohlcv-success x symbol timeframe since until limit h =
      elim (Bool-cases (is_success (validate_timeframe (some timeframe)))) [
        | inr p ↦ cc (rw (hl_fetch_ohlcv, p) at h)
        | inl p ↦ elim (Bool-cases (is_success x.markets.0)) [
          | inr q ↦ absurd (success_is _ (rw (hl_fetch_ohlcv, p, q) at h) q)
          | inl q ↦ elim (Sum-cases (lookup d x.markets.1 symbol)) [
            | inl (e, u) ↦ absurd (
                success_is e (rw (hl_fetch_ohlcv, p, q, u) at h)
                  (lookup-code d x.markets.1 symbol u))
            | inr (found, u) ↦ elim (Bool-cases x.http) [
              | inr v ↦ cc (rw (hl_fetch_ohlcv, p, q, u, v) at h)
              | inl v ↦
                  let (ok, status, short) =
                    candles_of-success x symbol timeframe limit
                      (requested x timeframe since (some limit) until found)
                      (simp (hl_fetch_ohlcv, p, q, u, v) at h) in
                  (p, q, (found, u, status), simp (hl_fetch_ohlcv, p, q, u, v) short)
            ]
          ]
        ]
      ]
