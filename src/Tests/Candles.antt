-- ===== src/Tests/Candles.antt =====
-- Candles and time frames (src/ohlcv.c) at concrete inputs.
use mathlib.Core.Path.{refl}
use hyperliquid_c.Prelude.{
  ℕ, ◌+◌, ◌*◌, ◌≡◌, refl, true, ◌&&◌, some, List, [], ◌∷◌, ltb, leb, if◌then◌else◌, length,
}
use hyperliquid_c.Types.{success, invalid_params, pos}
use hyperliquid_c.Ohlcv.Candles.{
  Candle, hl_ohlcvs_calculate_sma, hl_ohlcvs_highest_high, sma_loop, sma_at, sum_loop, candle_value,
  extreme_loop,
}
use hyperliquid_c.Ohlcv.Candles.Average.{means, hl_ohlcvs_calculate_sma_lem}
use hyperliquid_c.Tests.Instances.{reals, less, added, halved}

abbrev candle : ℕ → Candle reals
candle n = record {
  timestamp = n;
  open_price = pos n;
  high = pos (n + 5);
  low = pos n;
  close_price = pos (2 * n);
  volume = pos 1;
}

abbrev candles : List (Candle reals)
candles = candle 3 ∷ candle 9 ∷ candle 4 ∷ []

averaged :
    hl_ohlcvs_calculate_sma reals candles 2 true ≡ some (success, pos 0 ∷ pos 12 ∷ pos 13 ∷ [])
unfolding hl_ohlcvs_calculate_sma sma_loop sma_at sum_loop candle_value added halved
averaged = refl

highest : hl_ohlcvs_highest_high reals (some candles) 0 3 ≡ some (pos 14)
unfolding hl_ohlcvs_highest_high extreme_loop less
highest = refl

hl_ohlcvs_calculate_sma_lem_example :
    hl_ohlcvs_calculate_sma reals candles 2 true
    ≡ some (
        if ltb 0 2 && leb 2 (length candles)
        then (success, means reals candles 2 true (length candles) 0)
        else (invalid_params, []))
hl_ohlcvs_calculate_sma_lem_example = hl_ohlcvs_calculate_sma_lem reals candles 2 true
