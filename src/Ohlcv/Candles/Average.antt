-- ===== src/Ohlcv/Candles/Average.antt =====
-- The moving average of src/ohlcv.c is the mean of the last `period` candles, and reads no other.
use hyperliquid_c.Prelude.{
  ℕ, zero, suc, ◌+◌, ◌-◌, ◌≤◌, ◌<◌, ◌≡◌, refl, inl, inr, Bool, ◌&&◌, some, List, [], ◌∷◌, map,
  arith, ltb, leb, if◌then◌else◌, Bool-cases, length, take, drop, get_elem?-drop,
}
use hyperliquid_c.Types.{success, invalid_params, Doubles}
use hyperliquid_c.Ohlcv.Candles.{
  Candle, candle_value, sum_loop, sma_at, sma_loop, hl_ohlcvs_calculate_sma,
}

module _ (d : Doubles) where
  -- The numbers added from the left.
  abbrev pub sum_from : d.Real → List d.Real → d.Real
  sum_from s [] = s
  sum_from s (x ∷ xs) = sum_from (d.add s x) xs

  -- The candles that end at index `i`.
  abbrev pub window : List (Candle d) → ℕ → ℕ → List (Candle d)
  window cs period i = take period (drop (i - (period - 1)) cs)

  abbrev pub mean : List (Candle d) → ℕ → Bool → ℕ → d.Real
  mean cs period use_close i =
      if ltb i (period - 1)
      then d.zero_real
      else d.divide (sum_from d.zero_real (map (candle_value d use_close) (window cs period i)))
          (d.of_nat period)

  abbrev pub means : List (Candle d) → ℕ → Bool → ℕ → ℕ → List d.Real
  means cs period use_close zero i = []
  means cs period use_close (suc n) i =
      mean cs period use_close i ∷ means cs period use_close n (suc i)

  sum_loop_lem :
      (cs : List (Candle d)) (use_close : Bool) (n idx : ℕ) (s : d.Real)
      → idx + n ≤ length cs
      → sum_loop d cs use_close n idx s
        ≡ some (sum_from s (map (candle_value d use_close) (take n (drop idx cs))))
  unfolding sum_loop
  sum_loop_lem cs use_close zero idx s h = refl
  sum_loop_lem cs use_close (suc n) idx s h =
      let (c, p, q) = get_elem?-drop cs idx (omega arith) in
      rw (sum_loop, p, q)
        (sum_loop_lem cs use_close n (suc idx) (d.add s (candle_value d use_close c)) (omega arith))

  sma_at_lem :
      (cs : List (Candle d)) (period : ℕ) (use_close : Bool) (i : ℕ)
      → 0 < period
      → i < length cs
      → sma_at d cs period use_close i ≡ some (mean cs period use_close i)
  unfolding sma_at
  sma_at_lem cs period use_close i pos h = elim (Bool-cases (ltb i (period - 1))) [
    | inl early ↦ rw early refl
    | inr late ↦
        rw (late, sum_loop_lem cs use_close period (i - (period - 1)) d.zero_real (ground arith))
          refl
  ]

  sma_loop_lem :
      (cs : List (Candle d)) (period : ℕ) (use_close : Bool) (n i : ℕ)
      → 0 < period
      → i + n ≤ length cs
      → sma_loop d cs period use_close n i ≡ some (means cs period use_close n i)
  unfolding sma_loop
  sma_loop_lem cs period use_close zero i pos h = refl
  sma_loop_lem cs period use_close (suc n) i pos h =
      simp
        (
          sma_at_lem cs period use_close i pos (omega arith),
          sma_loop_lem cs period use_close n (suc i) pos (omega arith),
        )
        refl

  -- For a positive period of at most the number of candles, every number written is the sum of
  -- the last `period` candles' values, added from the oldest on, divided by the period, or zero
  -- where there are fewer; else nothing is written. No read is out of bounds.
  pub hl_ohlcvs_calculate_sma_lem :
      (cs : List (Candle d)) (period : ℕ) (use_close : Bool)
      → hl_ohlcvs_calculate_sma d cs period use_close
        ≡ some (
            if ltb 0 period && leb period (length cs)
            then (success, means cs period use_close (length cs) 0)
            else (invalid_params, []))
  unfolding hl_ohlcvs_calculate_sma
  hl_ohlcvs_calculate_sma_lem cs zero use_close = refl
  hl_ohlcvs_calculate_sma_lem cs (suc p) use_close =
      let e = sma_loop_lem cs (suc p) use_close (length cs) 0 (omega arith) (omega arith) in
      elim (Bool-cases (ltb (length cs) (suc p))) [
        | inl short ↦ ground arith
        | inr enough ↦ simp (hl_ohlcvs_calculate_sma, e, enough) (ground arith)
      ]
