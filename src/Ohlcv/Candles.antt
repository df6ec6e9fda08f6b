-- ===== src/Ohlcv/Candles.antt =====
-- src/ohlcv.c: what is computed from fetched candles. A read past the end of the array is undefined
-- in C, so the functions that read return `none` there.
pub mod Average
pub mod Extremes
use hyperliquid_c.Prelude.{
  ℕ, zero, suc, ◌+◌, ◌-◌, ◌*◌, ◌/◌, ◌%◌, ◌^◌, ◌≤◌, ◌<◌, min, String, ◌≡◌, refl, sym, ap, ap₂, ◌∙◌,
  ◌≢◌, ◌↔◌, ◌⊎◌, inl, inr, Bool, true, false, not, ◌&&◌, ◌||◌, Option, none, some, List, [], ◌∷◌,
  ◌++◌, map, arith, ltb, leb, ◌==◌, if◌then◌else◌, ltb→lt, lt→ltb, leb→le, ==_iff, ==_refl,
  Bool-cases, Option-cases, &&-eq-true, ◌>>=◌, ◌>>◌, guard, some-injective, >>=-eq-some,
  guard-eq-some, length, get_elem?, set, take, drop, replicate, length-append, length-set,
  length-take, length-drop, length-replicate, take_all, take-append_le, take-append-drop,
  append_cancel, All,
}
use hyperliquid_c.Types.{HlError, success, invalid_params, Doubles}

module _ (d : Doubles) where
  -- `struct hl_ohlcv`
  pub record Candle : Type 0 where
    pub timestamp : ℕ
    pub open_price : d.Real
    pub high : d.Real
    pub low : d.Real
    pub close_price : d.Real
    pub volume : d.Real

  -- The `count` valid candles of `struct hl_ohlcvs`; `none` is the null pointer.
  unfoldable pub hl_ohlcvs_get_latest : Option (List (Candle)) → Option (Candle)
  hl_ohlcvs_get_latest none = none
  hl_ohlcvs_get_latest (some cs) = if length cs == 0 then none else get_elem? cs (length cs - 1)

  unfoldable pub hl_ohlcvs_get_candle : Option (List Candle) → ℕ → Option Candle
  hl_ohlcvs_get_candle none index = none
  hl_ohlcvs_get_candle (some cs) index = if leb (length cs) index then none else get_elem? cs index

  -- The number that a candle adds to the sum.
  unfoldable pub candle_value : Bool → Candle → d.Real
  candle_value use_close c =
      if use_close then c.close_price else d.divide (d.add c.high c.low) (d.of_nat 2)

  -- The inner loop: `n` candles from index `idx` on are added to `sum`.
  unfoldable pub sum_loop : List Candle → Bool → ℕ → ℕ → d.Real → Option d.Real
  sum_loop cs use_close zero idx sum = some sum
  sum_loop cs use_close (suc n) idx sum = elim (get_elem? cs idx) [
    | none ↦ none
    | some c ↦ sum_loop cs use_close n (suc idx) (d.add sum (candle_value use_close c))
  ]

  unfoldable pub sma_at : List Candle → ℕ → Bool → ℕ → Option d.Real
  sma_at cs period use_close i = if ltb i (period - 1) then some d.zero_real else do
    sum ← sum_loop cs use_close period (i - (period - 1)) d.zero_real
    some (d.divide sum (d.of_nat period))

  -- The outer loop: the numbers written from index `i` on.
  unfoldable pub sma_loop : List Candle → ℕ → Bool → ℕ → ℕ → Option (List d.Real)
  sma_loop cs period use_close zero i = some []
  sma_loop cs period use_close (suc n) i = do
    x ← sma_at cs period use_close i
    xs ← sma_loop cs period use_close n (suc i)
    some (x ∷ xs)

  -- The result and the numbers written to `sma`.
  unfoldable pub hl_ohlcvs_calculate_sma : List Candle → ℕ → Bool → Option (HlError × List d.Real)
  hl_ohlcvs_calculate_sma cs period use_close =
      let sma = sma_loop cs period use_close (length cs) 0 in
      if period == 0 || ltb (length cs) period
      then some (invalid_params, [])
      else elim sma [ none ↦ none | some xs ↦ some (success, xs) ]

  -- size_t
  abbrev pub end_index : ℕ → ℕ → ℕ → ℕ
  end_index length start_index count =
      let sum = (start_index + count) % 2 ^ 64 in if ltb length sum then length else sum

  -- The loops of the two functions below: `n` candles from index `i` on, of which one that beats
  -- the best so far takes its place.
  unfoldable pub extreme_loop :
      (Candle → d.Real) → (d.Real → d.Real → Bool) → List Candle → ℕ → ℕ → d.Real → Option d.Real
  extreme_loop key beaten cs zero i best = some best
  extreme_loop key beaten cs (suc n) i best = elim (get_elem? cs i) [
    | none ↦ none
    | some c ↦ extreme_loop key beaten cs n (suc i) (if beaten best (key c) then key c else best)
  ]

  unfoldable pub hl_ohlcvs_highest_high : Option (List Candle) → ℕ → ℕ → Option d.Real
  hl_ohlcvs_highest_high none start_index count = some d.zero_real
  hl_ohlcvs_highest_high (some cs) start_index count =
      if leb (length cs) start_index || count == 0
      then some d.zero_real
      else extreme_loop (λ c. c.high) (λ highest x. d.less highest x) cs
          (end_index (length cs) start_index count - start_index) start_index d.zero_real

  unfoldable pub hl_ohlcvs_lowest_low : Option (List Candle) → ℕ → ℕ → Option d.Real
  hl_ohlcvs_lowest_low none start_index count = some d.zero_real
  hl_ohlcvs_lowest_low (some cs) start_index count =
      if leb (length cs) start_index || count == 0
      then some d.zero_real
      else elim (get_elem? cs start_index) [
        | none ↦ none
        | some c ↦
            extreme_loop (λ c. c.low) (λ lowest x. d.less x lowest) cs
              (end_index (length cs) start_index count - (start_index + 1)) (start_index + 1) c.low
      ]
