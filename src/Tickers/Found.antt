-- ===== src/Tickers/Found.antt =====
-- The ticker of src/ticker.c against the market that src/markets.c finds.
use hyperliquid_c.Prelude.{
  ℕ, ◌≡◌, refl, inl, inr, Bool, not, Option, none, some, List, [], ◌∷◌, if◌then◌else◌, Bool-cases,
}
use hyperliquid_c.Prelude.Text.{CString, str_eq}
use hyperliquid_c.Types.{HlError, is_success, Doubles, CJson, HttpResult}
use hyperliquid_c.Markets.{Market, hl_get_market}
use hyperliquid_c.Markets.Parse.{fetch_swap_markets}
use hyperliquid_c.Tickers.{
  Ticker, parse_ticker_from_market, find_ticker, fetch_fresh_market_data, hl_get_ticker,
}

module _ (d : Doubles) where
  -- What a search of a market gives, with the ticker in the place of the market.
  abbrev pub with_ticker :
      (ℕ → CString) → ℕ → HlError × Option (Market d) → HlError × Option (Ticker d)
  with_ticker datetime time found = (
    found.0,
    elim found.1 [ none ↦ none | some m ↦ some (parse_ticker_from_market d datetime time m) ],
  )

  find_ticker_lem :
      (datetime : ℕ → CString) (time : ℕ) (symbol : CString) (ms : List (Market d))
      → find_ticker d datetime time symbol ms
        ≡ with_ticker datetime time (hl_get_market d ms symbol)
  unfolding find_ticker hl_get_market
  find_ticker_lem datetime time symbol [] = refl
  find_ticker_lem datetime time symbol (m ∷ ms) = elim (Bool-cases (str_eq m.symbol symbol)) [
    | inl e ↦ simp (find_ticker, hl_get_market, e) refl
    | inr e ↦ simp (find_ticker, hl_get_market, e) (find_ticker_lem datetime time symbol ms)
  ]

  answer_lem :
      (datetime : ℕ → CString) (time : ℕ) (symbol : CString) (p : HlError × List (Market d))
      → (if not (is_success p.0) then (p.0, none) else find_ticker d datetime time symbol p.1) ≡ (
          if is_success p.0
          then with_ticker datetime time (hl_get_market d p.1 symbol)
          else (p.0, none))
  answer_lem datetime time symbol p = elim (Bool-cases (is_success p.0)) [
    | inl e ↦ rw e (find_ticker_lem datetime time symbol p.1)
    | inr e ↦ rw e refl
  ]

module _ (d : Doubles) (j : CJson d) where
  -- hl_get_ticker answers what hl_get_market finds in the swap markets of the same response, as a
  -- ticker: it has the same result, and the ticker is made from the market that is found. Where the
  -- markets cannot be fetched, it returns that error and no ticker.
  pub hl_get_ticker_lem :
      (calloc : Bool) (response : Option HttpResult) (datetime : ℕ → CString) (time : ℕ)
      (symbol : CString)
      → let (err, markets) = fetch_swap_markets d j calloc response in
        hl_get_ticker d j calloc response datetime time symbol ≡ (
          if is_success err
          then with_ticker d datetime time (hl_get_market d markets symbol)
          else (err, none))
  unfolding hl_get_ticker fetch_fresh_market_data fetch_swap_markets
  hl_get_ticker_lem calloc response datetime time symbol =
      answer_lem d datetime time symbol (fetch_swap_markets d j calloc response)
