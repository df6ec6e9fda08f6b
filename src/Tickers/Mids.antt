-- ===== src/Tickers/Mids.antt =====
-- The tickers of src/market_extended.c.
use hyperliquid_c.Prelude.{
  ℕ, zero, suc, ◌≤◌, ◌<◌, ◌≡◌, sym, ap, ◌∙◌, inl, inr, true, Option, none, some, List, [], ◌∷◌,
  arith, ltb, ◌==◌, if◌then◌else◌, Bool-cases, Option-cases, Sum-cases, guard, some-injective,
  >>=-eq-some, guard-eq-some, length, All,
}
use hyperliquid_c.Prelude.Text.{CString, str}
use mathlib.Core.Logic.{inl, inr}
use hyperliquid_c.Types.{Doubles, CJson}
use hyperliquid_c.Trades.{TradesApi}
use hyperliquid_c.Orders.Parse.{reply_items}
use hyperliquid_c.Contexts.{usdc_symbol}
use hyperliquid_c.Tickers.{
  MidTicker, want_symbol, mid_pair, mid_ticker, wanted_mid, mids_loop, hl_fetch_tickers,
}

module _ (d : Doubles) (j : CJson d) where
  -- It is the ticker of a coin that is wanted, with one price in all its places.
  abbrev pub IsMid : List CString → MidTicker d → Type 0
  IsMid symbols t =
      (coin : CString) × (want_symbol symbols coin ≡ true)
      × (t.symbol ≡ usdc_symbol 64 coin)
      × (t.bid ≡ t.last)
      × (t.ask ≡ t.last)
      × (t.close ≡ t.last)

  wanted_mid-IsMid :
      (now : CString) (symbols : List CString) (item : j.Node) (t : MidTicker d)
      → wanted_mid d j now symbols item ≡ some t
      → IsMid symbols t
  unfolding wanted_mid mid_ticker
  wanted_mid-IsMid now symbols item t h =
      let ((coin, mid_price), _, h1) = >>=-eq-some (mid_pair d j item) _ h in
      let (_, wanted, h2) = >>=-eq-some (guard (want_symbol symbols coin)) _ h1 in
      let e = some-injective _ _ h2 in
      (
        coin,
        guard-eq-some _ wanted,
        ap (λ x. x.symbol) (sym e),
        ap (λ x. x.bid) (sym e) ∙ ap (λ x. x.last) e,
        ap (λ x. x.ask) (sym e) ∙ ap (λ x. x.last) e,
        ap (λ x. x.close) (sym e) ∙ ap (λ x. x.last) e,
      )

  mids_loop-All :
      (now : CString) (symbols : List CString) (room : ℕ) (items : List j.Node)
      → All (IsMid symbols) (mids_loop d j now symbols room items)
        × (length (mids_loop d j now symbols room items) ≤ room)
        × (length (mids_loop d j now symbols room items) ≤ length items)
  unfolding mids_loop
  mids_loop-All now symbols zero items = (tt, omega arith, omega arith)
  mids_loop-All now symbols (suc room) [] = (tt, omega arith, omega arith)
  mids_loop-All now symbols (suc room) (item ∷ items) =
      elim (Option-cases (wanted_mid d j now symbols item)) [
        | inl e ↦
            let (all, r, l) = mids_loop-All now symbols (suc room) items in
            simp (mids_loop, e) (all, r, omega arith)
        | inr (t, e) ↦
            let (all, r, l) = mids_loop-All now symbols room items in
            simp (mids_loop, e)
              ((wanted_mid-IsMid now symbols item t e, all), omega arith, omega arith)
      ]

  abbrev pub tickers : Option (List (MidTicker d)) → List (MidTicker d)
  tickers none = []
  tickers (some ts) = ts

  -- The tickers that are fetched are of wanted coins: the symbols that are asked for are compared with
  -- the names of coins, and the ticker's symbol is the name of the coin's market. There are no more
  -- than symbols, if any are given.
  pub hl_fetch_tickers-All :
      (x : TradesApi) (now : CString) (symbols : List CString)
      → All (IsMid symbols) (tickers (hl_fetch_tickers d j x now symbols).1)
        × (0 < length symbols
            → length (tickers (hl_fetch_tickers d j x now symbols).1) ≤ length symbols)
  unfolding hl_fetch_tickers
  hl_fetch_tickers-All x now symbols =
      elim (Sum-cases (reply_items d j (x.post (str "/info") (str "{\"type\":\"allMids\"}")))) [
        | inl (e, p) ↦ simp (hl_fetch_tickers, p) (tt, λ h. omega arith)
        | inr (items, p) ↦ elim (Bool-cases (length items == 0)) [
          | inl q ↦ simp (hl_fetch_tickers, p, q) (tt, λ h. omega arith)
          | inr q ↦ elim (Bool-cases x.calloc) [
            | inr m ↦ simp (hl_fetch_tickers, p, q, m) (tt, λ h. omega arith)
            | inl m ↦
                let max_tickers = if ltb 0 (length symbols) then length symbols else length items in
                let (all, r, _) = mids_loop-All now symbols max_tickers items in
                simp (hl_fetch_tickers, p, q, m) (all, λ h. ground (arith, r))
          ]
        ]
      ]
