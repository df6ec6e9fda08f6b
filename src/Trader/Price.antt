-- ===== src/Trader/Price.antt =====
-- The price of src/trading.c on the books that src/orderbook.c reads.
use mathlib.Core.Path.{subst}
use hyperliquid_c.Prelude.{
  ◌≡◌, refl, sym, ap, ◌∙◌, inl, inr, true, false, Option, none, some, leb, Bool-cases, Option-cases,
  guard, some-injective, >>=-eq-some, guard-eq-some, length, get_elem?,
}
use hyperliquid_c.Prelude.Text.{CString, str}
use hyperliquid_c.Types.{Doubles, CJson, HttpResult}
use mathlib.Core.Logic.{inl, inr}
use hyperliquid_c.Orderbook.{Level, book_parts, parse_orderbook_level, text_real}
use hyperliquid_c.Trader.{
  TraderData, trader_not_found, price_body, hyperliquid_make_request, usable_body, best_prices,
  hyperliquid_get_market_price,
}

-- cJSON finds no field by its name in an array.
pub record HasFieldlessArrays (d : Doubles) (j : CJson d) : Type 0 where
  pub fieldless :
      (n : j.Node) (key : CString) → j.is_array n ≡ true → j.get_object_item n key ≡ none

module _ (d : Doubles) (j : CJson d) where
  parse_orderbook_level-not_array :
      (n : j.Node) {l : Level d}
      → HasFieldlessArrays d j
      → parse_orderbook_level d j n ≡ some l
      → j.is_array n ≡ false
  unfolding parse_orderbook_level text_real
  parse_orderbook_level-not_array n a h = elim (Bool-cases (j.is_array n)) [
    | inr no_array ↦ no_array
    | inl array ↦ let missing = a.fieldless n (str "px") array in cc (rw missing at h)
  ]

  best_prices-array :
      (n : j.Node) {r : CString × CString}
      → best_prices d j n ≡ some r
      → (levels : j.Node) × (bids : j.Node) × (best : j.Node) × (j.get_object_item n (str "levels")
          ≡ some levels)
        × (get_elem? (j.items levels) 0 ≡ some bids)
        × (get_elem? (j.items bids) 0 ≡ some best)
        × (j.is_array best ≡ true)
  unfolding best_prices
  best_prices-array n h =
      let (levels, l, h1) = >>=-eq-some (j.get_object_item n (str "levels")) _ h in
      let (u1, _, h2) = >>=-eq-some (guard (j.is_array levels)) _ h1 in
      let (u2, _, h3) = >>=-eq-some (guard (leb 2 (length (j.items levels)))) _ h2 in
      let (bids, b, h4) = >>=-eq-some (get_elem? (j.items levels) 0) _ h3 in
      let (asks, _, h5) = >>=-eq-some (get_elem? (j.items levels) 1) _ h4 in
      let (u3, _, h6) = >>=-eq-some (guard (j.is_array bids)) _ h5 in
      let (best, c, h7) = >>=-eq-some (get_elem? (j.items bids) 0) _ h6 in
      let (u4, _, h8) = >>=-eq-some (guard (j.is_array asks)) _ h7 in
      let (best_ask, _, h9) = >>=-eq-some (get_elem? (j.items asks) 0) _ h8 in
      let (u5, array, h10) = >>=-eq-some (guard (j.is_array best)) _ h9 in
      (levels, bids, best, l, b, c, guard-eq-some _ array)

  some_triple :
      (a b c a' b' c' : j.Node)
      → ◌≡◌ {A = Option (j.Node × j.Node × j.Node)} (some (a, b, c)) (some (a', b', c'))
      → (a ≡ a') × (b ≡ b')
  some_triple a b c a' b' c' h = let e = some-injective _ _ h in (ap (λ z. z.0) e, ap (λ z. z.1) e)

  book_parts-levels :
      (text : CString) {n bids asks : j.Node}
      → book_parts d j (some text) ≡ some (n, bids, asks)
      → (levels : j.Node) × (j.parse_text text ≡ some n)
        × (j.get_object_item n (str "levels") ≡ some levels)
        × (get_elem? (j.items levels) 0 ≡ some bids)
  unfolding book_parts
  book_parts-levels text {n} {bids} {asks} h =
      let (m, p, h1) = >>=-eq-some (j.parse_text text) _ h in
      let (levels, l, h2) = >>=-eq-some (j.get_object_item m (str "levels")) _ h1 in
      let (u1, _, h3) = >>=-eq-some (guard (j.is_array levels)) _ h2 in
      let (u2, _, h4) = >>=-eq-some (guard (leb 2 (length (j.items levels)))) _ h3 in
      let (b, q, h5) = >>=-eq-some (get_elem? (j.items levels) 0) _ h4 in
      let (a, _, h6) = >>=-eq-some (get_elem? (j.items levels) 1) _ h5 in
      let (e, f) = some_triple m b a n bids asks h6 in
      (
        levels,
        p ∙ ap some e,
        subst (λ z. j.get_object_item z (str "levels") ≡ some levels) e l,
        q ∙ ap some f,
      )

  -- Where src/orderbook.c reads a book and its best bid from an answer, src/trading.c finds no price
  -- in it: it wants levels that are arrays, and the other wants levels that have fields.
  pub hyperliquid_get_market_price-refused :
      (post : CString → CString → HttpResult) (t : TraderData) (symbol text : CString)
      (n bids asks best : j.Node) (l : Level d)
      → HasFieldlessArrays d j
      → usable_body (hyperliquid_make_request post t (str "/info") (price_body symbol)) ≡ some text
      → book_parts d j (some text) ≡ some (n, bids, asks)
      → get_elem? (j.items bids) 0 ≡ some best
      → parse_orderbook_level d j best ≡ some l
      → hyperliquid_get_market_price d j post t symbol ≡ (trader_not_found, d.zero_real)
  unfolding hyperliquid_get_market_price
  hyperliquid_get_market_price-refused post t symbol text n bids asks best l a u b f p =
      let (levels, q, r, s) = book_parts-levels text b in
      elim (Option-cases (best_prices d j n)) [
        | inl missing ↦ simp (hyperliquid_get_market_price, u, q, missing) refl
        | inr (prices, e) ↦
            let (levels', bids', best', r', s', f', array) = best_prices-array n e in
            let same_levels : levels' ≡ levels = some-injective _ _ (sym r' ∙ r) in
            let same_bids : bids' ≡ bids =
              some-injective _ _ (sym s' ∙ ap (λ z. get_elem? (j.items z) 0) same_levels ∙ s) in
            let same_best : best' ≡ best =
              some-injective _ _ (sym f' ∙ ap (λ z. get_elem? (j.items z) 0) same_bids ∙ f) in
            let no_array = parse_orderbook_level-not_array best a p in
            cc (sym no_array ∙ ap j.is_array (sym same_best) ∙ array)
      ]
