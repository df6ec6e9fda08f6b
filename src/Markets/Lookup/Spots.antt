-- ===== src/Markets/Lookup/Spots.antt =====
-- What src/orderbook.c and src/ohlcv.c find for a symbol, of a spot market above all.
use mathlib.Core.Path.{subst}
use mathlib.Core.Logic.{inl, inr}
use mathlib.Core.Sum.{inl-injective, inr-injective}
use hyperliquid_c.Prelude.{
  ℕ, ◌≡◌, refl, sym, ap, ◌∙◌, inl, inr, true, false, none, some, List, [], ◌∷◌, leb, if◌then◌else◌,
  Bool-cases, Option-cases, some-injective, length, get_elem?, All-get_elem?,
}
use hyperliquid_c.Prelude.Text.{CString, str_eq, str_eq→eq}
use hyperliquid_c.Types.{HlError, is_success, Doubles, decimal}
use hyperliquid_c.Markets.{Market, is_swap, before_slash, find_swap, hl_get_asset_id, hl_get_market}
use hyperliquid_c.Markets.AssetIds.{coin_of, find_swap-All}
use hyperliquid_c.Markets.Lookup.{lookup, coin_text}

module _ (d : Doubles) where
  hl_get_asset_id-some :
      (ms : List (Market d)) (symbol : CString) {id : ℕ}
      → (hl_get_asset_id d ms symbol).1 ≡ some id
      → (s : Market d) × (find_swap d (coin_of symbol) ms ≡ some s) × (s.asset_id ≡ id)
  unfolding hl_get_asset_id
  hl_get_asset_id-some ms symbol h =
      elim (Bool-cases (elim (before_slash symbol) [ none ↦ false | some c ↦ leb 32 (length c) ])) [
        | inl long ↦ cc (rw (hl_get_asset_id, long) at h)
        | inr short ↦ elim (Option-cases (find_swap d (coin_of symbol) ms)) [
          | inl x ↦ cc (rw (hl_get_asset_id, short, x) at h)
          | inr (s, x) ↦ (s, x, some-injective _ _ (rw (hl_get_asset_id, short, x) at h))
        ]
      ]

  hl_get_market-some :
      (ms : List (Market d)) (symbol : CString) {m : Market d}
      → (hl_get_market d ms symbol).1 ≡ some m
      → m.symbol ≡ symbol
  unfolding hl_get_market
  hl_get_market-some [] symbol h = cc
  hl_get_market-some (n ∷ ms) symbol h = elim (Bool-cases (str_eq n.symbol symbol)) [
    | inl hit ↦
        let q = some-injective _ _ (rw (hl_get_market, hit) at h) in
        subst (λ z. z.symbol ≡ symbol) q (str_eq→eq _ _ hit)
    | inr miss ↦ hl_get_market-some ms symbol (rw (hl_get_market, miss) at h)
  ]

  -- A symbol is found only where the list has a swap market whose base is the coin of the symbol,
  -- and the id that goes with the found market is that of the swap market: a spot market is asked
  -- for by the id of a swap market.
  pub lookup_lem :
      (ms : List (Market d)) (symbol : CString) (id : ℕ) (m : Market d)
      → lookup d ms symbol ≡ inr (id, m)
      → (m.symbol ≡ symbol)
        × (coin_text d (id, m) ≡ (if is_swap m.type then m.base else decimal id))
        × ((i : ℕ) × (s : Market d) × (get_elem? ms i ≡ some s)
            × (is_swap s.type ≡ true)
            × (s.base ≡ coin_of symbol)
            × (s.asset_id ≡ id))
  unfolding lookup coin_text
  lookup_lem ms symbol id m h = elim (Option-cases (hl_get_asset_id d ms symbol).1) [
    | inl x ↦ cc (rw (lookup, x) at h)
    | inr (n, x) ↦ elim (Option-cases (hl_get_market d ms symbol).1) [
      | inl y ↦ cc (rw (lookup, x, y) at h)
      | inr (k, y) ↦
          let q : (n, k) ≡ (id, m) = inr-injective _ _ (rw (lookup, x, y) at h) in
          let (s, f, same) = hl_get_asset_id-some ms symbol x in
          let ((i, p), based, t) = find_swap-All d _ (coin_of symbol) ms (All-get_elem? ms) f in
          (
            ap (λ z. z.1.symbol) (sym q) ∙ hl_get_market-some ms symbol y,
            refl,
            (i, s, p, t, based, same ∙ ap (λ z. z.0) q),
          )
    ]
  ]

  hl_get_asset_id-none :
      (ms : List (Market d)) (symbol : CString)
      → (hl_get_asset_id d ms symbol).1 ≡ none
      → is_success (hl_get_asset_id d ms symbol).0 ≡ false
  unfolding hl_get_asset_id is_success
  hl_get_asset_id-none ms symbol h =
      elim (Bool-cases (elim (before_slash symbol) [ none ↦ false | some c ↦ leb 32 (length c) ])) [
        | inl long ↦ rw (hl_get_asset_id, long) refl
        | inr short ↦ elim (Option-cases (find_swap d (coin_of symbol) ms)) [
          | inl x ↦ rw (hl_get_asset_id, short, x) refl
          | inr (s, x) ↦ cc (rw (hl_get_asset_id, short, x) at h)
        ]
      ]

  hl_get_market-none :
      (ms : List (Market d)) (symbol : CString)
      → (hl_get_market d ms symbol).1 ≡ none
      → is_success (hl_get_market d ms symbol).0 ≡ false
  unfolding hl_get_market is_success
  hl_get_market-none [] symbol h = refl
  hl_get_market-none (n ∷ ms) symbol h = elim (Bool-cases (str_eq n.symbol symbol)) [
    | inl hit ↦ cc (rw (hl_get_market, hit) at h)
    | inr miss ↦
        rw (hl_get_market, miss) (hl_get_market-none ms symbol (rw (hl_get_market, miss) at h))
  ]

  -- A lookup that finds nothing has an error.
  pub lookup-code :
      (ms : List (Market d)) (symbol : CString) {e : HlError}
      → lookup d ms symbol ≡ inl e
      → is_success e ≡ false
  unfolding lookup
  lookup-code ms symbol h = elim (Option-cases (hl_get_asset_id d ms symbol).1) [
    | inl x ↦
        let q = inl-injective _ _ (rw (lookup, x) at h) in
        subst (λ z. is_success z ≡ false) q (hl_get_asset_id-none ms symbol x)
    | inr (n, x) ↦ elim (Option-cases (hl_get_market d ms symbol).1) [
      | inl y ↦
          let q = inl-injective _ _ (rw (lookup, x, y) at h) in
          subst (λ z. is_success z ≡ false) q (hl_get_market-none ms symbol y)
      | inr (k, y) ↦ cc (rw (lookup, x, y) at h)
    ]
  ]
