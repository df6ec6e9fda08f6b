-- ===== src/Clients/Cached/Loaded.antt =====
-- The cache of markets of src/client_new.c against the search of src/markets.c.
use hyperliquid_c.Prelude.{
  ◌≡◌, refl, inl, inr, Bool, ◌&&◌, none, some, List, [], ◌∷◌, if◌then◌else◌, Bool-cases,
}
use hyperliquid_c.Prelude.Text.{CString, str_eq}
use hyperliquid_c.Types.{HlError, is_success, Doubles}
use hyperliquid_c.Markets.{Market, hl_get_market}
use hyperliquid_c.Clients.Cached.{
  CachedClient, hl_client_load_markets, hl_client_get_market, find_market,
}

module _ (d : Doubles) where
  find_market_lem :
      (ms : List (Market d)) (symbol : CString)
      → find_market d ms symbol ≡ (hl_get_market d ms symbol).1
  unfolding find_market hl_get_market
  find_market_lem [] symbol = refl
  find_market_lem (m ∷ ms) symbol = elim (Bool-cases (str_eq m.symbol symbol)) [
    | inl e ↦ simp (find_market, hl_get_market, e) refl
    | inr e ↦ simp (find_market, hl_get_market, e) (find_market_lem ms symbol)
  ]

  -- Loading the markets returns the error of the fetch, and replaces the cache: if the fetch
  -- succeeds and there is memory, the client finds the markets that hl_get_market finds in what was
  -- fetched; otherwise it finds none, also of those that it had before. Nothing else of the client
  -- changes.
  pub hl_client_load_markets_lem :
      (fetched : HlError × List (Market d)) (malloc : Bool) (c : CachedClient d)
      → (loaded : CachedClient d) × (hl_client_load_markets d fetched malloc (some c)
          ≡ (fetched.0, some loaded))
        × ((symbol : CString)
            → hl_client_get_market d (some loaded) (some symbol) ≡ (
                if is_success fetched.0 && malloc
                then (hl_get_market d fetched.1 symbol).1
                else none))
        × (loaded ≡ record c { markets = loaded.markets })
  unfolding hl_client_load_markets hl_client_get_market
  hl_client_load_markets_lem (err, markets) malloc c = elim (Bool-cases (is_success err)) [
    | inr e ↦ (
      record c { markets = none },
      simp (hl_client_load_markets, e) refl,
      λ symbol. simp (e) refl,
      refl,
    )
    | inl e ↦ elim (Bool-cases malloc) [
      | inr m ↦ (
        record c { markets = none },
        simp (hl_client_load_markets, e, m) refl,
        λ symbol. simp (e, m) refl,
        refl,
      )
      | inl m ↦ (
        record c { markets = some markets },
        simp (hl_client_load_markets, e, m) refl,
        λ symbol. simp (e, m) (find_market_lem markets symbol),
        refl,
      )
    ]
  ]
