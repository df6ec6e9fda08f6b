-- ===== src/Markets/Lookup.antt =====
-- The steps that src/orderbook.c and src/ohlcv.c share: fetching the markets, looking up a symbol, and
-- naming the coin in a request.
pub mod Spots
use mathlib.Core.Logic.{◌⊎◌, inl, inr}
use hyperliquid_c.Prelude.{ℕ, ◌⊎◌, inl, inr, Bool, none, some, List, ◌++◌, if◌then◌else◌}
use hyperliquid_c.Prelude.Text.{CString, str}
use hyperliquid_c.Types.{HlError, HttpResult, Doubles, decimal}
use hyperliquid_c.Markets.{Market, is_swap, hl_get_asset_id, hl_get_market}

-- What the rest of the system answers in one call: `hl_fetch_markets`, whether the client has an HTTP
-- handle, the clock in seconds, whether memory is there, and the HTTP request.
pub record Api (d : Doubles) : Type 0 where
  pub markets : HlError × List (Market d)
  pub http : Bool
  pub testnet : Bool
  pub now : ℕ
  pub calloc : Bool
  pub post : CString → CString → HttpResult

unfoldable pub info_url : Bool → CString
info_url testnet =
    (if testnet
      then str "https://api.hyperliquid-testnet.xyz"
      else str "https://api.hyperliquid.xyz")
    ++ str "/info"

module _ (d : Doubles) where
  -- The id that is found for the symbol and its market, or the first error.
  unfoldable pub lookup : List (Market d) → CString → HlError ⊎ (ℕ × Market d)
  lookup ms symbol = elim (hl_get_asset_id d ms symbol).1 [
    | none ↦ inl (hl_get_asset_id d ms symbol).0
    | some id ↦ elim (hl_get_market d ms symbol).1 [
      | none ↦ inl (hl_get_market d ms symbol).0
      | some m ↦ inr (id, m)
    ]
  ]

  -- A swap is named by its base, a spot market by the id.
  unfoldable pub coin_text : ℕ × Market d → CString
  coin_text (id, m) = if is_swap m.type then m.base else decimal id
