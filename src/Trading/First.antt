-- ===== src/Trading/First.antt =====
-- The first market of the exchange in src/trading_api.c: its asset id is 0, which the callers read as
-- an unknown symbol.
use hyperliquid_c.Markets.First.{
  IsListedFirst, before_slash-symbol, hl_fetch_markets-IsFirst, hl_get_asset_id-first,
}
use hyperliquid_c.Msgpack.{Packer}
use hyperliquid_c.Crypto.Keccak.{Sha3}
use hyperliquid_c.Crypto.Ecdsa.{Secp256k1}
use hyperliquid_c.Crypto.Eip712.{Locals}
use hyperliquid_c.Types.{invalid_symbol, success, is_success, Doubles, CJson, HttpResult}
use hyperliquid_c.Trading.{
  Handles, OrderRequest, System, Refusal, ready_key, get_asset_id, is_unknown, prepare_order,
  hl_place_order,
}
use hyperliquid_c.Prelude.{ℕ, ◌≡◌, refl, sym, inl, Bool, true, false, Option, none, some, ◌++◌}
use hyperliquid_c.Prelude.Text.{CString, str, str_eq, snprintf}
use mathlib.Core.Path.{subst}
use mathlib.Core.Logic.{inl}
use hyperliquid_c.Markets.{Market, hl_get_asset_id}
use hyperliquid_c.Markets.Parse.{hl_fetch_markets}

module _ (d : Doubles) (pk : Packer) (sha : Sha3) (loc : Locals) (secp : Secp256k1) where
  zero_asset :
      (sys : System d) (symbol : CString)
      → is_success sys.markets.0 ≡ true
      → hl_get_asset_id d sys.markets.1 (snprintf 64 (symbol ++ str "/USDC:USDC"))
        ≡ (success, some 0)
      → get_asset_id d sys symbol ≡ 0
  unfolding get_asset_id
  zero_asset sys symbol fine found = rw (get_asset_id, fine, found) refl

  prepare_order_zero :
      (sys : System d) (h : Handles) (request : OrderRequest d) (key : CString)
      → ready_key h ≡ some key
      → get_asset_id d sys request.symbol ≡ 0
      → str_eq request.symbol (str "SOL") ≡ false
      → prepare_order d pk sha loc secp sys h request
        ≡ inl (record {
          code = invalid_symbol;
          error = snprintf 256 (str "Unknown symbol: " ++ request.symbol);
        })
  unfolding prepare_order is_unknown
  prepare_order_zero sys h request key ready zero_id other =
      rw (prepare_order, ready, zero_id, other) refl

  hl_place_order_refused :
      (sys : System d) (h : Handles) (request : OrderRequest d) {r : Refusal}
      → prepare_order d pk sha loc secp sys h request ≡ inl r
      → ((hl_place_order d pk sha loc secp sys h request).0 ≡ r.code)
        × ((hl_place_order d pk sha loc secp sys h request).1.order_id ≡ none)
  unfolding hl_place_order
  hl_place_order_refused sys h request e =
      (rw (hl_place_order, e) refl, rw (hl_place_order, e) refl)

module _ (d : Doubles) (j : CJson d) (pk : Packer) (sha : Sha3) (loc : Locals)
    (secp : Secp256k1) where
  -- With the handles of the client there, and the markets fetched without an error, an order for the
  -- swap market that comes first in the answer of the exchange is refused as an unknown symbol
  -- before anything is posted, unless it is SOL; although its market is found there, with the id 0.
  pub hl_place_order-first :
      (sys : System d) (h : Handles) (request : OrderRequest d) (key : CString) (calloc : Bool)
      (realloc : Option (ℕ → Market d)) (swaps spots : Option HttpResult)
      → ready_key h ≡ some key
      → sys.markets ≡ hl_fetch_markets d j calloc realloc swaps spots
      → is_success (hl_fetch_markets d j calloc realloc swaps spots).0 ≡ true
      → IsListedFirst d j swaps request.symbol
      → str_eq request.symbol (str "SOL") ≡ false
      → (hl_get_asset_id d sys.markets.1 (snprintf 64 (request.symbol ++ str "/USDC:USDC"))
          ≡ (success, some 0))
        × (prepare_order d pk sha loc secp sys h request
            ≡ inl (record {
              code = invalid_symbol;
              error = snprintf 256 (str "Unknown symbol: " ++ request.symbol);
            }))
        × ((hl_place_order d pk sha loc secp sys h request).0 ≡ invalid_symbol)
        × ((hl_place_order d pk sha loc secp sys h request).1.order_id ≡ none)
  hl_place_order-first sys h request key calloc realloc swaps spots ready fetched ok f other =
      let symbol = request.symbol in
      let ms = (hl_fetch_markets d j calloc realloc swaps spots).1 in
      let listed =
        hl_fetch_markets-IsFirst d j calloc realloc swaps spots f.item f.context f.items f.contexts
          symbol f.content f.named f.text f.short ok in
      let found =
        hl_get_asset_id-first d j ms (snprintf 64 (symbol ++ str "/USDC:USDC")) symbol listed
          (before_slash-symbol symbol f.no_slash f.short) f.short in
      let here : hl_get_asset_id d sys.markets.1 (snprintf 64 (symbol ++ str "/USDC:USDC"))
          ≡ (success, some 0) =
        subst
          (λ z.
            hl_get_asset_id d z.1 (snprintf 64 (symbol ++ str "/USDC:USDC")) ≡ (success, some 0))
          (sym fetched) found in
      let fine : is_success sys.markets.0 ≡ true =
        subst (λ z. is_success z.0 ≡ true) (sym fetched) ok in
      let zero_id : get_asset_id d sys symbol ≡ 0 =
        zero_asset d pk sha loc secp sys symbol fine here in
      let refused = prepare_order_zero d pk sha loc secp sys h request key ready zero_id other in
      let (code, id) = hl_place_order_refused d pk sha loc secp sys h request refused in
      (here, refused, code, id)
