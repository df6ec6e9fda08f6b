-- ===== src/Trading/Signed.antt =====
-- What src/trading_api.c posts for an order is what it signed.
pub mod Cancels
use hyperliquid_c.Trading.Texts.{cancel_request_text, cancel_body_lem, IsMissing, HasKey}
use hyperliquid_c.Prelude.{
  ℕ, ◌≡◌, refl, ◌≢◌, ◌⊎◌, inl, inr, true, false, Option, none, some, List, [], ◌∷◌, arith,
  if◌then◌else◌, Bool-cases,
}
use hyperliquid_c.Prelude.Text.{CString, str, str_eq, str_eq→eq, snprintf}
use hyperliquid_c.Types.{invalid_symbol, signature, HlError, invalid_params, Doubles}
use hyperliquid_c.Msgpack.{Cancel, hl_build_cancel_hash, Packer, hl_build_order_hash}
use hyperliquid_c.Trading.{
  exchange_url, hl_cancel_order, cancel_answer, cancel_body, prepare_cancel, Handles, OrderRequest,
  System, get_asset_id, is_unknown,
}
use mathlib.Core.Logic.{◌⊎◌, inl, inr}
use hyperliquid_c.Crypto.Keccak.{Sha3}
use hyperliquid_c.Crypto.Ecdsa.{Secp256k1}
use hyperliquid_c.Crypto.Eip712.{Locals, eip712_sign_agent}

module _ (d : Doubles) (pk : Packer) (sha : Sha3) (loc : Locals) (secp : Secp256k1) where
  -- The signature of the agent message for a connection id, from the chain that the client is for.
  abbrev pub signed_agent : Handles → List ℕ → CString → Option (List ℕ)
  signed_agent h connection_id key =
      eip712_sign_agent sha loc secp (str "Exchange") 1337 (if h.testnet then str "b" else str "a")
        connection_id key

  -- The hash of the order of a request, with the clock as its nonce.
  abbrev pub order_hash : System d → OrderRequest d → Option (List ℕ)
  order_hash sys request =
      hl_build_order_hash pk sha sys.allocated
        (record {
          a = get_asset_id d sys request.symbol;
          b = request.buy;
          p = snprintf 64 (d.general 6 request.price);
          s = snprintf 64 (d.general 6 request.quantity);
          r = request.reduce_only;
          limit = record { tif = str "Gtc" };
        }
          ∷ [])
        (str "na") sys.now none

  -- Why nothing is posted: a part of the client is missing, the symbol is unknown and not SOL, or
  -- there is no hash or no signature.
  abbrev pub IsRefused : Handles → ℕ → CString → Option (List ℕ) → HlError → Type 0
  IsRefused h id symbol hash code =
      ((code ≡ invalid_params) × IsMissing h)
      ⊎ (((code ≡ invalid_symbol) × (id ≡ 0) × (str_eq symbol (str "SOL") ≡ false))
          ⊎ ((code ≡ signature)
              × ((hash ≡ none)
                  ⊎ ((key : CString) × (connection_id : List ℕ) × HasKey h key
                      × (hash ≡ some connection_id)
                      × (signed_agent h connection_id key ≡ none)))))

  -- The signature with which something is posted.
  abbrev pub IsSignature : Handles → ℕ → CString → Option (List ℕ) → List ℕ → Type 0
  IsSignature h id symbol hash sig =
      (key : CString) × (connection_id : List ℕ) × HasKey h key
      × ((id ≢ 0) ⊎ (symbol ≡ str "SOL"))
      × (hash ≡ some connection_id)
      × (signed_agent h connection_id key ≡ some sig)

  pub is_unknown_lem :
      (id : ℕ) (symbol : CString)
      → is_unknown d id symbol ≡ true
      → (id ≡ 0) × (str_eq symbol (str "SOL") ≡ false)
  unfolding is_unknown
  is_unknown_lem id symbol h = ground arith

  pub is_known_lem :
      (id : ℕ) (symbol : CString) → is_unknown d id symbol ≡ false → (id ≢ 0) ⊎ (symbol ≡ str "SOL")
  unfolding is_unknown
  is_known_lem id symbol h = elim (Bool-cases (str_eq symbol (str "SOL"))) [
    | inl sol ↦ inr (str_eq→eq symbol (str "SOL") sol)
    | inr other ↦ inl (ground arith)
  ]

  -- The address of the exchange that a client is for.
  abbrev pub endpoint : Handles → CString
  endpoint h =
      if h.testnet
      then str "https://api.hyperliquid-testnet.xyz/exchange"
      else str "https://api.hyperliquid.xyz/exchange"

  pub exchange_url_lem : (h : Handles) → exchange_url h.testnet ≡ endpoint h
  unfolding exchange_url
  exchange_url_lem h = elim (Bool-cases h.testnet) [ inl p ↦ rw p refl | inr p ↦ rw p refl ]
