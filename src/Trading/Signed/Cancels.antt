-- ===== src/Trading/Signed/Cancels.antt =====
-- What src/trading_api.c posts for a cancel is what it signed.
use hyperliquid_c.Trading.Signed.{
  IsRefused, IsSignature, is_unknown_lem, is_known_lem, signed_agent, endpoint, exchange_url_lem,
}
use hyperliquid_c.Trading.Texts.{
  cancel_request_text, cancel_body_lem, ready_key-none, ready_key-some,
}
use hyperliquid_c.Prelude.{
  ℕ, ◌≡◌, refl, ap, ◌⊎◌, inl, inr, Option, none, List, [], ◌∷◌, ◌++◌, Bool-cases, Option-cases,
}
use hyperliquid_c.Prelude.Text.{CString, str, snprintf}
use hyperliquid_c.Types.{invalid_symbol, signature, HlError, invalid_params, Doubles}
use hyperliquid_c.Msgpack.{Cancel, hl_build_cancel_hash, Packer}
use hyperliquid_c.Trading.{
  hl_cancel_order, cancel_answer, cancel_body, prepare_cancel, Handles, System, ready_key,
  get_asset_id, is_unknown, sign_connection,
}
use mathlib.Core.Logic.{◌⊎◌, inl, inr}
use hyperliquid_c.Crypto.Keccak.{Sha3}
use hyperliquid_c.Crypto.Ecdsa.{Secp256k1}
use hyperliquid_c.Crypto.Eip712.{Locals}

module _ (d : Doubles) (pk : Packer) (sha : Sha3) (loc : Locals) (secp : Secp256k1) where
  -- The hash of a cancel, with the clock as its nonce.
  abbrev pub cancel_hash : System d → CString → CString → Option (List ℕ)
  cancel_hash sys symbol order_id =
      hl_build_cancel_hash pk sha sys.allocated
        (record { a = get_asset_id d sys symbol; o = d.strtoull order_id } ∷ []) sys.now none

  hl_cancel_order-post :
      (sys : System d) (h : Handles) (symbol order_id : CString) {text : CString}
      → prepare_cancel d pk sha loc secp sys h symbol order_id ≡ inr text
      → hl_cancel_order d pk sha loc secp sys h symbol order_id
        ≡ cancel_answer d (sys.post (endpoint d pk sha loc secp h) text)
  unfolding hl_cancel_order
  hl_cancel_order-post sys h symbol order_id {text = text} e =
      rw (hl_cancel_order, e)
        (ap (λ u. cancel_answer d (sys.post u text)) (exchange_url_lem d pk sha loc secp h))

  -- For every client, answer and cancel: either the call is refused, as invalid where a part of the
  -- client is missing, as an unknown symbol where the asset id is 0 and the symbol is not SOL, and
  -- with a signature error where there is no hash or no signature; or the symbol has another id or is
  -- SOL, and the call posts to the exchange of its chain the text, cut to 2047 bytes, whose asset id, order id and nonce are those of the cancel whose hash was signed with the
  -- client's key, with the two halves and the last byte of that signature.
  pub prepare_cancel-signed :
      (sys : System d) (h : Handles) (symbol order_id : CString)
      → ((code : HlError) × (error : CString) × (prepare_cancel d pk sha loc secp sys h symbol
              order_id
            ≡ inl (record { code = code; error = error }))
          × IsRefused d pk sha loc secp h
              (get_asset_id d sys symbol)
              symbol
              (cancel_hash sys symbol order_id)
              code)
        ⊎ ((sig : List ℕ) × IsSignature d pk sha loc secp h
              (get_asset_id d sys symbol)
              symbol
              (cancel_hash sys symbol order_id)
              sig
            × ((text : CString) × (prepare_cancel d pk sha loc secp sys h symbol order_id
                  ≡ inr text)
                × (hl_cancel_order d pk sha loc secp sys h symbol order_id
                    ≡ cancel_answer d (sys.post (endpoint d pk sha loc secp h) text))
                × (text
                    ≡ snprintf 2048 (
                        cancel_request_text
                          (get_asset_id d sys symbol)
                          (d.strtoull order_id)
                          sys.now
                          sig))))
  unfolding prepare_cancel sign_connection
  prepare_cancel-signed sys h symbol order_id = elim (Option-cases (ready_key h)) [
    | inl x ↦ inl (
      invalid_params,
      str "Invalid client state",
      rw (prepare_cancel, x) refl,
      inl (refl, ready_key-none h x),
    )
    | inr (key, x) ↦
        let id = get_asset_id d sys symbol in
        elim (Bool-cases (is_unknown d id symbol)) [
          | inl y ↦ inl (
            invalid_symbol,
            snprintf 256 (str "Unknown symbol: " ++ symbol),
            rw (prepare_cancel, x, y) refl,
            inr (inl (let (z, sol) = is_unknown_lem d pk sha loc secp id _ y in (refl, z, sol))),
          )
          | inr y ↦ elim (Option-cases (cancel_hash sys symbol order_id)) [
            | inl z ↦ inl (
              signature,
              str "Failed to build cancel hash",
              rw (prepare_cancel, x, y, z) refl,
              inr (inr (refl, inl z)),
            )
            | inr (connection_id, z) ↦
                elim (Option-cases (signed_agent d pk sha loc secp h connection_id key)) [
                  | inl w ↦ inl (
                    signature,
                    str "Failed to sign cancel",
                    rw (prepare_cancel, x, y, z, w) refl,
                    inr (inr (refl, inr (key, connection_id, ready_key-some h x, z, w))),
                  )
                  | inr (sig, w) ↦
                      let c : Cancel = record { a = id; o = d.strtoull order_id } in
                      let e : prepare_cancel d pk sha loc secp sys h symbol order_id
                          ≡ inr (snprintf 2048 (cancel_body c sys.now sig)) =
                        rw (prepare_cancel, x, y, z, w) refl in
                      inr (
                        sig,
                        (
                          key,
                          connection_id,
                          ready_key-some h x,
                          is_known_lem d pk sha loc secp id _ y,
                          z,
                          w,
                        ),
                        (
                          snprintf 2048 (cancel_body c sys.now sig),
                          e,
                          hl_cancel_order-post sys h symbol order_id e,
                          ap (snprintf 2048) (cancel_body_lem id (d.strtoull order_id) sys.now sig),
                        ),
                      )
                ]
          ]
        ]
  ]
