-- ===== src/Trading/Cancels.antt =====
-- What the callers of `hl_cancel_order` of src/trading_api.c learn from a result.
use mathlib.Core.Logic.{◌⊎◌, inl, inr}
use hyperliquid_c.Prelude.{
  ◌≡◌, refl, ap, ◌≢◌, ◌⊎◌, inl, inr, true, false, none, [], ◌∷◌, arith, ◌==◌, ==_iff, Bool-cases,
  Option-cases, Sum-cases, ◌>>=◌,
}
use hyperliquid_c.Prelude.Text.{CString, str}
use hyperliquid_c.Types.{
  Doubles, success, is_lv3_success, HttpResult, strstr, lv3_success, is_success,
}
use hyperliquid_c.Crypto.Keccak.{Sha3}
use hyperliquid_c.Crypto.Ecdsa.{Secp256k1}
use hyperliquid_c.Crypto.Eip712.{Locals}
use hyperliquid_c.Msgpack.{Packer, Cancel, hl_build_cancel_hash}
use hyperliquid_c.Trading.{
  Handles, System, Refusal, cancel_answer, prepare_cancel, hl_cancel_order, exchange_url, ready_key,
  is_unknown, get_asset_id, sign_connection,
}
use hyperliquid_c.Trading.Results.{
  refused, lv3_to_hl_error-success, is_lv3_success-eq, never_success,
}

module _ (d : Doubles) where
  cancel_answer-success :
      (r : HttpResult)
      → (cancel_answer d r).0 ≡ success
      → (r.err ≡ lv3_success)
        × ((((cancel_answer d r).1.cancelled ≡ true) × (r.status_code ≡ 200))
            ⊎ (((cancel_answer d r).1.cancelled ≡ false) × (r.status_code ≢ 200)))
  unfolding cancel_answer
  cancel_answer-success r h = elim (Bool-cases (is_lv3_success r.err)) [
    | inr x ↦
        let e = lv3_to_hl_error-success r.err (rw (cancel_answer, x) at h) in
        absurd (never_success r.err e x)
    | inl x ↦
        let e = is_lv3_success-eq r.err x in
        elim (Bool-cases (r.status_code == 200)) [
          | inr y ↦ (e, inr (rw (cancel_answer, x, y) refl, ground arith))
          | inl y ↦ elim (Option-cases (r.body >>= λ t. strstr t (str "\"status\":\"ok\""))) [
            | inl w ↦ cc (rw (cancel_answer, x, y, w) at h)
            | inr (rest, w) ↦
                (e, inl (rw (cancel_answer, x, y, w) refl, (==_iff r.status_code 200).0 y))
          ]
        ]
  ]

module _ (d : Doubles) (pk : Packer) (sha : Sha3) (loc : Locals) (secp : Secp256k1) where
  prepare_cancel-code :
      (sys : System d) (h : Handles) (symbol order_id : CString) {r : Refusal}
      → prepare_cancel d pk sha loc secp sys h symbol order_id ≡ inl r
      → is_success r.code ≡ false
  unfolding prepare_cancel is_success
  prepare_cancel-code sys h symbol order_id p = elim (Option-cases (ready_key h)) [
    | inl x ↦ refused d pk sha loc secp _ _ (rw (prepare_cancel, x) at p) refl
    | inr (key, x) ↦
        let c : Cancel = record { a = get_asset_id d sys symbol; o = d.strtoull order_id } in
        elim (Bool-cases (is_unknown d (get_asset_id d sys symbol) symbol)) [
          | inl y ↦ refused d pk sha loc secp _ _ (rw (prepare_cancel, x, y) at p) refl
          | inr y ↦
              elim (Option-cases
                (hl_build_cancel_hash pk sha sys.allocated (c ∷ []) sys.now none)) [
                  | inl z ↦ refused d pk sha loc secp _ _ (rw (prepare_cancel, x, y, z) at p) refl
                  | inr (connection_id, z) ↦
                      elim (Option-cases
                        (sign_connection d pk sha loc secp h.testnet connection_id key)) [
                          | inl w ↦
                              refused d pk sha loc secp _ _ (rw (prepare_cancel, x, y, z, w) at p)
                                refl
                          | inr (sig, w) ↦ cc (rw (prepare_cancel, x, y, z, w) at p)
                        ]
                ]
        ]
  ]

  -- Cancelling returns success in two cases, in both of which the HTTP call worked: cancelled where
  -- the server answered 200, and not cancelled where it answered anything else.
  pub hl_cancel_order-success :
      (sys : System d) (h : Handles) (symbol order_id : CString)
      → (hl_cancel_order d pk sha loc secp sys h symbol order_id).0 ≡ success
      → (body : CString) × (prepare_cancel d pk sha loc secp sys h symbol order_id ≡ inr body)
        × ((sys.post (exchange_url h.testnet) body).err ≡ lv3_success)
        × ((((hl_cancel_order d pk sha loc secp sys h symbol order_id).1.cancelled ≡ true)
              × ((sys.post (exchange_url h.testnet) body).status_code ≡ 200))
            ⊎ (((hl_cancel_order d pk sha loc secp sys h symbol order_id).1.cancelled ≡ false)
                × ((sys.post (exchange_url h.testnet) body).status_code ≢ 200)))
  unfolding hl_cancel_order is_success
  hl_cancel_order-success sys h symbol order_id p =
      elim (Sum-cases (prepare_cancel d pk sha loc secp sys h symbol order_id)) [
        | inl (r, e) ↦
            let bad = prepare_cancel-code sys h symbol order_id e in
            let good : r.code ≡ success = rw (hl_cancel_order, e) at p in
            absurd (ground (arith, bad, ap is_success good))
        | inr (body, e) ↦
            let (ok, rest) =
              cancel_answer-success d (sys.post (exchange_url h.testnet) body)
                (rw (hl_cancel_order, e) at p) in
            (body, e, ok, rw (hl_cancel_order, e) rest)
      ]
