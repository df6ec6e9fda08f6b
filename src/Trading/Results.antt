-- ===== src/Trading/Results.antt =====
-- What the callers of src/trading_api.c learn from a result.
use hyperliquid_c.Msgpack.{Packer, hl_build_order_hash}
use hyperliquid_c.Prelude.Text.{CString, str}
use hyperliquid_c.Trading.{
  Handles, OrderRequest, System, Refusal, order_answer, prepare_order, hl_place_order, exchange_url,
  lv3_to_hl_error, ready_key, is_unknown, get_asset_id, sign_connection, order_of,
}
use mathlib.Core.Path.{subst, Path}
use mathlib.Core.Sum.{inl-injective}
use mathlib.Core.Logic.{◌⊎◌, inl, inr}
use hyperliquid_c.Prelude.{
  Sum-cases, ◌≡◌, refl, ap, ◌≢◌, ◌⊎◌, inl, inr, true, false, none, some, [], ◌∷◌, arith, ◌==◌,
  ==_iff, Bool-cases, Option-cases, ◌>>=◌,
}
use hyperliquid_c.Types.{
  Doubles, success, is_lv3_success, HttpResult, strstr, lv3_success, Lv3Error, is_success,
}
use hyperliquid_c.Crypto.Keccak.{Sha3}
use hyperliquid_c.Crypto.Ecdsa.{Secp256k1}
use hyperliquid_c.Crypto.Eip712.{Locals}

pub lv3_to_hl_error-success : (e : Lv3Error) → lv3_to_hl_error e ≡ success → e ≡ lv3_success
unfolding lv3_to_hl_error
lv3_to_hl_error-success e h = ground arith

pub is_lv3_success-eq : (e : Lv3Error) → is_lv3_success e ≡ true → e ≡ lv3_success
unfolding is_lv3_success
is_lv3_success-eq e h = ground arith

pub never_success : (e : Lv3Error) → e ≡ lv3_success → is_lv3_success e ≡ false → ⊥
unfolding is_lv3_success
never_success e p q = ground arith

module _ (d : Doubles) where
  order_answer-success :
      (r : HttpResult)
      → (order_answer d r).0 ≡ success
      → (r.err ≡ lv3_success)
        × (((id : CString) × ((order_answer d r).1.order_id ≡ some id) × (r.status_code ≡ 200))
            ⊎ (((order_answer d r).1.order_id ≡ none) × (r.status_code ≢ 200)))
  unfolding order_answer
  order_answer-success r h = elim (Bool-cases (is_lv3_success r.err)) [
    | inr x ↦
        let e = lv3_to_hl_error-success r.err (rw (order_answer, x) at h) in
        absurd (never_success r.err e x)
    | inl x ↦
        let e = is_lv3_success-eq r.err x in
        elim (Bool-cases (r.status_code == 200)) [
          | inr y ↦ (e, inr (rw (order_answer, x, y) refl, ground arith))
          | inl y ↦ elim (Option-cases r.body) [
            | inl z ↦ cc (rw (order_answer, x, y, z) at h)
            | inr (text, z) ↦ elim (Option-cases (strstr text (str "\"oid\":") >>= d.scan_int)) [
              | inl w ↦ cc (rw (order_answer, x, y, z, w) at h)
              | inr (id, w) ↦
                  (e, inl (id, rw (order_answer, x, y, z, w) refl, (==_iff r.status_code 200).0 y))
            ]
          ]
        ]
  ]

module _ (d : Doubles) (pk : Packer) (sha : Sha3) (loc : Locals) (secp : Secp256k1) where
  pub refused :
      (a b : Refusal)
      → Path (Refusal ⊎ CString) (inl a) (inl b)
      → is_success a.code ≡ false
      → is_success b.code ≡ false
  refused a b p e = subst (λ r. is_success r.code ≡ false) (inl-injective _ _ p) e

  prepare_order-code :
      (sys : System d) (h : Handles) (request : OrderRequest d) {r : Refusal}
      → prepare_order d pk sha loc secp sys h request ≡ inl r
      → is_success r.code ≡ false
  unfolding prepare_order is_success
  prepare_order-code sys h request p = elim (Option-cases (ready_key h)) [
    | inl x ↦ refused _ _ (rw (prepare_order, x) at p) refl
    | inr (key, x) ↦
        let o = order_of d request (get_asset_id d sys request.symbol) in
        elim (Bool-cases (is_unknown d (get_asset_id d sys request.symbol) request.symbol)) [
          | inl y ↦ refused _ _ (rw (prepare_order, x, y) at p) refl
          | inr y ↦
              elim (Option-cases
                (hl_build_order_hash pk sha sys.allocated (o ∷ []) (str "na") sys.now none)) [
                  | inl z ↦ refused _ _ (rw (prepare_order, x, y, z) at p) refl
                  | inr (connection_id, z) ↦
                      elim (Option-cases
                        (sign_connection d pk sha loc secp h.testnet connection_id key)) [
                          | inl w ↦ refused _ _ (rw (prepare_order, x, y, z, w) at p) refl
                          | inr (sig, w) ↦ cc (rw (prepare_order, x, y, z, w) at p)
                        ]
                ]
        ]
  ]

  -- Placing an order returns success in two cases, in both of which the HTTP call worked: with an
  -- order id where the server answered 200, and without one where it answered anything else.
  pub hl_place_order-success :
      (sys : System d) (h : Handles) (request : OrderRequest d)
      → (hl_place_order d pk sha loc secp sys h request).0 ≡ success
      → (body : CString) × (prepare_order d pk sha loc secp sys h request ≡ inr body)
        × ((sys.post (exchange_url h.testnet) body).err ≡ lv3_success)
        × (((id : CString) × ((hl_place_order d pk sha loc secp sys h request).1.order_id ≡ some id)
              × ((sys.post (exchange_url h.testnet) body).status_code ≡ 200))
            ⊎ (((hl_place_order d pk sha loc secp sys h request).1.order_id ≡ none)
                × ((sys.post (exchange_url h.testnet) body).status_code ≢ 200)))
  unfolding hl_place_order is_success
  hl_place_order-success sys h request p =
      elim (Sum-cases (prepare_order d pk sha loc secp sys h request)) [
        | inl (r, e) ↦
            let bad = prepare_order-code sys h request e in
            let good : r.code ≡ success = rw (hl_place_order, e) at p in
            absurd (ground (arith, bad, ap is_success good))
        | inr (body, e) ↦
            let (ok, rest) =
              order_answer-success d (sys.post (exchange_url h.testnet) body)
                (rw (hl_place_order, e) at p) in
            (body, e, ok, rw (hl_place_order, e) rest)
      ]
