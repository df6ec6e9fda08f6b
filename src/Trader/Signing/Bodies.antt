-- ===== src/Trader/Signing/Bodies.antt =====
-- What src/trading.c posts for an order, and for which asset.
use hyperliquid_c.Prelude.{
  ℕ, ◌≡◌, refl, sym, ap, ◌∙◌, ◌≢◌, ◌⊎◌, inl, inr, true, false, none, some, List, [], ◌∷◌,
  if◌then◌else◌, Bool-cases, Option-cases, Sum-cases, Bool, take, drop, get_elem?,
}
use hyperliquid_c.Prelude.Text.{CString, str, str_eq, str_eq→eq, str_eq_iff, snprintf}
use hyperliquid_c.Types.{Doubles, CJson}
use mathlib.Core.Logic.{◌⊎◌, inl, inr}
use mathlib.Core.Sum.{inr-injective}
use hyperliquid_c.Crypto.Hex.{bytes_to_hex}
use hyperliquid_c.Crypto.Keccak.{Sha3}
use hyperliquid_c.Crypto.Ecdsa.{Secp256k1}
use hyperliquid_c.Crypto.Eip712.{Locals, eip712_sign_agent}
use hyperliquid_c.Msgpack.{Packer, hl_build_order_hash}
use hyperliquid_c.Trader.{
  TraderData, TraderError, trader_success, hardcoded_asset_id, trading_symbol,
  hyperliquid_make_request, usable_body,
}
use hyperliquid_c.Trader.Signing.{
  TraderApi, limit_order, request_tree, order_action_tree, order_tree, signature_tree, JsonTree,
  number, bool, string, array, object, item, no_items, field, no_fields, order_text, sign_action,
  placed, resting_oid, hyperliquid_place_limit_order,
}

-- The asset of a symbol: 3, that of BTC, but for four names.
abbrev pub IsAsset : CString → ℕ → Type 0
IsAsset symbol id =
    ((id ≡ 3)
      × (symbol ≢ str "ETH")
      × (symbol ≢ str "SOL")
      × (symbol ≢ str "APT")
      × (symbol ≢ str "ATOM"))
    ⊎ (((symbol ≡ str "ETH") × (id ≡ 2))
        ⊎ (((symbol ≡ str "SOL") × (id ≡ 0))
            ⊎ (((symbol ≡ str "APT") × (id ≡ 1)) ⊎ ((symbol ≡ str "ATOM") × (id ≡ 2)))))

str_eq-ne : (a b : CString) → str_eq a b ≡ false → a ≢ b
str_eq-ne a b h e = cc (sym h ∙ (str_eq_iff a b).1 e)

btc_other :
    (str "BTC" ≢ str "ETH")
    × (str "BTC" ≢ str "SOL")
    × (str "BTC" ≢ str "APT")
    × (str "BTC" ≢ str "ATOM")
unfolding str_eq
btc_other = (
  str_eq-ne (str "BTC") (str "ETH") refl,
  str_eq-ne (str "BTC") (str "SOL") refl,
  str_eq-ne (str "BTC") (str "APT") refl,
  str_eq-ne (str "BTC") (str "ATOM") refl,
)

hardcoded_asset_id-IsAsset : (symbol : CString) → IsAsset symbol (hardcoded_asset_id symbol)
unfolding hardcoded_asset_id
hardcoded_asset_id-IsAsset symbol = elim (Bool-cases (str_eq symbol (str "BTC"))) [
  | inl btc ↦
      let e : symbol ≡ str "BTC" = str_eq→eq _ _ btc in
      let (eth, sol, apt, atom) = btc_other in
      rw (hardcoded_asset_id, btc)
        (inl (
          refl,
          (λ f. eth (sym e ∙ f)),
          (λ f. sol (sym e ∙ f)),
          (λ f. apt (sym e ∙ f)),
          (λ f. atom (sym e ∙ f)),
        ))
  | inr a ↦ elim (Bool-cases (str_eq symbol (str "ETH"))) [
    | inl eth ↦ rw (hardcoded_asset_id, a, eth) (inr (inl (str_eq→eq _ _ eth, refl)))
    | inr b ↦ elim (Bool-cases (str_eq symbol (str "SOL"))) [
      | inl sol ↦ rw (hardcoded_asset_id, a, b, sol) (inr (inr (inl (str_eq→eq _ _ sol, refl))))
      | inr c ↦ elim (Bool-cases (str_eq symbol (str "APT"))) [
        | inl apt ↦
            rw (hardcoded_asset_id, a, b, c, apt) (inr (inr (inr (inl (str_eq→eq _ _ apt, refl)))))
        | inr e ↦ elim (Bool-cases (str_eq symbol (str "ATOM"))) [
          | inl atom ↦
              rw (hardcoded_asset_id, a, b, c, e, atom)
                (inr (inr (inr (inr (str_eq→eq _ _ atom, refl)))))
          | inr f ↦
              rw (hardcoded_asset_id, a, b, c, e, f)
                (inl (refl, str_eq-ne _ _ b, str_eq-ne _ _ c, str_eq-ne _ _ e, str_eq-ne _ _ f))
        ]
      ]
    ]
  ]
]

module _ (d : Doubles) where
  -- The tree of a request for one order, from the asset, the side, the two texts, the nonce and the
  -- bytes of the signature.
  abbrev pub posted_tree : ℕ → Bool → CString → CString → ℕ → List ℕ → JsonTree d
  posted_tree id buy price_text size_text nonce sig = object (
      field (str "action")
        (object (
          field (str "type") (string (str "order")) (
            field (str "orders")
              (array (
                item
                  (object (
                    field (str "a") (number (d.of_nat id)) (
                      field (str "b") (bool buy) (
                        field (str "p") (string price_text) (
                          field (str "s") (string size_text) (
                            field (str "r") (bool false) (
                              field (str "t")
                                (object (
                                  field (str "limit")
                                    (object (field (str "tif") (string (str "Gtc")) no_fields))
                                    no_fields))
                                no_fields)))))))
                  no_items))
              (field (str "grouping") (string (str "na")) no_fields))))
        (field (str "nonce") (number (d.of_nat nonce)) (
          field (str "signature")
            (object (
              field (str "r") (string (bytes_to_hex (take 32 sig) true)) (
                field (str "s") (string (bytes_to_hex (take 32 (drop 32 sig)) true)) (
                  field (str "v")
                    (number (d.of_nat (elim (get_elem? sig 64) [ none ↦ 0 | some v ↦ v ])))
                    no_fields))))
            no_fields)))

module _ (d : Doubles) (pk : Packer) (sha : Sha3) (loc : Locals) (secp : Secp256k1) where
  -- The order that was hashed and signed with the trader's key, and the tree whose text is posted,
  -- have the same asset, side, price and size texts and nonce.
  abbrev pub IsSigned : TraderApi d → TraderData → ℕ → CString → d.Real → d.Real → CString → Type 0
  IsSigned x t id side price quantity body =
      (connection_id : List ℕ) × (sig : List ℕ) × (hl_build_order_hash pk sha x.allocated
          (record {
            a = id;
            b = str_eq side (str "Buy");
            p = snprintf 32 (d.general 8 price);
            s = snprintf 32 (d.general 8 quantity);
            r = false;
            limit = record { tif = str "Gtc" };
          }
            ∷ [])
          (str "na") x.now none
        ≡ some connection_id)
      × (eip712_sign_agent sha loc secp (str "Exchange") 1337
            (if t.testnet then str "b" else str "a") connection_id t.private_key
          ≡ some sig)
      × (x.print_tree (
            posted_tree d id (str_eq side (str "Buy")) (snprintf 32 (d.general 8 price))
              (snprintf 32 (d.general 8 quantity)) x.now sig)
          ≡ some body)

  order_text-IsSigned :
      (x : TraderApi d) (t : TraderData) (symbol side : CString) (price quantity : d.Real)
      {body : CString}
      → order_text d pk sha loc secp x t symbol side price quantity ≡ inr body
      → IsSigned x t (hardcoded_asset_id (trading_symbol symbol)) side price quantity body
  unfolding order_text sign_action limit_order request_tree order_action_tree order_tree
      signature_tree
  order_text-IsSigned x t symbol side price quantity h =
      let o = limit_order d symbol side price quantity in
      elim (Option-cases (hl_build_order_hash pk sha x.allocated (o ∷ []) (str "na") x.now none)) [
        | inl a ↦ cc (rw (order_text, a) at h)
        | inr (connection_id, a) ↦
            elim (Option-cases (sign_action d pk sha loc secp t connection_id)) [
              | inl b ↦ cc (rw (order_text, a, b) at h)
              | inr (sig, b) ↦
                  elim (Option-cases
                    (x.print_tree (request_tree d (order_action_tree d o) x.now sig))) [
                      | inl c ↦ cc (rw (order_text, a, b, c) at h)
                      | inr (text, c) ↦
                          let e = inr-injective _ _ (rw (order_text, a, b, c) at h) in
                          (connection_id, sig, a, b, c ∙ ap some e)
                    ]
            ]
      ]

  order_text-error :
      (x : TraderApi d) (t : TraderData) (symbol side : CString) (price quantity : d.Real)
      {e : TraderError}
      → order_text d pk sha loc secp x t symbol side price quantity ≡ inl e
      → e ≢ trader_success
  unfolding order_text
  order_text-error x t symbol side price quantity h s =
      let o = limit_order d symbol side price quantity in
      elim (Option-cases (hl_build_order_hash pk sha x.allocated (o ∷ []) (str "na") x.now none)) [
        | inl a ↦ cc (rw (order_text, a) at h)
        | inr (connection_id, a) ↦
            elim (Option-cases (sign_action d pk sha loc secp t connection_id)) [
              | inl b ↦ cc (rw (order_text, a, b) at h)
              | inr (sig, b) ↦
                  elim (Option-cases
                    (x.print_tree (request_tree d (order_action_tree d o) x.now sig))) [
                      | inl c ↦ cc (rw (order_text, a, b, c) at h)
                      | inr (text, c) ↦ cc (rw (order_text, a, b, c) at h)
                    ]
            ]
      ]

  -- An order that src/trading.c reports as placed was posted as the text of a tree whose asset, side,
  -- price (%.8g), size (%.8g) and nonce are those that were hashed and signed with the trader's key,
  -- and the answer, with status 200, held an order id, which is what the caller's buffer holds as
  -- far as it fits. The asset is that of the symbol without "USDT": a symbol that is not known buys
  -- or sells asset 3, which is BTC's. The order buys exactly where the side is "Buy".
  pub hyperliquid_place_limit_order-success :
      (j : CJson d) (x : TraderApi d) (t : TraderData) (symbol side : CString)
      (price quantity : d.Real) (size : ℕ)
      → (hyperliquid_place_limit_order d pk sha loc secp j x t symbol side price quantity size).0
        ≡ trader_success
      → (asset : ℕ) × (body : CString) × IsAsset (trading_symbol symbol) asset
        × IsSigned x t asset side price quantity body
        × ((text : CString) × (n : j.Node) × (id : CString) × (usable_body
                (hyperliquid_make_request x.post t (str "/exchange") body)
              ≡ some text)
            × (j.parse_text text ≡ some n)
            × (resting_oid d j n ≡ some id)
            × ((hyperliquid_place_limit_order d pk sha loc secp j x t symbol side price quantity
                  size).1
                ≡ snprintf size id))
  unfolding hyperliquid_place_limit_order placed
  hyperliquid_place_limit_order-success j x t symbol side price quantity size h =
      elim (Sum-cases (order_text d pk sha loc secp x t symbol side price quantity)) [
        | inl (e, a) ↦ absurd (
            order_text-error x t symbol side price quantity a
              (rw (hyperliquid_place_limit_order, a) at h))
        | inr (body, a) ↦
            let answer = hyperliquid_make_request x.post t (str "/exchange") body in
            elim (Option-cases (usable_body answer)) [
              | inl b ↦ cc (rw (hyperliquid_place_limit_order, a, placed, b) at h)
              | inr (text, b) ↦ elim (Option-cases (j.parse_text text)) [
                | inl c ↦ cc (rw (hyperliquid_place_limit_order, a, placed, b, c) at h)
                | inr (n, c) ↦ elim (Option-cases (resting_oid d j n)) [
                  | inl r ↦ cc (rw (hyperliquid_place_limit_order, a, placed, b, c, r) at h)
                  | inr (id, r) ↦ (
                    hardcoded_asset_id (trading_symbol symbol),
                    body,
                    hardcoded_asset_id-IsAsset (trading_symbol symbol),
                    order_text-IsSigned x t symbol side price quantity a,
                    (
                      text,
                      n,
                      id,
                      b,
                      c,
                      r,
                      rw (hyperliquid_place_limit_order, a, placed, b, c, r) refl,
                    ),
                  )
                ]
              ]
            ]
      ]
