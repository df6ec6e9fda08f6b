-- ===== src/Positions/Margin.antt =====
-- What the calls of src/margin.c can do.
use hyperliquid_c.Prelude.{
  ℕ, ◌≡◌, refl, ◌≢◌, ◌⊎◌, inl, inr, true, false, none, some, ◌++◌, arith, ◌==◌, ==_iff, Bool-cases,
  Option-cases,
}
use hyperliquid_c.Prelude.Text.{CString, str, snprintf}
use hyperliquid_c.Types.{HlError, auth, invalid_params, Doubles, signature, decimal, IsNegated}
use mathlib.Core.Logic.{◌⊎◌, inl, inr}
use hyperliquid_c.Positions.Signed.{
  request_text, signed_body_lem, HasKeys, both_keys-none, both_keys-some,
}
use hyperliquid_c.Positions.{
  margin_answer, Exchange, both_keys, coin_buffer, margin_asset, margin_action, prepare_margin,
  hl_add_margin, hl_reduce_margin,
}

module _ (d : Doubles) where
  -- Reducing the margin by a number of either sign is refused as invalid, whatever the client, the
  -- symbol and the answers of the exchange are.
  pub hl_reduce_margin-refused :
      (n : IsNegated d) (x : Exchange d) (symbol : CString) (amount : d.Real)
      → (d.less_equal amount d.zero_real ≡ true) ⊎ (d.less d.zero_real amount ≡ true)
      → hl_reduce_margin d x symbol amount ≡ invalid_params
  unfolding hl_reduce_margin hl_add_margin prepare_margin
  hl_reduce_margin-refused n x symbol amount (inl h) = rw (hl_reduce_margin, h) refl
  hl_reduce_margin-refused n x symbol amount (inr h) =
      elim (Bool-cases (d.less_equal amount d.zero_real)) [
        | inl y ↦ rw (hl_reduce_margin, y) refl
        | inr y ↦
            rw (hl_reduce_margin, y, hl_add_margin, prepare_margin, n.negate_positive amount h) refl
      ]

  -- The text of the action that changes the margin of one asset.
  abbrev pub margin_text : ℕ → d.Real → CString
  margin_text id amount = snprintf 256 (
      str "[{\"type\":\"updateMargin\",\"asset\":"
      ++ decimal id
      ++ str ",\"margin\":"
      ++ d.fixed 8 amount
      ++ str "}]")

  margin_action_lem : (id : ℕ) (amount : d.Real) → margin_action d id amount ≡ margin_text id amount
  unfolding margin_action
  margin_action_lem id amount = refl

  hl_add_margin-post :
      (x : Exchange d) (symbol : CString) (amount : d.Real) {text : CString}
      → prepare_margin d x symbol amount ≡ inr text
      → hl_add_margin d x symbol amount ≡ margin_answer d (x.post text)
  unfolding hl_add_margin
  hl_add_margin-post x symbol amount e = rw (hl_add_margin, e) refl

  -- Why nothing is posted to add margin: the amount is not above zero or the asset is 0, a key is
  -- missing, or the request gets no signature.
  abbrev pub IsRefused : Exchange d → ℕ → d.Real → HlError → Type 0
  IsRefused x id amount code =
      ((code ≡ invalid_params) × ((d.less_equal amount d.zero_real ≡ true) ⊎ (id ≡ 0)))
      ⊎ (((code ≡ auth) × ((x.wallet ≡ none) ⊎ (x.key ≡ none)))
          ⊎ ((code ≡ signature)
              × ((key : CString) × HasKeys d x key
                  × (x.sign (request_text 1024 x.now (margin_text id amount)) key ≡ none))))

  -- For every client, symbol and amount, adding margin is refused, as invalid for an amount that is
  -- zero or below or for an asset 0, for a missing key, or for a missing signature; or the amount is
  -- not zero or below, both keys are there, the asset is not 0, and what is posted, cut to 2047
  -- bytes, is the text of the updateMargin request of that asset, that amount with eight decimals
  -- and the clock as its nonce, with the signature of that very text by the key behind it. The action
  -- is cut to 255 bytes in it, and the request to 1023.
  pub prepare_margin-signed :
      (x : Exchange d) (symbol : CString) (amount : d.Real)
      → ((code : HlError) × (prepare_margin d x symbol amount ≡ inl code)
          × IsRefused x (margin_asset d x (coin_buffer symbol)) amount code)
        ⊎ ((key : CString) × (sig : CString) × (d.less_equal amount d.zero_real ≡ false)
            × HasKeys d x key
            × (margin_asset d x (coin_buffer symbol) ≢ 0)
            × (x.sign
                  (request_text 1024 x.now
                    (margin_text (margin_asset d x (coin_buffer symbol)) amount))
                  key
                ≡ some sig)
            × ((text : CString) × (prepare_margin d x symbol amount ≡ inr text)
                × (hl_add_margin d x symbol amount ≡ margin_answer d (x.post text))
                × (text
                    ≡ snprintf 2048 (
                        request_text 1024 x.now
                          (margin_text (margin_asset d x (coin_buffer symbol)) amount)
                        ++ str ",\"signature\":\""
                        ++ sig
                        ++ str "\"}"))))
  unfolding prepare_margin
  prepare_margin-signed x symbol amount = elim (Bool-cases (d.less_equal amount d.zero_real)) [
    | inl p ↦ inl (invalid_params, rw (prepare_margin, p) refl, inl (refl, inl p))
    | inr p ↦ elim (Option-cases (both_keys d x)) [
      | inl q ↦ inl (auth, rw (prepare_margin, p, q) refl, inr (inl (refl, both_keys-none d x q)))
      | inr (key, q) ↦
          let id = margin_asset d x (coin_buffer symbol) in
          elim (Bool-cases (id == 0)) [
            | inl r ↦ inl (
              invalid_params,
              rw (prepare_margin, p, q, r) refl,
              inl (refl, inr ((==_iff id 0).0 r)),
            )
            | inr r ↦
                let same = margin_action_lem id amount in
                elim (signed_body_lem d 1024 x key (margin_text id amount)) [
                  | inl (s, t) ↦ inl (
                    signature,
                    rw (prepare_margin, p, q, r, same, t) refl,
                    inr (inr (refl, (key, both_keys-some d x q, s))),
                  )
                  | inr (sig, s, t) ↦ inr (
                    key,
                    sig,
                    p,
                    both_keys-some d x q,
                    ground arith,
                    s,
                    (
                      snprintf 2048 (
                          request_text 1024 x.now (margin_text id amount)
                          ++ str ",\"signature\":\""
                          ++ sig
                          ++ str "\"}"),
                      rw (prepare_margin, p, q, r, same, t) refl,
                      hl_add_margin-post x symbol amount
                          (rw (prepare_margin, p, q, r, same, t) refl),
                      refl,
                    ),
                  )
                ]
          ]
    ]
  ]
