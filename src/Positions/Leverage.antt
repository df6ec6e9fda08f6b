-- ===== src/Positions/Leverage.antt =====
-- What the call of src/leverage.c can do.
use hyperliquid_c.Prelude.{
  ℕ, ◌≤◌, ◌<◌, ◌≡◌, refl, ap, ◌⊎◌, inl, inr, true, ◌||◌, Option, none, some, ◌++◌, arith, ltb,
  if◌then◌else◌, Bool-cases, Option-cases,
}
use hyperliquid_c.Prelude.Text.{CString, str, snprintf}
use hyperliquid_c.Positions.Signed.{
  request_text, signed_body_lem, HasKeys, both_keys-none, both_keys-some,
}
use hyperliquid_c.Types.{decimal, signature, HlError, auth, invalid_params, Doubles, ℤ, pos, negsuc}
use hyperliquid_c.Positions.{
  leverage_answer, signature, auth, Exchange, both_keys, signed_body, leverage_action,
  leverage_target, prepare_leverage, hl_set_leverage, leverage_asset, coin_buffer,
}
use mathlib.Core.Logic.{◌⊎◌, inl, inr}

out_of_range : (n : ℕ) → (ltb n 1 || ltb 50 n) ≡ true → (n < 1) ⊎ (50 < n)
out_of_range n h = ground arith

module _ (d : Doubles) where
  -- The text of the action that sets the leverage of one asset, or the default one.
  abbrev pub leverage_text : ℕ → Option ℕ → CString
  leverage_text n none =
      snprintf 1024 (str "[{\"type\":\"updateLeverage\",\"leverage\":" ++ decimal n ++ str "}]")
  leverage_text n (some id) = snprintf 1024 (
      str "[{\"type\":\"updateLeverage\",\"leverage\":"
      ++ decimal n
      ++ str ",\"asset\":"
      ++ decimal id
      ++ str "}]")

  leverage_action_lem :
      (n : ℕ) (target : Option ℕ) → leverage_action d n target ≡ leverage_text n target
  unfolding leverage_action
  leverage_action_lem n none = refl
  leverage_action_lem n (some id) = refl

  -- The asset that the text names: none without a symbol, and none for a symbol whose asset is 0.
  abbrev pub IsTarget : Exchange d → Option CString → Option ℕ → Type 0
  IsTarget x symbol none =
      (symbol ≡ none)
      ⊎ ((s : CString) × (symbol ≡ some s) × (leverage_asset d x (coin_buffer s) ≡ 0))
  IsTarget x symbol (some id) =
      (s : CString) × (symbol ≡ some s) × (leverage_asset d x (coin_buffer s) ≡ id) × (0 < id)

  leverage_target-IsTarget :
      (x : Exchange d) (symbol : Option CString) → IsTarget x symbol (leverage_target d x symbol)
  unfolding leverage_target
  leverage_target-IsTarget x none = inl refl
  leverage_target-IsTarget x (some s) =
      elim (Bool-cases (ltb 0 (leverage_asset d x (coin_buffer s)))) [
        | inl h ↦ rw (leverage_target, h) (s, refl, refl, ground arith)
        | inr h ↦ rw (leverage_target, h) (inr (s, refl, ground arith))
      ]

  hl_set_leverage-post :
      (x : Exchange d) (leverage : ℤ) (symbol : Option CString) {text : CString}
      → prepare_leverage d x leverage symbol ≡ inr text
      → hl_set_leverage d x leverage symbol ≡ leverage_answer d (x.post text)
  unfolding hl_set_leverage
  hl_set_leverage-post x leverage symbol e = rw (hl_set_leverage, e) refl

  -- Why nothing is posted to set a leverage: it is not one from 1 to 50, a key is missing, or the
  -- request gets no signature.
  abbrev pub IsRefused : Exchange d → ℤ → Option ℕ → HlError → Type 0
  IsRefused x leverage target code =
      ((code ≡ invalid_params)
        × (((n : ℕ) × (leverage ≡ negsuc n))
            ⊎ ((n : ℕ) × (leverage ≡ pos n) × ((n < 1) ⊎ (50 < n)))))
      ⊎ (((code ≡ auth) × ((x.wallet ≡ none) ⊎ (x.key ≡ none)))
          ⊎ ((code ≡ signature)
              × ((n : ℕ) × (key : CString) × (leverage ≡ pos n)
                  × HasKeys d x key
                  × (x.sign (request_text 1536 x.now (leverage_text n target)) key ≡ none))))

  -- For every client, leverage and symbol, setting the leverage is refused, as invalid for one below 1
  -- or above 50, for a missing key, or for a missing signature; or the leverage is from 1 to 50, both
  -- keys are there, and what is posted, cut to 2047 bytes, is the text of the updateLeverage request
  -- of that leverage, with the clock as its nonce, and with the signature of that very text by the key
  -- behind it. The text names the asset of the symbol, and no asset where there is no symbol or its
  -- asset is 0; the action is cut to 1023 bytes in it, and the request to 1535.
  pub prepare_leverage-signed :
      (x : Exchange d) (leverage : ℤ) (symbol : Option CString)
      → (target : Option ℕ) × IsTarget x symbol target
        × (((code : HlError) × (prepare_leverage d x leverage symbol ≡ inl code)
              × IsRefused x leverage target code)
            ⊎ ((n : ℕ) × (key : CString) × (sig : CString) × (leverage ≡ pos n)
                × (1 ≤ n)
                × (n ≤ 50)
                × HasKeys d x key
                × (x.sign (request_text 1536 x.now (leverage_text n target)) key ≡ some sig)
                × ((text : CString) × (prepare_leverage d x leverage symbol ≡ inr text)
                    × (hl_set_leverage d x leverage symbol ≡ leverage_answer d (x.post text))
                    × (text
                        ≡ snprintf 2048 (
                            request_text 1536 x.now (leverage_text n target)
                            ++ str ",\"signature\":\""
                            ++ sig
                            ++ str "\"}")))))
  unfolding prepare_leverage
  prepare_leverage-signed x (negsuc n) symbol = (
    leverage_target d x symbol,
    leverage_target-IsTarget x symbol,
    inl (invalid_params, refl, inl (refl, inl (n, refl))),
  )
  prepare_leverage-signed x (pos n) symbol =
      let target = leverage_target d x symbol in
      (
        target,
        leverage_target-IsTarget x symbol,
        elim (Bool-cases (ltb n 1 || ltb 50 n)) [
          | inl p ↦ inl (
            invalid_params,
            rw (prepare_leverage, p) refl,
            inl (refl, inr (n, refl, out_of_range n p)),
          )
          | inr p ↦ elim (Option-cases (both_keys d x)) [
            | inl q ↦
                inl (auth, rw (prepare_leverage, p, q) refl, inr (inl (refl, both_keys-none d x q)))
            | inr (key, q) ↦
                let same = leverage_action_lem n target in
                elim (signed_body_lem d 1536 x key (leverage_text n target)) [
                  | inl (s, t) ↦ inl (
                    signature,
                    rw (prepare_leverage, p, q, same, t) refl,
                    inr (inr (refl, (n, key, refl, both_keys-some d x q, s))),
                  )
                  | inr (sig, s, t) ↦ inr (
                    n,
                    key,
                    sig,
                    refl,
                    ground arith,
                    ground arith,
                    both_keys-some d x q,
                    s,
                    (
                      snprintf 2048 (
                          request_text 1536 x.now (leverage_text n target)
                          ++ str ",\"signature\":\""
                          ++ sig
                          ++ str "\"}"),
                      rw (prepare_leverage, p, q, same, t) refl,
                      hl_set_leverage-post x (pos n) symbol
                          (rw (prepare_leverage, p, q, same, t) refl),
                      refl,
                    ),
                  )
                ]
          ]
        ],
      )

  no_target :
      (x : Exchange d) (symbol : CString)
      → leverage_asset d x (coin_buffer symbol) ≡ 0
      → leverage_target d x (some symbol) ≡ leverage_target d x none
  unfolding leverage_target
  no_target x symbol h = rw (leverage_target, h) refl

  -- A symbol whose asset is not found sets the default leverage: the call does exactly what it does
  -- without a symbol.
  pub hl_set_leverage-default :
      (x : Exchange d) (leverage : ℤ) (symbol : CString)
      → leverage_asset d x (coin_buffer symbol) ≡ 0
      → hl_set_leverage d x leverage (some symbol) ≡ hl_set_leverage d x leverage none
  unfolding hl_set_leverage prepare_leverage
  hl_set_leverage-default x (negsuc n) symbol h = refl
  hl_set_leverage-default x (pos n) symbol h =
      let e : leverage_target d x (some symbol) ≡ leverage_target d x none = no_target x symbol h in
      ap
        (λ t.
          let r : HlError ⊎ CString =
            if ltb n 1 || ltb 50 n then inl invalid_params else elim (both_keys d x) [
              | none ↦ inl auth
              | some key ↦ elim (signed_body d 1536 x key (leverage_action d n t)) [
                | none ↦ inl signature
                | some body ↦ inr (snprintf 2048 body)
              ]
            ] in
          elim r [ inl f ↦ f | inr body ↦ leverage_answer d (x.post body) ])
        e
