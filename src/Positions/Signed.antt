-- ===== src/Positions/Signed.antt =====
-- The signed requests of src/leverage.c and src/margin.c, as texts.
use mathlib.Core.Logic.{◌⊎◌, inl, inr}
use hyperliquid_c.Prelude.{ℕ, ◌≡◌, refl, ◌⊎◌, inl, inr, none, some, ◌++◌, Option-cases, >>=-eq-some}
use hyperliquid_c.Prelude.Text.{CString, str, snprintf}
use hyperliquid_c.Types.{Doubles, decimal}
use hyperliquid_c.Positions.{Exchange, exchange_request, with_signature, signed_body, both_keys}

-- The text that is signed, of which the buffer holds `size - 1` bytes, for the text of an action.
abbrev pub request_text : ℕ → ℕ → CString → CString
request_text size nonce action = snprintf size (
    str "{\"action\":{\"type\":\"batchModify\",\"modifies\":"
    ++ action
    ++ str "},\"nonce\":"
    ++ decimal nonce
    ++ str "}")

exchange_request_lem :
    (size nonce : ℕ) (action : CString)
    → snprintf size (exchange_request nonce action) ≡ request_text size nonce action
unfolding exchange_request
exchange_request_lem size nonce action = refl

module _ (d : Doubles) where
  -- A request is signed as a whole, and the signature goes behind its last brace.
  pub signed_body_lem :
      (size : ℕ) (x : Exchange d) (key action : CString)
      → ((x.sign (request_text size x.now action) key ≡ none)
          × (signed_body d size x key action ≡ none))
        ⊎ ((sig : CString) × (x.sign (request_text size x.now action) key ≡ some sig)
            × (signed_body d size x key action
                ≡ some (
                    request_text size x.now action ++ str ",\"signature\":\"" ++ sig ++ str "\"}")))
  unfolding signed_body with_signature exchange_request
  signed_body_lem size x key action =
      let same = exchange_request_lem size x.now action in
      elim (Option-cases (x.sign (snprintf size (exchange_request x.now action)) key)) [
        | inl a ↦ inl (rw same at a, rw (signed_body, a) refl)
        | inr (sig, a) ↦ inr (sig, rw same at a, rw (signed_body, a) refl)
      ]

  -- Both keys are there, and the secret key is this one.
  abbrev pub HasKeys : Exchange d → CString → Type 0
  HasKeys x key = ((wallet : CString) × (x.wallet ≡ some wallet)) × (x.key ≡ some key)

  pub both_keys-none : (x : Exchange d) → both_keys d x ≡ none → (x.wallet ≡ none) ⊎ (x.key ≡ none)
  unfolding both_keys
  both_keys-none x e = elim (Option-cases x.wallet) [
    | inl p ↦ inl p
    | inr (wallet, p) ↦ inr (rw (both_keys, p) at e)
  ]

  pub both_keys-some : (x : Exchange d) {key : CString} → both_keys d x ≡ some key → HasKeys x key
  unfolding both_keys
  both_keys-some x e = let (wallet, p, e) = >>=-eq-some x.wallet _ e in ((wallet, p), e)
